-- ===== src/Display/Picture.antt =====
-- The console simulator's picture through the decoder.
