-- ===== src/Protocol/ByeReason.antt =====
-- WsuByeReason of protocol/wsu_protocol.h.
use wii_sec_u.Base.{ℕ}

abbrev pub quit : ℕ
quit = 0

abbrev pub timeout : ℕ
timeout = 1

abbrev pub kicked : ℕ
kicked = 2

abbrev pub shutdown : ℕ
shutdown = 3
