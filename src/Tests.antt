-- ===== src/Tests.antt =====
-- Test data, and the theorems of the library at concrete inputs.
mod Console
mod Wire
mod Video
mod Players
mod Links
mod Programs
