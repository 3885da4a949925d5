-- ===== src/Protocol/HelloStatus.antt =====
-- WsuHelloStatus of protocol/wsu_protocol.h.
use wii_sec_u.Base.{ℕ}

abbrev pub accepted : ℕ
accepted = 0

abbrev pub full : ℕ
full = 1

abbrev pub version_mismatch : ℕ
version_mismatch = 2

abbrev pub rejected : ℕ
rejected = 3
