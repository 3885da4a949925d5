-- ===== src/Protocol/Pkt.antt =====
-- WsuPacketType of protocol/wsu_protocol.h.
use wii_sec_u.Base.{ℕ}

abbrev pub hello : ℕ
hello = 1

abbrev pub hello_ack : ℕ
hello_ack = 2

abbrev pub config : ℕ
config = 3

abbrev pub video : ℕ
video = 4

abbrev pub audio : ℕ
audio = 5

abbrev pub input : ℕ
input = 6

abbrev pub input_bundle : ℕ
input_bundle = 7

abbrev pub rumble : ℕ
rumble = 8

abbrev pub ping : ℕ
ping = 9

abbrev pub pong : ℕ
pong = 10

abbrev pub bye : ℕ
bye = 11

abbrev pub keyframe_req : ℕ
keyframe_req = 12
