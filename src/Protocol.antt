-- ===== src/Protocol.antt =====
-- protocol/wsu_protocol.h, the wire protocol that every program of the repository shares.
-- `Wire` has the byte-order helpers, `Types` the structs and constants, `Pack` and `Parse` the
-- functions of those names; the other children prove what holds of them.
pub mod Wire
pub mod Types
pub mod Pkt
pub mod HelloStatus
pub mod ByeReason
pub mod Pack
pub mod Parse
pub mod Safety
pub mod Roundtrip
