-- ===== src/Host.antt =====
-- pc/src/core/input_hub.cpp and pc/src/host: the PC host.
pub mod InputHub
pub mod Session
pub mod Link
pub mod App
