-- ===== src/Gui.antt =====
-- pc/src/gui: the graphical program.
pub mod Settings
pub mod SharedInput
pub mod View
pub mod App
pub mod Log
