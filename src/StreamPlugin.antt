-- ===== src/StreamPlugin.antt =====
-- wiiu/stream-plugin: the console's plugin that streams picture and sound to the host.
pub mod Audio
pub mod Net
pub mod Life
pub mod Settings
pub mod Surface
pub mod Capture
pub mod Encoder
