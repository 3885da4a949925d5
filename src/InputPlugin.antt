-- ===== src/InputPlugin.antt =====
-- wiiu/input-plugin/src: the console's controller injection plugin.
pub mod RemoteInput
pub mod NetThread
pub mod Settings
pub mod Applications
pub mod Life
pub mod Injection
pub mod Relay
