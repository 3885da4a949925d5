-- ===== src/Console.antt =====
-- wiiu/common/wsu_wiiu.h: what both plugins share. The console's system calls are parameters.
pub mod Config
pub mod Thread
