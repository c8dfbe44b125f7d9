-- ===== src/Helper.antt =====
-- src/helper.c, the program storaged-lvm-helper. The lvm2app library and write (2) are parameters.
pub mod Args
pub mod Show
pub mod Output
pub mod Main
pub mod Lvm
