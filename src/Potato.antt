-- ===== src/Potato.antt =====
-- The process side of potato_old: potato_old/potato.c and potato_old/util.h.
pub mod Options
pub mod Transfer
pub mod HandOff
pub mod Children
pub mod Servers
pub mod Fork
pub mod Tests
