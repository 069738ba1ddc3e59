-- ===== src/Rave.antt =====
-- src/rave.c: the handle through which a program randomizes its code.
pub mod Handle
pub mod Pages
pub mod Serve
pub mod Life
pub mod Sample
mod Tests
