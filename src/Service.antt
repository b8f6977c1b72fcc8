-- ===== src/Service.antt =====
-- potato_old/service.c: requests read from a socket and answers written to it.
pub mod Io
pub mod Buffer
pub mod Path
pub mod Session
pub mod Request
pub mod Tests
