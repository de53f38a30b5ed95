-- ===== src/Auth.antt =====
-- auth2/src/auth2.c: pages behind a session that a database knows.
pub mod Examples
pub mod Request
pub mod Session
pub mod Pages
pub mod Machine
