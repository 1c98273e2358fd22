-- ===== src/Smtp.antt =====
-- src/smtp: the wire syntax of SMTP.
pub mod Extensions
pub mod Params
pub mod Command
pub mod Reply
pub mod Dsn
