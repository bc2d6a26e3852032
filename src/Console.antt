-- ===== src/Console.antt =====
-- src/console: the terminals.
pub mod Tty
