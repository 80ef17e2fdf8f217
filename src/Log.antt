-- ===== src/Log.antt =====
-- The logging module, src/_log.
pub mod Level
pub mod Pattern
pub mod Event
pub mod Formatter
pub mod Appender
pub mod Logger
pub mod Manager
pub mod Define
pub mod Dump
pub mod Initer
