-- ===== src/Tests.antt =====
-- Runs of the definitions on concrete inputs, and each result at an input that meets its premises.
mod Log
mod Config
mod Fiber
mod Scheduler
mod Trees
mod Define
mod Initer
mod Cast
mod Mutex
mod Locks
mod Thread
mod Http
mod Util
mod Backup
