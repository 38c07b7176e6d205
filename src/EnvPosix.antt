-- ===== src/EnvPosix.antt =====
-- db/Env_posix.cpp, the environment on a POSIX system. The system's calls are a parameter
-- (EnvPosix/Sys), and so are the threads (EnvPosix/Queue).
pub mod Sys
pub mod Files
pub mod Opening
pub mod Operations
pub mod Errors
pub mod Mapped
pub mod Limiter
pub mod Contention
pub mod LockTable
pub mod Locks
pub mod Queue
pub mod Whole
pub mod Writer
pub mod Store
pub mod Create
pub mod RoundTrip
mod Tests
