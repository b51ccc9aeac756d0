-- ===== src/Auth.antt =====
-- Authentication: crates/lib/src/auth/.
pub mod Permission
pub mod Bounds
pub mod Key
pub mod Codec
pub mod Error
pub mod Settings
pub mod Reference
pub mod Delegation
pub mod Access
pub mod Validate
mod Tests
