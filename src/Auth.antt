-- ===== src/Auth.antt =====
-- Authentication: crates/summer-auth.
pub mod Permission
pub mod Bitmap
pub mod PublicRoutes
pub mod PathAuth
pub mod UserType
pub mod Storage
pub mod Tokens
pub mod Session
pub mod Refresh
mod Tests
mod SessionTests
