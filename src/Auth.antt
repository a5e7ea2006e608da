-- ===== src/Auth.antt =====
-- The modules under backend/auth/.
pub mod Tests
pub mod Rows
pub mod Lockout
pub mod Sessions
pub mod Users
pub mod Passwords
pub mod ResetTokens
pub mod Mfa
pub mod Audit
pub mod Db
pub mod Middleware
pub mod Login
pub mod Account
pub mod Admin
pub mod Enrolment
