-- ===== src/Account.antt =====
-- The session of the signed-in account (src/account/AccountSession.cpp).
pub mod Types
pub mod Monad
pub mod Session
pub mod Preferences
pub mod Operations
pub mod Meets
pub mod Access
pub mod Granted
pub mod Keeps
pub mod Renews
pub mod Reviews
pub mod Actions
pub mod Run
pub mod Refused
pub mod Ended
pub mod Restore
pub mod Merge
pub mod Tests
