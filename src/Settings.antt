-- ===== src/Settings.antt =====
-- The settings: what they are, how they are stored, and how the settings window edits them.
pub mod Types
pub mod Names
pub mod Valid
pub mod Places
pub mod KeyFile
pub mod Load
pub mod Save
pub mod Stored
pub mod Ascii
pub mod Fields
pub mod Groups
pub mod RoundTrip
pub mod Keeps
pub mod Storable
pub mod Endpoints
pub mod Disk
pub mod Replace
pub mod Secrets
pub mod Hydrate
pub mod Plan
pub mod Commit
pub mod Atomic
pub mod Parse
pub mod Edit
pub mod EditLemmas
pub mod EditRows
pub mod EditKeeps
pub mod Absent
pub mod Quiet
pub mod Forget
pub mod Conflict
pub mod Tokens
pub mod Tests
