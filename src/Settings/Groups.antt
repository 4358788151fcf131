-- ===== src/Settings/Groups.antt =====
-- Each group of keys is read back as it was stored (src/SettingsStore.cpp).
mod Typing
mod Candidates
mod Online
mod Voice
pub use Typing.*
pub use Candidates.*
pub use Online.*
pub use Voice.*
