-- ===== src/KeyMapper.antt =====
-- Key events of IBus (src/IBusKeyMapper.cpp).
pub mod Types
pub mod Tracker
pub mod Translate
pub mod Toggles
pub mod Shape
pub mod Tests
