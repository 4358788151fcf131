-- ===== src/Controller.antt =====
-- src/InputController.cpp and src/InputController.h: the input controller.
pub mod Types
pub mod State
pub mod Candidates
pub mod Modes
pub mod Punctuation
pub mod Keys
pub mod Online
pub mod Actions
pub mod Advance
pub mod Stale
pub mod Construct
mod Toy
mod Answering
mod Tests
pub mod Smart
pub mod Locks
pub mod Pairing
