-- ===== src/Controller/Advance.antt =====
-- What every operation of the controller does to the request identity and to the highlight.
pub mod Relation
pub mod Modes
pub mod Candidates
pub mod Punctuation
pub mod Marks
pub mod Keys
pub mod Answers
pub mod Run
