-- ===== src/Text.antt =====
-- src/TextTransform.cpp: text and punctuation conversion.
pub mod Utf8
pub mod Marks
pub mod Formatter
pub mod Width
pub mod Nesting
pub mod Pairs
mod Tests
