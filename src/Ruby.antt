-- ===== src/Ruby.antt =====
-- The Ruby provider, src/rubyprov.
pub mod Output
pub mod TypedObject
pub mod Functions
pub mod Stacks
pub mod Running
