-- ===== src/Lua.antt =====
-- The Lua provider, src/luaprov.
pub mod Output
pub mod Input
pub mod Properties
pub mod TypedObject
pub mod Index
pub mod Functions
pub mod Stacks
pub mod Running
