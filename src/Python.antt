-- ===== src/Python.antt =====
-- The Python provider, src/pythonprov.
pub mod Output
pub mod TypedObject
pub mod Functions
pub mod Stacks
pub mod Running
