-- ===== src/Memory.antt =====
-- src/memory.cpp and src/recipe.cpp: what a session is given to remember.
pub mod Recipe
pub mod Context
pub mod Reembed
