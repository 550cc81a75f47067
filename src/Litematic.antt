-- ===== src/Litematic.antt =====
-- src/formats/litematic.cpp and src/formats/litematic_writer.cpp.
pub mod Packed
pub mod Nbt
pub mod Values
pub mod Palette
pub mod Region
pub mod Structure
pub mod Writer
mod Runs
