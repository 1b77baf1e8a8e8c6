-- ===== src/Elf.antt =====
-- src/elf.rs: the ELF64 relocatable object model. A child for each wire structure and component.
mod Tests
pub mod Error
pub mod Constants
pub mod Reloc
pub mod Ehdr
pub mod Shdr
pub mod Sym
pub mod Rela
pub mod Strtab
pub mod Model
pub mod Validate
pub mod SymbolOrder
pub mod Layout
pub mod Writer
