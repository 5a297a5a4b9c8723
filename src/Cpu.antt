-- ===== src/Cpu.antt =====
-- The CPU module: translation of addresses and the instructions.
pub mod Tlb
pub mod Mmu
pub mod Lectura
pub mod Numeros
pub mod Registros
pub mod Interrupciones
mod Tests
