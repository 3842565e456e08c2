-- ===== src/Cpu.antt =====
-- The CPU module: cpu/src.
pub mod Registros
pub mod Mmu
pub mod Ejecucion
pub mod Ciclo
