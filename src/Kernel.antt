-- ===== src/Kernel.antt =====
-- The kernel module: kernel/src.
pub mod Recepcion
pub mod Avisos
pub mod Envio
pub mod Peticiones
pub mod Estado
pub mod Colas
pub mod Planificacion
pub mod Mutex
pub mod Hilos
pub mod Desalojo
pub mod Transiciones
pub mod Validez
pub mod Altas
pub mod Procesos
pub mod Sistema
pub mod Creacion
pub mod Finalizacion
pub mod Despacho
pub mod Pasos
pub mod Espera
pub mod Replanificacion
pub mod ConMemoria
