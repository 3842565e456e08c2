-- ===== src/Memoria.antt =====
-- memoria/src: the memory module.
pub mod Estado
pub mod Particion
pub mod Proceso
pub mod EspacioUsuario
pub mod Hilo
pub mod Atencion
