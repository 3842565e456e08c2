-- ===== src/Utils.antt =====
-- utils/src: what the four programs share.
pub mod Instrucciones
pub mod Paquete
pub mod Contexto
