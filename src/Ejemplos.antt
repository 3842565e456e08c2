-- ===== src/Ejemplos.antt =====
-- The theorems at concrete inputs, and the parameters of the model with concrete functions.
mod Bibliotecas
mod Mensajes
mod Memorias
mod Procesos
mod Nucleo
mod Sistemas
mod Pedidos
mod Ciclos
