-- ===== src/Kernel/Envio.antt =====
-- A thread on its way to the CPU: enviar_tcb_CPU_dispatch of kernel/src/tcb.c.
use tp_2024_2c_nachi_y_los_o.Comun.{ℕ}
use tp_2024_2c_nachi_y_los_o.Utils.Paquete.{Paquete, crear_buffer, cargar_int_al_paquete}

-- `EJECUTAR_HILO_KERNEL_CPU` is 12.
unfoldable pub paquete_de_tcb : ℕ → ℕ → ℕ → Paquete
paquete_de_tcb pid tid verificador = record {
  codigo_operacion = 12;
  buffer =
      cargar_int_al_paquete (cargar_int_al_paquete (cargar_int_al_paquete crear_buffer pid) tid)
        verificador;
}
