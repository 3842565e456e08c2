-- ===== src/Kernel/Desalojo.antt =====
-- The thread that leaves the CPU: kernel/src/kernel_cpu_interrupt.c, the case
-- ATENDER_DESALOJO_HILO_CPU of kernel/src/kernel_cpu_dispatch.c, and what the timer of a quantum
-- tests (kernel/src/planificador_corto_plazo.c). `none` is an access through NULL.
use tp_2024_2c_nachi_y_los_o.Comun.{
  ℕ, Bool, true, false, not, Option, none, some, ◌==◌, if◌then◌else◌, ◌>>=◌, get_elem?,
}
use tp_2024_2c_nachi_y_los_o.Kernel.Estado.{Tcb, Kernel, MaximoTcb, MaximoCola}
use tp_2024_2c_nachi_y_los_o.Kernel.Colas.{remover_tcb_de_lista, agregar_hilo_a_lista_ready}
use tp_2024_2c_nachi_y_los_o.Kernel.Planificacion.{enviado, pcp_planificador_corto_plazo}
use tp_2024_2c_nachi_y_los_o.Kernel.Hilos.{obtener_hilo_desalojado}

-- What a quantum that has ended sends to the CPU: the first thread of EXEC.
unfoldable pub gestionar_interrupt_quantum : Kernel → Option (ℕ × ℕ × ℕ)
gestionar_interrupt_quantum k = get_elem? k.lista_tcb_exec 0 >>= λ t. some (enviado t)

-- Whether the timer of a thread, started with a verificador, ends the quantum.
unfoldable pub programar_interrupcion_por_quantum : ℕ → Kernel → Tcb → Bool
programar_interrupcion_por_quantum verificador_referencia k t =
    if verificador_referencia == k.var_verificador then not t.flag_cancelar_quantum else false

module _ (mt : MaximoTcb) (mc : MaximoCola) where
  unfoldable pub atender_desalojo : Kernel → Tcb → Option Kernel
  atender_desalojo k t =
      agregar_hilo_a_lista_ready
        (record k {
          lista_tcb_exec =
              remover_tcb_de_lista t.id_hilo.tid t.id_hilo.pid_asociado k.lista_tcb_exec;
        })
        t
      >>= (λ k'. pcp_planificador_corto_plazo mt mc k')

  -- The case of a thread that is not in EXEC is cancelled.
  unfoldable pub atender_desalojo_hilo : Kernel → ℕ → ℕ → ℕ → Option Kernel
  unfolding atender_desalojo obtener_hilo_desalojado
  atender_desalojo_hilo k pid tid verificador =
      elim (obtener_hilo_desalojado pid tid verificador k) [
        | none ↦ some k
        | some (t, k') ↦ atender_desalojo k' (record t { flag_cancelar_quantum = true })
      ]
