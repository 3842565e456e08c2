-- ===== src/Kernel/Planificacion.antt =====
-- The short-term scheduler: kernel/src/planificador_corto_plazo.c. A packet to the CPU is the
-- identification of the thread. The clock that ends a quantum is not modelled. `none` is an access
-- through NULL.
pub mod Veces
pub mod Invariantes
pub mod Bloqueados
pub mod Agregado
use tp_2024_2c_nachi_y_los_o.Comun.{
  ℕ, zero, suc, ◌≡◌, Bool, true, false, ◌&&◌, not, Option, none, some, List, [], ◌∷◌, ◌++◌, ◌==◌,
  if◌then◌else◌, ◌>>=◌, length, get_elem?, add32,
}
use tp_2024_2c_nachi_y_los_o.Kernel.Estado.{
  Algoritmo, fifo, prioridades, cmn, EstadoTcb, exec, HiloId, Tcb, ColaMultinivel, Kernel, elegir,
  MaximoTcb, MaximoCola,
}
use tp_2024_2c_nachi_y_los_o.Kernel.Colas.{
  buscar_y_remover_tcb_por_tid_de, agregar_hilo_a_lista_ready, vacia, todas_las_colas_estan_vacias,
  obtener_siguiente_tcb_a_ejecutar_en_cmn,
}

-- `enviar_tcb_CPU_dispatch`.
abbrev pub enviado : Tcb → ℕ × ℕ × ℕ
enviado t = (t.id_hilo.pid_asociado, t.id_hilo.tid, t.verificador)

-- The thread goes to EXEC, and to the CPU.
unfoldable pub despachar : Kernel → Tcb → Kernel
despachar k t = record k {
  lista_tcb_exec = k.lista_tcb_exec ++ record t { estado = exec } ∷ [];
  a_cpu = k.a_cpu ++ enviado t ∷ [];
}

-- The element at a position, taken out of its list.
abbrev pub quitar : {A : Type 0} → ℕ → List A → Option (A × List A)
quitar i [] = none
quitar zero (x ∷ xs) = some (x, xs)
quitar (suc i) (x ∷ xs) = quitar i xs >>= λ (y, ys). some (y, x ∷ ys)

unfoldable pub atender_fifo : Kernel → Kernel
unfolding despachar
atender_fifo k =
    if vacia k.lista_tcb_exec
    then (elim (quitar 0 k.lista_tcb_ready) [
      | none ↦ k
      | some (t, ts) ↦ despachar (record k { lista_tcb_ready = ts }) t
    ])
    else k

-- The position of the thread that `atender_prioridades` takes: `list_get_maximum`, but for a list
-- of one.
unfoldable pub mas_prioritario : MaximoTcb → List Tcb → Option ℕ
mas_prioritario mt ts =
    if length ts == 1 then some 0 else mt.list_get_maximum (elegir (λ t. t.prioridad)) ts

unfoldable pub atender_prioridades : MaximoTcb → Kernel → Kernel
unfolding mas_prioritario despachar
atender_prioridades mt k =
    if vacia k.lista_tcb_exec && not (vacia k.lista_tcb_ready)
    then (elim (mas_prioritario mt k.lista_tcb_ready >>= λ i. quitar i k.lista_tcb_ready) [
      | none ↦ k
      | some (t, ts) ↦ despachar (record k { lista_tcb_ready = ts }) t
    ])
    else k

-- The verificador is new, and the quantum of the thread is not cancelled.
unfoldable pub atender_cmn : MaximoCola → Kernel → Option Kernel
unfolding despachar
atender_cmn mc k =
    if vacia k.lista_tcb_exec
    then (obtener_siguiente_tcb_a_ejecutar_en_cmn mc k.lista_cola_multinivel >>= λ (t, cs). some (
        despachar
          (record k { lista_cola_multinivel = cs; var_verificador = add32 k.var_verificador 1 })
          (record t { verificador = add32 k.var_verificador 1; flag_cancelar_quantum = false })))
    else some k

unfoldable pub planificar_segun : MaximoTcb → MaximoCola → Algoritmo → Kernel → Option Kernel
unfolding atender_fifo atender_prioridades atender_cmn
planificar_segun mt mc fifo k = if vacia k.lista_tcb_ready then some k else some (atender_fifo k)
planificar_segun mt mc prioridades k =
    if vacia k.lista_tcb_ready then some k else some (atender_prioridades mt k)
planificar_segun mt mc cmn k =
    if todas_las_colas_estan_vacias k.lista_cola_multinivel then some k else atender_cmn mc k

unfoldable pub pcp_planificador_corto_plazo : MaximoTcb → MaximoCola → Kernel → Option Kernel
unfolding planificar_segun
pcp_planificador_corto_plazo mt mc k = planificar_segun mt mc k.algoritmo_planificacion k

module _ (mt : MaximoTcb) (mc : MaximoCola) where
  unfoldable pub bloquear_hilo_en_ejecucion : Kernel → ℕ → ℕ → Option Kernel
  bloquear_hilo_en_ejecucion k tid pid =
      elim (buscar_y_remover_tcb_por_tid_de tid pid k.lista_tcb_exec) [
        | none ↦ some k
        | some (t, ts) ↦ pcp_planificador_corto_plazo mt mc (record k {
          lista_tcb_exec = ts;
          lista_tcb_blocked = k.lista_tcb_blocked ++ record t { flag_cancelar_quantum = true } ∷ [];
        })
      ]

  unfoldable pub desbloquear_hilo : Kernel → HiloId → Option Kernel
  desbloquear_hilo k h =
      elim (buscar_y_remover_tcb_por_tid_de h.tid h.pid_asociado k.lista_tcb_blocked) [
        | none ↦ some k
        | some (t, ts) ↦
            agregar_hilo_a_lista_ready (record k { lista_tcb_blocked = ts }) t
            >>= (λ k'. pcp_planificador_corto_plazo mt mc k')
      ]
