-- ===== src/Kernel/Finalizacion.antt =====
-- The end of threads and processes: kernel/src/planificador_largo_plazo.c, the release of mutexes of
-- kernel/src/mutex.c and that of the waiting threads of kernel/src/planificador_corto_plazo.c. `none`
-- is an access through NULL, or a memory that does not answer.
use tp_2024_2c_nachi_y_los_o.Comun.{
  ℕ, zero, suc, Bool, true, Option, none, some, List, [], ◌∷◌, ◌++◌, ◌==◌, if◌then◌else◌, ◌>>=◌,
  opcion, length, get_elem?,
}
use tp_2024_2c_nachi_y_los_o.Kernel.Estado.{HiloId, Tcb, Kernel, MaximoTcb, MaximoCola}
use tp_2024_2c_nachi_y_los_o.Kernel.Sistema.{
  PedidosMemoria, Sistema, buscar_pcb_por_pid, modificar_pcb, modificar_mutex, mutex_de, con_kernel,
}
use tp_2024_2c_nachi_y_los_o.Kernel.Procesos.{exit_pcb, buscar_pcb_por_pid_en, remover_pcb}
use tp_2024_2c_nachi_y_los_o.Kernel.Hilos.{
  ◌<|>◌, buscar_tcb_por_tid, buscar_y_remover_tcb_por_tid, modificar_tcb,
}
use tp_2024_2c_nachi_y_los_o.Kernel.Planificacion.{pcp_planificador_corto_plazo, desbloquear_hilo}
use tp_2024_2c_nachi_y_los_o.Kernel.Mutex.{remover_hilo_de_mutex, remover_id_hilo_de_lista, ceder}
use tp_2024_2c_nachi_y_los_o.Utils.Instrucciones.{strcmp_eq}
use tp_2024_2c_nachi_y_los_o.Kernel.Creacion.{replanificar_creacion_proceso}

-- The first thread that waited, and its mutex.
abbrev pub recibir_recurso : List ℕ → Tcb → Tcb
recibir_recurso nombre t = record t {
  lista_mutex_asignados = t.lista_mutex_asignados ++ nombre ∷ [];
}

-- `list_remove_by_condition`, of the first mutex of the name.
unfoldable pub quitar_nombre : List ℕ → List (List ℕ) → List (List ℕ)
quitar_nombre nombre [] = []
quitar_nombre nombre (n ∷ ns) = if strcmp_eq n nombre then ns else n ∷ quitar_nombre nombre ns

abbrev pub es_cero : HiloId → Bool
es_cero h = h.tid == 0

-- The thread 0, and the others.
unfoldable pub sacar_hilo_cero : List HiloId → Option (HiloId × List HiloId)
sacar_hilo_cero [] = none
sacar_hilo_cero (h ∷ hs) =
    let resto = sacar_hilo_cero hs in
    if es_cero h then some (h, hs) else (resto >>= λ (c, hs'). some (c, h ∷ hs'))

module _ {S : Type 0} where
  unfoldable pub desocupar_mutex : HiloId → ℕ → List (List ℕ) → Sistema S → Sistema S
  desocupar_mutex h pid [] s = s
  desocupar_mutex h pid (n ∷ ns) s =
      desocupar_mutex h pid ns (modificar_mutex pid n (λ m. remover_hilo_de_mutex m h) s)

  -- The block of a process whose thread ends: one that is in memory, or in NEW.
  unfoldable pub olvidar_hilo : HiloId → Sistema S → Sistema S
  olvidar_hilo h s =
      opcion
        (buscar_pcb_por_pid_en h.pid_asociado s.lista_pcb_en_memoria
          <|> buscar_pcb_por_pid_en h.pid_asociado s.lista_pcb_new)
        s
        (λ p.
          modificar_pcb h.pid_asociado
            (λ p. record p {
              lista_id_hilo = remover_id_hilo_de_lista h.tid h.pid_asociado p.lista_id_hilo;
            })
            s)

  unfoldable pub hilos_de : ℕ → Sistema S → List HiloId
  hilos_de pid s = opcion (buscar_pcb_por_pid pid s) [] (λ p. p.lista_id_hilo)

module _ (mt : MaximoTcb) (mc : MaximoCola) where
  unfoldable pub liberar_tcbs_en_espera_por_join : List HiloId → Kernel → Option Kernel
  liberar_tcbs_en_espera_por_join [] k = some k
  liberar_tcbs_en_espera_por_join (h ∷ hs) k =
      desbloquear_hilo mt mc k h >>= λ k'. liberar_tcbs_en_espera_por_join hs k'

module _ {S : Type 0} (mt : MaximoTcb) (mc : MaximoCola) where
  -- The thread that waited first is woken; it must still be in a list.
  unfoldable pub despertar_siguiente : Sistema S → List ℕ → List HiloId → Option (Sistema S)
  despertar_siguiente s nombre [] = some s
  despertar_siguiente s nombre (h ∷ hs) = do
    k ← desbloquear_hilo mt mc s.kernel h
    t ← buscar_tcb_por_tid h.tid h.pid_asociado k
    some (record s { kernel = modificar_tcb h.tid h.pid_asociado (recibir_recurso nombre) k })

  unfoldable pub protocolo_liberacion_recurso : Sistema S → ℕ → List ℕ → Option (Sistema S)
  unfolding despertar_siguiente
  protocolo_liberacion_recurso s pid nombre = do
    m ← mutex_de pid nombre s
    s' ← despertar_siguiente s nombre m.lista_bloqueados
    some (modificar_mutex pid nombre (λ m. ceder m m.lista_bloqueados) s')

  unfoldable pub atender_liberacion_de_recurso : Sistema S → ℕ → ℕ → List ℕ → Option (Sistema S)
  unfolding protocolo_liberacion_recurso quitar_nombre
  atender_liberacion_de_recurso s tid pid nombre =
      protocolo_liberacion_recurso
        (record s {
          kernel =
              modificar_tcb tid pid
                (λ t. record t {
                  lista_mutex_asignados = quitar_nombre nombre t.lista_mutex_asignados;
                })
                s.kernel;
        })
        pid nombre

  unfoldable pub liberar_recursos_tcb : ℕ → List (List ℕ) → Sistema S → Option (Sistema S)
  unfolding protocolo_liberacion_recurso
  liberar_recursos_tcb pid [] s = some s
  liberar_recursos_tcb pid (n ∷ ns) s =
      protocolo_liberacion_recurso s pid n >>= λ s'. liberar_recursos_tcb pid ns s'

  -- What follows the answer "OK" to the end of a thread.
  unfoldable pub liberar_hilo : HiloId → Tcb → Sistema S → Option (Sistema S)
  unfolding desocupar_mutex liberar_recursos_tcb olvidar_hilo liberar_tcbs_en_espera_por_join
  liberar_hilo h t s = do
    s1 ←
        liberar_recursos_tcb t.id_hilo.pid_asociado t.lista_mutex_asignados
          (desocupar_mutex t.id_hilo t.id_hilo.pid_asociado t.lista_mutex_asignados s)
    let s2 : Sistema S = olvidar_hilo h (record s1 { lista_tcb_exit = s1.lista_tcb_exit ++ t ∷ [] })
    con_kernel s2 (liberar_tcbs_en_espera_por_join mt mc t.tids_en_espera_por_join s2.kernel)

module _ {S : Type 0} (mem : PedidosMemoria S) (mt : MaximoTcb) (mc : MaximoCola) where
  unfoldable pub finalizar_hilo : Sistema S → HiloId → Option (Sistema S)
  unfolding liberar_hilo
  finalizar_hilo s h =
      opcion (buscar_y_remover_tcb_por_tid h.tid h.pid_asociado s.kernel) (some s) (λ (t, k).
        let (m, acepta) = mem.finalizacion_hilo s.memoria h.tid h.pid_asociado in
        let s1 : Sistema S = record s { kernel = k; memoria = m } in
        (if acepta
          then liberar_hilo mt mc h (record t { flag_cancelar_quantum = true }) s1
          else some s1)
        >>= λ s2. con_kernel s2 (pcp_planificador_corto_plazo mt mc s2.kernel))

  -- The loop over the list of the process, from a position, on fuel: as many rounds as the list has
  -- threads, since the list only shrinks while the index grows.
  unfoldable pub eliminar_desde : ℕ → ℕ → ℕ → Sistema S → Option (Sistema S)
  unfolding finalizar_hilo hilos_de
  eliminar_desde zero i pid s = some s
  eliminar_desde (suc n) i pid s =
      opcion (get_elem? (hilos_de pid s) i) (some s)
        (λ h. finalizar_hilo s h >>= λ s'. eliminar_desde n (suc i) pid s')

  unfoldable pub eliminar_hilos : ℕ → Sistema S → Option (Sistema S)
  unfolding eliminar_desde sacar_hilo_cero
  eliminar_hilos pid s = do
    (h, hs) ← sacar_hilo_cero (hilos_de pid s)
    s' ←
        eliminar_desde (length hs) 0 pid
          (modificar_pcb pid (λ p. record p { lista_id_hilo = hs }) s)
    finalizar_hilo s' h

module _ {S : Type 0} (mem : PedidosMemoria S) (basura : Bool) (mt : MaximoTcb)
    (mc : MaximoCola) where
  -- The process that is not in EXIT, and that memory has freed.
  unfoldable pub liberar_proceso : ℕ → Sistema S → Option (Sistema S)
  unfolding eliminar_hilos
  liberar_proceso pid s = do
    s1 ←
        eliminar_hilos mem mt mc pid
          (modificar_pcb pid (λ p. record p { flag_proceso_finalizado = true }) s)
    s2 ← replanificar_creacion_proceso mem basura (suc (length s1.lista_pcb_new)) s1
    p ← buscar_pcb_por_pid pid s2
    some (
        modificar_pcb pid (λ p. record p { estado = exit_pcb })
          (record s2 {
            lista_pcb_en_memoria = remover_pcb pid s2.lista_pcb_en_memoria;
            lista_pcb_exit = s2.lista_pcb_exit ++ p ∷ [];
          }))

  -- The process that is found in memory or in NEW.
  unfoldable pub finalizar_encontrado : Sistema S → ℕ → Option (Sistema S)
  unfolding liberar_proceso
  finalizar_encontrado s pid = mem.finalizacion_proceso s.memoria pid >>= λ (m, acepta).
      let s1 : Sistema S = record s { memoria = m } in
      if acepta then liberar_proceso pid s1 else some s1

  unfoldable pub finalizar_proceso : Sistema S → ℕ → Option (Sistema S)
  unfolding finalizar_encontrado
  finalizar_proceso s pid =
      opcion (buscar_pcb_por_pid_en pid s.lista_pcb_exit)
        (opcion
          (buscar_pcb_por_pid_en pid s.lista_pcb_en_memoria
            <|> buscar_pcb_por_pid_en pid s.lista_pcb_new)
          (some s) (λ p. finalizar_encontrado s pid))
        (λ p. some s)
