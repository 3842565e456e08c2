-- ===== src/Kernel/Creacion.antt =====
-- The creation of processes and threads: `crear_tcb` of kernel/src/tcb.c, kernel/src/pcb.c, and
-- `replanificar_creacion_proceso` of kernel/src/planificador_largo_plazo.c. `none` is an access
-- through NULL, or the `exit` of a kernel whose memory refuses a thread.
use tp_2024_2c_nachi_y_los_o.Comun.{
  ℕ, zero, suc, Bool, true, false, Option, none, some, List, [], ◌∷◌, ◌++◌, ◌==◌, if◌then◌else◌,
  ◌>>=◌, opcion, length, get_elem?, add32,
}
use tp_2024_2c_nachi_y_los_o.Kernel.Estado.{
  Algoritmo, fifo, prioridades, cmn, ready, HiloId, Tcb, Kernel,
}
use tp_2024_2c_nachi_y_los_o.Kernel.Sistema.{PedidosMemoria, planificar, Sistema, lanzar}
use tp_2024_2c_nachi_y_los_o.Kernel.Procesos.{en_memoria_pcb, Pcb, nuevo_pcb, remover_pcb}
use tp_2024_2c_nachi_y_los_o.Kernel.Colas.{crear_colamultinivel, agregar_hilo_a_lista_ready}

-- The identification of the thread that a process creates next.
unfoldable pub siguiente_hilo : Pcb → Option HiloId
siguiente_hilo p =
    if p.siguiente_tid == 0
    then get_elem? p.lista_id_hilo 0
    else some (record { tid = p.siguiente_tid; pid_asociado = p.pid })

unfoldable pub con_hilo : HiloId → Pcb → Pcb
con_hilo h p = record p {
  siguiente_tid = add32 p.siguiente_tid 1;
  lista_id_hilo = if h.tid == 0 then p.lista_id_hilo else p.lista_id_hilo ++ h ∷ [];
}

-- With CMN, the queue of the priority.
unfoldable pub con_cola_segun : Algoritmo → ℕ → Kernel → Kernel
con_cola_segun fifo prioridad k = k
con_cola_segun prioridades prioridad k = k
con_cola_segun cmn prioridad k = record k {
  lista_cola_multinivel = crear_colamultinivel prioridad k.lista_cola_multinivel;
}

-- `basura` is the flag of the quantum that `malloc` leaves, until the first dispatch sets it.
unfoldable pub nuevo_tcb : Bool → HiloId → ℕ → Tcb
nuevo_tcb basura h prioridad = record {
  id_hilo = h;
  prioridad = prioridad;
  verificador = 0;
  estado = ready;
  tids_en_espera_por_join = [];
  lista_mutex_asignados = [];
  flag_cancelar_quantum = basura;
}

-- `crear_pcb`, with the block that it returns.
unfoldable pub crear_pcb : {S : Type 0} → Sistema S → List ℕ → ℕ → ℕ → Sistema S × Pcb
unfolding nuevo_pcb
crear_pcb s archivo tamanio prioridad =
    let p = nuevo_pcb s.process_id archivo tamanio prioridad in
    (record s { process_id = add32 s.process_id 1; lista_pcb_new = s.lista_pcb_new ++ p ∷ [] }, p)

module _ {S : Type 0} where
  -- The process goes from NEW to the processes in memory.
  unfoldable pub pasar_a_memoria : Sistema S × Pcb → Sistema S × Bool
  pasar_a_memoria (s, p) = (
    record s {
      lista_pcb_new = remover_pcb p.pid s.lista_pcb_new;
      lista_pcb_en_memoria = s.lista_pcb_en_memoria ++ record p { estado = en_memoria_pcb } ∷ [];
    },
    true,
  )

module _ {S : Type 0} (mem : PedidosMemoria S) (basura : Bool) where
  -- The block of the process, as its pointer shows it afterwards, comes with the system.
  unfoldable pub crear_tcb : Sistema S → Pcb → List ℕ → ℕ → Option (Sistema S × Pcb)
  unfolding siguiente_hilo con_hilo con_cola_segun nuevo_tcb lanzar
  crear_tcb s p archivo prioridad = do
    h ← siguiente_hilo p
    let (m, acepta) = mem.creacion_hilo s.memoria h.pid_asociado h.tid archivo
    k ←
        (if acepta
          then agregar_hilo_a_lista_ready
              (con_cola_segun s.kernel.algoritmo_planificacion prioridad s.kernel)
              (nuevo_tcb basura h prioridad)
          else none)
    some (lanzar planificar (record s { kernel = k; memoria = m }), con_hilo h p)

  unfoldable pub preguntar_a_memoria_para_inicializacion :
      Sistema S → Pcb → Option (Sistema S × Bool)
  unfolding crear_tcb pasar_a_memoria
  preguntar_a_memoria_para_inicializacion s p =
      let (m, acepta) = mem.creacion_proceso s.memoria p.pid p.tamanio in
      let s1 : Sistema S = record s { memoria = m } in
      if acepta
      then (crear_tcb s1 p p.archivo_instrucciones p.prioridad_tid0 >>= λ r.
          some (pasar_a_memoria r))
      else some (s1, false)

  -- Memory is asked where the process is alone in NEW.
  unfoldable pub crear_proceso : Sistema S → List ℕ → ℕ → ℕ → Option (Sistema S)
  unfolding crear_pcb preguntar_a_memoria_para_inicializacion
  crear_proceso s archivo tamanio prioridad =
      let (s1, p) = crear_pcb s archivo tamanio prioridad in
      if length s1.lista_pcb_new == 1
      then (preguntar_a_memoria_para_inicializacion s1 p >>= λ r. some (r.0))
      else some s1

  -- The loop, on fuel: `none` too where the fuel is short.
  unfoldable pub replanificar_creacion_proceso : ℕ → Sistema S → Option (Sistema S)
  unfolding preguntar_a_memoria_para_inicializacion
  replanificar_creacion_proceso zero s = none
  replanificar_creacion_proceso (suc n) s = opcion (get_elem? s.lista_pcb_new 0) (some s) (λ p.
      preguntar_a_memoria_para_inicializacion s p >>= λ (s', logro).
      let sigue = replanificar_creacion_proceso n s' in if logro then sigue else some s')
