-- ===== src/Kernel/Espera.antt =====
-- A thread that waits for a mutex and is in no list any more (kernel/src/mutex.c, tcb.c).
use tp_2024_2c_nachi_y_los_o.Comun.{
  ℕ, ◌≡◌, refl, ap, ◌∙◌, inl, inr, none, some, List, [], ◌∷◌, arith, Bool-cases, if_si, >>=-some,
}
use tp_2024_2c_nachi_y_los_o.Kernel.Estado.{
  Algoritmo, fifo, prioridades, cmn, HiloId, Tcb, MutexPcb, Kernel, MaximoTcb, MaximoCola,
}
use tp_2024_2c_nachi_y_los_o.Kernel.Sistema.{Sistema, buscar_pcb_por_pid, mutex_de}
use tp_2024_2c_nachi_y_los_o.Kernel.Hilos.{buscar_tcb_por_tid, modificar_tcb}
use tp_2024_2c_nachi_y_los_o.Kernel.Estado.{ColaMultinivel, es_hilo}
use tp_2024_2c_nachi_y_los_o.Kernel.Colas.{buscar_tcb_por_tid_de, buscar_y_remover_tcb_por_tid_de}
use tp_2024_2c_nachi_y_los_o.Kernel.Planificacion.{desbloquear_hilo}
use tp_2024_2c_nachi_y_los_o.Kernel.Planificacion.Veces.{
  peso, peso_en_colas, peso_total, una, veces, presente,
}
use tp_2024_2c_nachi_y_los_o.Kernel.Hilos.{buscar_tcb_en_cola_multinivel, buscar_listo}
use tp_2024_2c_nachi_y_los_o.Kernel.Validez.{modificar_tcb-Conserva}
use tp_2024_2c_nachi_y_los_o.Kernel.Finalizacion.{
  quitar_nombre, despertar_siguiente, protocolo_liberacion_recurso, atender_liberacion_de_recurso,
}

-- A thread that stands in no list is not found.
ausente :
    (tid pid : ℕ) (ts : List Tcb) → veces tid pid ts ≡ 0 → buscar_tcb_por_tid_de tid pid ts ≡ none
unfolding buscar_tcb_por_tid_de peso
ausente tid pid [] h = refl
ausente tid pid (t ∷ ts) h = elim (Bool-cases (es_hilo tid pid t.id_hilo)) [
  | inl e ↦ absurd (omega (arith, if_si {A = ℕ} (es_hilo tid pid t.id_hilo) 1 0 e))
  | inr e ↦ rw e (ausente tid pid ts (omega arith))
]

ausente_en_colas :
    (tid pid : ℕ) (cs : List ColaMultinivel)
    → peso_en_colas (una tid pid) cs ≡ 0
    → buscar_tcb_en_cola_multinivel tid pid cs ≡ none
unfolding buscar_tcb_en_cola_multinivel peso_en_colas
ausente_en_colas tid pid [] h = refl
ausente_en_colas tid pid (c ∷ cs) h =
    rw (ausente tid pid c.lista_ready (omega arith)) (ausente_en_colas tid pid cs (omega arith))

ausente_listo :
    (a : Algoritmo) (tid pid : ℕ) (k : Kernel)
    → presente tid pid k ≡ 0
    → buscar_listo a tid pid k ≡ none
unfolding buscar_listo peso_total
ausente_listo fifo tid pid k h = ausente tid pid k.lista_tcb_ready (omega arith)
ausente_listo prioridades tid pid k h = ausente tid pid k.lista_tcb_ready (omega arith)
ausente_listo cmn tid pid k h = ausente_en_colas tid pid k.lista_cola_multinivel (omega arith)

ausente_del_kernel :
    (tid pid : ℕ) (k : Kernel) → presente tid pid k ≡ 0 → buscar_tcb_por_tid tid pid k ≡ none
unfolding buscar_tcb_por_tid peso_total
ausente_del_kernel tid pid k h =
    rw
      (
        ausente_listo k.algoritmo_planificacion tid pid k h,
        ausente tid pid k.lista_tcb_exec (omega arith),
        ausente tid pid k.lista_tcb_blocked (omega arith),
      )
      refl

module _ {S : Type 0} (mt : MaximoTcb) (mc : MaximoCola) where
  despertar-nulo :
      (s : Sistema S) (n : List ℕ) (h : HiloId) (hs : List HiloId)
      → presente h.tid h.pid_asociado s.kernel ≡ 0
      → despertar_siguiente mt mc s n (h ∷ hs) ≡ none
  unfolding despertar_siguiente desbloquear_hilo buscar_y_remover_tcb_por_tid_de peso_total
  despertar-nulo s n h hs p =
      let b : veces h.tid h.pid_asociado s.kernel.lista_tcb_blocked ≡ 0 = omega (arith, p) in
      rw
        (
          ausente h.tid h.pid_asociado s.kernel.lista_tcb_blocked b,
          desbloquear_hilo,
          ausente_del_kernel h.tid h.pid_asociado s.kernel p,
        )
        refl

  -- A mutex is released by a thread, and the thread that waited first for it is in no list of the
  -- kernel, as after a THREAD_CANCEL of it: the release goes on through the NULL that the search gives.
  pub atender_liberacion-nulo :
      (s : Sistema S) (tid pid : ℕ) (nombre : List ℕ) (m : MutexPcb) (h : HiloId) (hs : List HiloId)
      → mutex_de pid nombre s ≡ some m
      → m.lista_bloqueados ≡ h ∷ hs
      → presente h.tid h.pid_asociado s.kernel ≡ 0
      → atender_liberacion_de_recurso mt mc s tid pid nombre ≡ none
  unfolding atender_liberacion_de_recurso protocolo_liberacion_recurso mutex_de buscar_pcb_por_pid
  atender_liberacion-nulo s tid pid nombre m h hs e b p =
      let f : Tcb → Tcb =
        λ t. record t { lista_mutex_asignados = quitar_nombre nombre t.lista_mutex_asignados } in
      let k : Kernel = modificar_tcb tid pid f s.kernel in
      let s1 : Sistema S = record s { kernel = k } in
      let q : presente h.tid h.pid_asociado k ≡ 0 =
        (modificar_tcb-Conserva s.kernel tid pid f (λ t. (refl, refl))).pesa
          (una h.tid h.pid_asociado) (λ t u i j. rw i refl)
        ∙ p in
      let d : despertar_siguiente mt mc s1 nombre m.lista_bloqueados ≡ none =
        ap (despertar_siguiente mt mc s1 nombre) b ∙ despertar-nulo s1 nombre h hs q in
      >>=-some _ _ m e ∙ rw d refl
