-- ===== src/Kernel/Pasos/Finales.antt =====
-- The end of threads and processes keeps the kernel valid
-- (kernel/src/planificador_largo_plazo.c, mutex.c).
use tp_2024_2c_nachi_y_los_o.Comun.{
  ℕ, zero, suc, ◌≡◌, refl, sym, inl, inr, Bool, true, Option, none, some, List, [], ◌∷◌, ◌++◌,
  >>=-eq-some, opcion, opcion-cases, if-cases, some-injective, length, get_elem?,
}
use tp_2024_2c_nachi_y_los_o.Kernel.Estado.{HiloId, Tcb, Kernel, MaximoTcb, MaximoCola}
use tp_2024_2c_nachi_y_los_o.Kernel.Sistema.{
  PedidosMemoria, Sistema, buscar_pcb_por_pid, modificar_pcb, mutex_de,
}
use tp_2024_2c_nachi_y_los_o.Kernel.Procesos.{Pcb, buscar_pcb_por_pid_en, remover_pcb}
use tp_2024_2c_nachi_y_los_o.Kernel.Hilos.{
  ◌<|>◌, buscar_tcb_por_tid, buscar_y_remover_tcb_por_tid, modificar_tcb,
}
use tp_2024_2c_nachi_y_los_o.Kernel.Planificacion.{desbloquear_hilo}
use tp_2024_2c_nachi_y_los_o.Kernel.Planificacion.Agregado.{EsKernel}
use tp_2024_2c_nachi_y_los_o.Kernel.Validez.{
  pcp-EsKernel, desbloquear-EsKernel, modificar_tcb-EsKernel,
}
use tp_2024_2c_nachi_y_los_o.Kernel.Pasos.Marco.{
  Sigue, Sigue-refl, Sigue-trans, Sigue-de, con_kernel-Sigue, modificar_pcb-Sigue,
  modificar_mutex-Sigue,
}
use tp_2024_2c_nachi_y_los_o.Kernel.Hilos.Busqueda.{buscar_y_remover-EsRemocion}
use tp_2024_2c_nachi_y_los_o.Kernel.Altas.{EsRemocion-EsKernel}
use tp_2024_2c_nachi_y_los_o.Kernel.Creacion.{replanificar_creacion_proceso}
use tp_2024_2c_nachi_y_los_o.Kernel.Pasos.Creaciones.{replanificar-Sigue}
use tp_2024_2c_nachi_y_los_o.Kernel.Finalizacion.{
  recibir_recurso, quitar_nombre, sacar_hilo_cero, desocupar_mutex, olvidar_hilo, hilos_de,
  despertar_siguiente, protocolo_liberacion_recurso, atender_liberacion_de_recurso,
  liberar_recursos_tcb, liberar_tcbs_en_espera_por_join, liberar_hilo, finalizar_hilo,
  eliminar_desde, eliminar_hilos, liberar_proceso, finalizar_encontrado, finalizar_proceso,
}

module _ {S : Type 0} where
  desocupar-Sigue :
      (h : HiloId) (pid : ℕ) (ns : List (List ℕ)) (s : Sistema S)
      → Sigue s (desocupar_mutex h pid ns s)
  unfolding desocupar_mutex
  desocupar-Sigue h pid [] s = Sigue-refl s
  desocupar-Sigue h pid (n ∷ ns) s =
      Sigue-trans (modificar_mutex-Sigue pid n _ s) (desocupar-Sigue h pid ns _)

  opcion-Sigue :
      {A : Type 0} (s : Sistema S) (o : Option A) (f : A → Sistema S)
      → ((a : A) → Sigue s (f a))
      → Sigue s (opcion o s f)
  opcion-Sigue s none f h = Sigue-refl s
  opcion-Sigue s (some a) f h = h a

  olvidar-Sigue : (h : HiloId) (s : Sistema S) → Sigue s (olvidar_hilo h s)
  unfolding olvidar_hilo
  olvidar-Sigue h s = opcion-Sigue s _ _ (λ p. modificar_pcb-Sigue h.pid_asociado _ s)

  -- Another kernel, in the same system.
  pub nuevo_kernel-Sigue :
      (s : Sistema S) (k : Kernel)
      → (EsKernel s.kernel → EsKernel k)
      → Sigue s (record s { kernel = k })
  nuevo_kernel-Sigue s k f = record { valido = f }

module _ (mt : MaximoTcb) (mc : MaximoCola) where
  join-EsKernel :
      (hs : List HiloId) (k k' : Kernel)
      → liberar_tcbs_en_espera_por_join mt mc hs k ≡ some k'
      → EsKernel k
      → EsKernel k'
  unfolding liberar_tcbs_en_espera_por_join
  join-EsKernel [] k k' e v = rw (sym (some-injective _ _ e)) v
  join-EsKernel (h ∷ hs) k k' e v =
      let (k1, f, g) = >>=-eq-some (desbloquear_hilo mt mc k h) _ e in
      join-EsKernel hs k1 k' g (desbloquear-EsKernel mt mc k k1 h f v)

module _ {S : Type 0} (mt : MaximoTcb) (mc : MaximoCola) where
  despertar-Sigue :
      (s s' : Sistema S) (n : List ℕ) (hs : List HiloId)
      → despertar_siguiente mt mc s n hs ≡ some s'
      → Sigue s s'
  unfolding despertar_siguiente
  despertar-Sigue s s' n [] e = Sigue-de s s s' e (Sigue-refl s)
  despertar-Sigue s s' n (h ∷ hs) e =
      let (k, f, g) = >>=-eq-some (desbloquear_hilo mt mc s.kernel h) _ e in
      let (t, i, j) = >>=-eq-some (buscar_tcb_por_tid h.tid h.pid_asociado k) _ g in
      let k' = modificar_tcb h.tid h.pid_asociado (recibir_recurso n) k in
      Sigue-de s (record s { kernel = k' }) s' j
        (nuevo_kernel-Sigue s k' (λ v.
          modificar_tcb-EsKernel k h.tid h.pid_asociado (recibir_recurso n) (λ t. (refl, refl))
            (desbloquear-EsKernel mt mc s.kernel k h f v)))

  pub protocolo-Sigue :
      (s s' : Sistema S) (pid : ℕ) (n : List ℕ)
      → protocolo_liberacion_recurso mt mc s pid n ≡ some s'
      → Sigue s s'
  unfolding protocolo_liberacion_recurso
  protocolo-Sigue s s' pid n e =
      let (m, f, g) = >>=-eq-some (mutex_de pid n s) _ e in
      let (s1, i, j) = >>=-eq-some (despertar_siguiente mt mc s n m.lista_bloqueados) _ g in
      Sigue-de s _ s' j (
        Sigue-trans (despertar-Sigue s s1 n m.lista_bloqueados i)
          (modificar_mutex-Sigue pid n _ s1))

  pub liberacion-Sigue :
      (s s' : Sistema S) (tid pid : ℕ) (n : List ℕ)
      → atender_liberacion_de_recurso mt mc s tid pid n ≡ some s'
      → Sigue s s'
  unfolding atender_liberacion_de_recurso
  liberacion-Sigue s s' tid pid n e =
      let f : Tcb → Tcb =
        λ t. record t { lista_mutex_asignados = quitar_nombre n t.lista_mutex_asignados } in
      let k = modificar_tcb tid pid f s.kernel in
      Sigue-trans
        (nuevo_kernel-Sigue s k (modificar_tcb-EsKernel s.kernel tid pid f (λ t. (refl, refl))))
        (protocolo-Sigue (record s { kernel = k }) s' pid n e)

  recursos-Sigue :
      (pid : ℕ) (ns : List (List ℕ)) (s s' : Sistema S)
      → liberar_recursos_tcb mt mc pid ns s ≡ some s'
      → Sigue s s'
  unfolding liberar_recursos_tcb
  recursos-Sigue pid [] s s' e = Sigue-de s s s' e (Sigue-refl s)
  recursos-Sigue pid (n ∷ ns) s s' e =
      let (s1, f, g) = >>=-eq-some (protocolo_liberacion_recurso mt mc s pid n) _ e in
      Sigue-trans (protocolo-Sigue s s1 pid n f) (recursos-Sigue pid ns s1 s' g)

  liberar-Sigue :
      (h : HiloId) (t : Tcb) (s s' : Sistema S) → liberar_hilo mt mc h t s ≡ some s' → Sigue s s'
  unfolding liberar_hilo
  liberar-Sigue h t s s' e =
      let ns = t.lista_mutex_asignados in
      let pid = t.id_hilo.pid_asociado in
      let s0 = desocupar_mutex t.id_hilo pid ns s in
      let (s1, f, g) = >>=-eq-some (liberar_recursos_tcb mt mc pid ns s0) _ e in
      let s2 : Sistema S = record s1 { lista_tcb_exit = s1.lista_tcb_exit ++ t ∷ [] } in
      let s3 = olvidar_hilo h s2 in
      let a : Sigue s1 s2 = record { valido = λ v. v } in
      Sigue-trans (desocupar-Sigue t.id_hilo pid ns s) (
        Sigue-trans (recursos-Sigue pid ns s0 s1 f) (
          Sigue-trans a (
            Sigue-trans (olvidar-Sigue h s2) (
              con_kernel-Sigue s3 s' _ g
                (λ k i v. join-EsKernel mt mc t.tids_en_espera_por_join s3.kernel k i v)))))

module _ {S : Type 0} (mem : PedidosMemoria S) (mt : MaximoTcb) (mc : MaximoCola) where
  pub finalizar_hilo-Sigue :
      (s s' : Sistema S) (h : HiloId) → finalizar_hilo mem mt mc s h ≡ some s' → Sigue s s'
  unfolding finalizar_hilo
  finalizar_hilo-Sigue s s' h e =
      elim (opcion-cases (buscar_y_remover_tcb_por_tid h.tid h.pid_asociado s.kernel) (some s) _
        (some s') e) [
          | inl (c, f) ↦ Sigue-de s s s' f (Sigue-refl s)
          | inr ((t, k), c, f) ↦
              (let m = (mem.finalizacion_hilo s.memoria h.tid h.pid_asociado).0 in
                let s1 : Sistema S = record s { kernel = k; memoria = m } in
                let u : Tcb = record t { flag_cancelar_quantum = true } in
                let (s2, g, i) = >>=-eq-some _ _ f in
                let a : Sigue s s1 = record {
                  valido =
                      EsRemocion-EsKernel h.tid h.pid_asociado s.kernel t k
                        (buscar_y_remover-EsRemocion h.tid h.pid_asociado s.kernel t k c);
                } in
                let b : Sigue s1 s2 =
                  elim (if-cases (mem.finalizacion_hilo s.memoria h.tid h.pid_asociado).1
                    (liberar_hilo mt mc h u s1) (some s1) (some s2) g) [
                      | inl (d, j) ↦ liberar-Sigue mt mc h u s1 s2 j
                      | inr (d, j) ↦ Sigue-de s1 s1 s2 j (Sigue-refl s1)
                    ] in
                Sigue-trans a (
                  Sigue-trans b
                    (con_kernel-Sigue s2 s' _ i (λ k j v. pcp-EsKernel mt mc s2.kernel k j v))))
        ]

  eliminar_desde-Sigue :
      (n i pid : ℕ) (s s' : Sistema S) → eliminar_desde mem mt mc n i pid s ≡ some s' → Sigue s s'
  unfolding eliminar_desde
  eliminar_desde-Sigue zero i pid s s' e = Sigue-de s s s' e (Sigue-refl s)
  eliminar_desde-Sigue (suc n) i pid s s' e =
      elim (opcion-cases (get_elem? (hilos_de pid s) i) (some s) _ (some s') e) [
        | inl (c, f) ↦ Sigue-de s s s' f (Sigue-refl s)
        | inr (h, c, f) ↦
            (let (s1, g, j) = >>=-eq-some (finalizar_hilo mem mt mc s h) _ f in
              Sigue-trans (finalizar_hilo-Sigue s s1 h g)
                (eliminar_desde-Sigue n (suc i) pid s1 s' j))
      ]

  eliminar_hilos-Sigue :
      (pid : ℕ) (s s' : Sistema S) → eliminar_hilos mem mt mc pid s ≡ some s' → Sigue s s'
  unfolding eliminar_hilos
  eliminar_hilos-Sigue pid s s' e =
      let ((h, hs), f, g) = >>=-eq-some (sacar_hilo_cero (hilos_de pid s)) _ e in
      let s0 = modificar_pcb pid (λ p. record p { lista_id_hilo = hs }) s in
      let (s1, i, j) = >>=-eq-some (eliminar_desde mem mt mc (length hs) 0 pid s0) _ g in
      Sigue-trans (modificar_pcb-Sigue pid _ s) (
        Sigue-trans (eliminar_desde-Sigue (length hs) 0 pid s0 s1 i)
          (finalizar_hilo-Sigue s1 s' h j))

module _ {S : Type 0} (mem : PedidosMemoria S) (basura : Bool) (mt : MaximoTcb)
    (mc : MaximoCola) where
  liberar_proceso-Sigue :
      (pid : ℕ) (s s' : Sistema S) → liberar_proceso mem basura mt mc pid s ≡ some s' → Sigue s s'
  unfolding liberar_proceso
  liberar_proceso-Sigue pid s s' e =
      let s0 = modificar_pcb pid (λ p. record p { flag_proceso_finalizado = true }) s in
      let (s1, f, g) = >>=-eq-some (eliminar_hilos mem mt mc pid s0) _ e in
      let n = suc (length s1.lista_pcb_new) in
      let (s2, h, i) = >>=-eq-some (replanificar_creacion_proceso mem basura n s1) _ g in
      let (p, j, k) = >>=-eq-some (buscar_pcb_por_pid pid s2) _ i in
      let s3 : Sistema S = record s2 {
        lista_pcb_en_memoria = remover_pcb pid s2.lista_pcb_en_memoria;
        lista_pcb_exit = s2.lista_pcb_exit ++ p ∷ [];
      } in
      let a : Sigue s2 s3 = record { valido = λ v. v } in
      Sigue-trans (modificar_pcb-Sigue pid _ s) (
        Sigue-trans (eliminar_hilos-Sigue mem mt mc pid s0 s1 f) (
          Sigue-trans (replanificar-Sigue mem basura n s1 s2 h)
            (Sigue-trans a (Sigue-de s3 _ s' k (modificar_pcb-Sigue pid _ s3)))))

  encontrado-Sigue :
      (s s' : Sistema S) (pid : ℕ)
      → finalizar_encontrado mem basura mt mc s pid ≡ some s'
      → Sigue s s'
  unfolding finalizar_encontrado
  encontrado-Sigue s s' pid e =
      let ((m, b), h, i) = >>=-eq-some (mem.finalizacion_proceso s.memoria pid) _ e in
      let s1 : Sistema S = record s { memoria = m } in
      let a : Sigue s s1 = record { valido = λ v. v } in
      elim (if-cases b (liberar_proceso mem basura mt mc pid s1) (some s1) (some s') i) [
        | inl (j, k) ↦ Sigue-trans a (liberar_proceso-Sigue pid s1 s' k)
        | inr (j, k) ↦ Sigue-de s s1 s' k a
      ]

  pub finalizar_proceso-Sigue :
      (s s' : Sistema S) (pid : ℕ) → finalizar_proceso mem basura mt mc s pid ≡ some s' → Sigue s s'
  unfolding finalizar_proceso
  finalizar_proceso-Sigue s s' pid e =
      let o : Option Pcb =
        buscar_pcb_por_pid_en pid s.lista_pcb_en_memoria
        <|> buscar_pcb_por_pid_en pid s.lista_pcb_new in
      let f : Pcb → Option (Sistema S) = λ p. finalizar_encontrado mem basura mt mc s pid in
      elim (opcion-cases (buscar_pcb_por_pid_en pid s.lista_pcb_exit) (opcion o (some s) f) _
        (some s') e) [
          | inr (p, c, g) ↦ Sigue-de s s s' g (Sigue-refl s)
          | inl (c, g) ↦ elim (opcion-cases o (some s) f (some s') g) [
            | inl (d, h) ↦ Sigue-de s s s' h (Sigue-refl s)
            | inr (p, d, h) ↦ encontrado-Sigue s s' pid h
          ]
        ]
