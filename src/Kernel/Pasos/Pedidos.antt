-- ===== src/Kernel/Pasos/Pedidos.antt =====
-- Every case of the dispatcher keeps the kernel valid (kernel/src/kernel_cpu_dispatch.c).
use tp_2024_2c_nachi_y_los_o.Comun.{
  ℕ, ◌≡◌, refl, sym, ap, inl, inr, Bool, ◌&&◌, ◌||◌, Option, none, some, List, ◌==◌, if◌then◌else◌,
  >>=-eq-some, opcion, opcion-cases, if-cases, some-injective,
}
use tp_2024_2c_nachi_y_los_o.Kernel.Estado.{HiloId, Tcb, MutexPcb, Kernel, MaximoTcb, MaximoCola}
use tp_2024_2c_nachi_y_los_o.Kernel.Sistema.{
  PedidosMemoria, finalizar, pedir_io, volcar, Sistema, lanzar, buscar_pcb_por_pid,
}
use tp_2024_2c_nachi_y_los_o.Kernel.Procesos.{buscar_pcb_por_pid_en}
use tp_2024_2c_nachi_y_los_o.Kernel.Hilos.{existe_hilo, obtener_hilo_desalojado}
use tp_2024_2c_nachi_y_los_o.Kernel.Planificacion.{bloquear_hilo_en_ejecucion}
use tp_2024_2c_nachi_y_los_o.Kernel.Planificacion.Agregado.{EsKernel}
use tp_2024_2c_nachi_y_los_o.Kernel.Validez.{
  pcp-EsKernel, bloquear-EsKernel, modificar_tcb-EsKernel, obtener-EsKernel,
}
use tp_2024_2c_nachi_y_los_o.Kernel.Pasos.Marco.{
  Sigue, Sigue-refl, Sigue-trans, Sigue-de, con_kernel-Sigue, lanzar-Sigue, modificar_pcb-Sigue,
  modificar_mutex-Sigue, mensaje-Sigue,
}
use tp_2024_2c_nachi_y_los_o.Kernel.Recepcion.{Llamada}
use tp_2024_2c_nachi_y_los_o.Kernel.Mutex.{
  obtener_mutex, esta_tomado, esta_tomado_por, RtaMutexLock, atender_mutex_lock,
}
use tp_2024_2c_nachi_y_los_o.Kernel.Creacion.{crear_tcb, crear_proceso}
use tp_2024_2c_nachi_y_los_o.Kernel.Finalizacion.{atender_liberacion_de_recurso, finalizar_hilo}
use tp_2024_2c_nachi_y_los_o.Kernel.Despacho.{
  Pedido, sys_process_create, sys_process_exit, sys_thread_create, sys_thread_join,
  sys_thread_cancel, sys_thread_exit, sys_mutex_create, sys_mutex_lock, sys_mutex_unlock,
  sys_dump_memory, sys_io, sys_no_reconocida, atender_thread_create, atender_thread_join,
  atender_thread_cancel, atender_lock, atender_unlock, atender_mutex_create, atender_pedido,
  sin_hilo, leer_pedido, cancelar_quantum, segun_hilo, atender_instruccion,
}
use tp_2024_2c_nachi_y_los_o.Kernel.Pasos.Creaciones.{crear_tcb-Sigue, crear_proceso-Sigue}
use tp_2024_2c_nachi_y_los_o.Kernel.Pasos.Finales.{
  nuevo_kernel-Sigue, liberacion-Sigue, finalizar_hilo-Sigue,
}
use tp_2024_2c_nachi_y_los_o.Kernel.Validez.{exec-EsKernel}

lock-EsKernel :
    (mt : MaximoTcb) (mc : MaximoCola) (k k' : Kernel) (m m' : MutexPcb) (tid pid : ℕ)
    (r : RtaMutexLock)
    → atender_mutex_lock mt mc k m tid pid ≡ some (k', m', r)
    → EsKernel k
    → EsKernel k'
unfolding atender_mutex_lock
lock-EsKernel mt mc k k' m m' tid pid r e v = elim (if-cases (esta_tomado m) _ _ _ e) [
  | inl (c, f) ↦
      (let (k1, g, h) = >>=-eq-some (bloquear_hilo_en_ejecucion mt mc k tid pid) _ f in
        rw (sym (ap (λ z. z.0) (some-injective _ _ h))) (bloquear-EsKernel mt mc k k1 tid pid g v))
  | inr (c, f) ↦
      rw (sym (ap (λ z. z.0) (some-injective _ _ f)))
        (exec-EsKernel k tid pid _ (λ t. (refl, refl)) v)
]

module _ {S : Type 0} (mem : PedidosMemoria S) (basura : Bool) (mt : MaximoTcb)
    (mc : MaximoCola) where
  thread_create-Sigue :
      (s s' : Sistema S) (pid : ℕ) (archivo : List ℕ) (prioridad : ℕ)
      → atender_thread_create mem basura mt mc s pid archivo prioridad ≡ some s'
      → Sigue s s'
  unfolding atender_thread_create
  thread_create-Sigue s s' pid archivo prioridad e =
      elim (opcion-cases (buscar_pcb_por_pid_en pid s.lista_pcb_en_memoria) (some s) _ (some s')
        e) [
          | inl (c, f) ↦ Sigue-de s s s' f (Sigue-refl s)
          | inr (p, c, f) ↦
              (let ((s1, p'), g, h) =
                  >>=-eq-some (crear_tcb mem basura s p archivo prioridad) _ f in
                Sigue-trans (crear_tcb-Sigue mem basura s s1 p p' archivo prioridad g) (
                  Sigue-de s1 _ s' h
                    (Sigue-trans (modificar_pcb-Sigue pid _ s1) (mensaje-Sigue 17 _ _))))
        ]

  thread_join-Sigue :
      (s s' : Sistema S) (tid pid espera : ℕ)
      → atender_thread_join mem basura mt mc s tid pid espera ≡ some s'
      → Sigue s s'
  unfolding atender_thread_join
  thread_join-Sigue s s' tid pid espera e =
      elim (if-cases (existe_hilo espera pid s.kernel) _ _ (some s') e) [
        | inl (c, f) ↦
            (let (k, g, h) = >>=-eq-some (bloquear_hilo_en_ejecucion mt mc s.kernel tid pid) _ f in
              let a = λ (v : EsKernel s.kernel).
                modificar_tcb-EsKernel k espera pid _ (λ t. (refl, refl))
                  (bloquear-EsKernel mt mc s.kernel k tid pid g v) in
              Sigue-de s _ s' h (Sigue-trans (nuevo_kernel-Sigue s _ a) (mensaje-Sigue 19 _ _)))
        | inr (c, f) ↦ Sigue-de s _ s' f (mensaje-Sigue 19 _ s)
      ]

  thread_cancel-Sigue :
      (s s' : Sistema S) (pid tid : ℕ)
      → atender_thread_cancel mem basura mt mc s pid tid ≡ some s'
      → Sigue s s'
  unfolding atender_thread_cancel
  thread_cancel-Sigue s s' pid tid e =
      let h : HiloId = record { tid = tid; pid_asociado = pid } in
      let o : Option (Sistema S) = finalizar_hilo mem mt mc s h in
      let (s1, f, g) = >>=-eq-some (if existe_hilo tid pid s.kernel then o else some s) _ e in
      let a : Sigue s s1 = elim (if-cases (existe_hilo tid pid s.kernel) o (some s) (some s1) f) [
        | inl (c, i) ↦ finalizar_hilo-Sigue mem mt mc s s1 h i
        | inr (c, i) ↦ Sigue-de s s s1 i (Sigue-refl s)
      ] in
      Sigue-trans a (Sigue-de s1 _ s' g (mensaje-Sigue 18 _ s1))

  lock-Sigue :
      (s s' : Sistema S) (tid pid : ℕ) (n : List ℕ)
      → atender_lock mem basura mt mc s tid pid n ≡ some s'
      → Sigue s s'
  unfolding atender_lock
  lock-Sigue s s' tid pid n e =
      let (p, f, g) = >>=-eq-some (buscar_pcb_por_pid_en pid s.lista_pcb_en_memoria) _ e in
      elim (opcion-cases (obtener_mutex n p.lista_mutex) _ _ (some s') g) [
        | inl (c, h) ↦ finalizar_hilo-Sigue mem mt mc s s' _ h
        | inr (m, c, h) ↦
            (let ((k, m', r), i, j) =
                >>=-eq-some (atender_mutex_lock mt mc s.kernel m tid pid) _ h in
              Sigue-de s _ s' j (
                Sigue-trans
                  (nuevo_kernel-Sigue s k (lock-EsKernel mt mc s.kernel k m m' tid pid r i))
                  (Sigue-trans (modificar_mutex-Sigue pid n _ _) (mensaje-Sigue 15 _ _))))
      ]

  unlock-Sigue :
      (s s' : Sistema S) (tid pid : ℕ) (n : List ℕ)
      → atender_unlock mem basura mt mc s tid pid n ≡ some s'
      → Sigue s s'
  unfolding atender_unlock
  unlock-Sigue s s' tid pid n e =
      let (p, f, g) = >>=-eq-some (buscar_pcb_por_pid_en pid s.lista_pcb_en_memoria) _ e in
      let o : Option (Sistema S) = atender_liberacion_de_recurso mt mc s tid pid n in
      elim (opcion-cases (obtener_mutex n p.lista_mutex) _ _ (some s') g) [
        | inl (c, h) ↦ finalizar_hilo-Sigue mem mt mc s s' _ h
        | inr (m, c, h) ↦
            (let (s1, i, j) = >>=-eq-some (if esta_tomado_por m tid pid then o else some s) _ h in
              let a : Sigue s s1 =
                elim (if-cases (esta_tomado_por m tid pid) o (some s) (some s1) i) [
                  | inl (d, q) ↦ liberacion-Sigue mt mc s s1 tid pid n q
                  | inr (d, q) ↦ Sigue-de s s s1 q (Sigue-refl s)
                ] in
              Sigue-trans a (Sigue-de s1 _ s' j (mensaje-Sigue 16 _ s1)))
      ]

  mutex_create-Sigue :
      (s s' : Sistema S) (pid : ℕ) (n : List ℕ)
      → atender_mutex_create mem basura mt mc s pid n ≡ some s'
      → Sigue s s'
  unfolding atender_mutex_create
  mutex_create-Sigue s s' pid n e =
      let (p, f, g) = >>=-eq-some (buscar_pcb_por_pid_en pid s.lista_pcb_en_memoria) _ e in
      Sigue-de s _ s' g (Sigue-trans (modificar_pcb-Sigue pid _ s) (mensaje-Sigue 14 _ _))

  atender_pedido-Sigue :
      (s s' : Sistema S) (tid pid : ℕ) (q : Pedido)
      → atender_pedido mem basura mt mc s tid pid q ≡ some s'
      → Sigue s s'
  unfolding atender_pedido lanzar
  atender_pedido-Sigue s s' tid pid (sys_process_create a t p) e =
      let (s1, f, g) = >>=-eq-some (crear_proceso mem basura s a t p) _ e in
      Sigue-trans (crear_proceso-Sigue mem basura s s1 a t p f)
        (Sigue-de s1 _ s' g (mensaje-Sigue 20 _ s1))
  atender_pedido-Sigue s s' tid pid sys_process_exit e =
      elim (if-cases (tid == 0) (lanzar (finalizar pid) s) s s' (some-injective _ _ e)) [
        | inl (c, f) ↦ rw (sym f) (lanzar-Sigue (finalizar pid) s)
        | inr (c, f) ↦ rw (sym f) (Sigue-refl s)
      ]
  atender_pedido-Sigue s s' tid pid (sys_thread_create a p) e = thread_create-Sigue s s' pid a p e
  atender_pedido-Sigue s s' tid pid (sys_thread_join t) e = thread_join-Sigue s s' tid pid t e
  atender_pedido-Sigue s s' tid pid (sys_thread_cancel t) e = thread_cancel-Sigue s s' pid t e
  atender_pedido-Sigue s s' tid pid sys_thread_exit e = finalizar_hilo-Sigue mem mt mc s s' _ e
  atender_pedido-Sigue s s' tid pid (sys_mutex_create n) e = mutex_create-Sigue s s' pid n e
  atender_pedido-Sigue s s' tid pid (sys_mutex_lock n) e = lock-Sigue s s' tid pid n e
  atender_pedido-Sigue s s' tid pid (sys_mutex_unlock n) e = unlock-Sigue s s' tid pid n e
  atender_pedido-Sigue s s' tid pid sys_dump_memory e =
      let h : HiloId = record { tid = tid; pid_asociado = pid } in
      Sigue-trans (lanzar-Sigue (volcar h) s)
        (con_kernel-Sigue (lanzar (volcar h) s) s' _ e (λ k f v. pcp-EsKernel mt mc s.kernel k f v))
  atender_pedido-Sigue s s' tid pid (sys_io t) e =
      Sigue-de s _ s' e (lanzar-Sigue (pedir_io (record { tid = tid; pid_asociado = pid }) t) s)
  atender_pedido-Sigue s s' tid pid sys_no_reconocida e = Sigue-de s s s' e (Sigue-refl s)

  sin_hilo-Sigue : (s s' : Sistema S) (i : ℕ) → sin_hilo s i ≡ some s' → Sigue s s'
  unfolding sin_hilo
  sin_hilo-Sigue s s' i e = elim (if-cases ((i == 8) || (i == 7)) none (some s) (some s') e) [
    | inl (c, f) ↦ cc
    | inr (c, f) ↦ Sigue-de s s s' f (Sigue-refl s)
  ]

  cancelar-Sigue : (s : Sistema S) (tid pid : ℕ) → Sigue s (cancelar_quantum tid pid s)
  unfolding cancelar_quantum
  cancelar-Sigue s tid pid =
      nuevo_kernel-Sigue s _ (modificar_tcb-EsKernel s.kernel tid pid _ (λ t. (refl, refl)))

  desalojado-Sigue :
      (s : Sistema S) (o : Option (Tcb × Kernel))
      → ((t : Tcb) (k : Kernel) → o ≡ some (t, k) → EsKernel s.kernel → EsKernel k)
      → Sigue s (opcion o s (λ (t, k). record s { kernel = k }))
  desalojado-Sigue s none f = Sigue-refl s
  desalojado-Sigue s (some (t, k)) f = nuevo_kernel-Sigue s k (f t k refl)

  segun_hilo-Sigue :
      (d : Option (Tcb × Kernel)) (s s' : Sistema S) (l : Llamada)
      → segun_hilo mem basura mt mc d s l ≡ some s'
      → Sigue s s'
  unfolding segun_hilo
  segun_hilo-Sigue none s s' l e = sin_hilo-Sigue s s' l.mochila.instruccion_asociada e
  segun_hilo-Sigue (some x) s s' l e =
      let (q, m, n) = >>=-eq-some (leer_pedido l.mochila) _ e in
      Sigue-trans (cancelar-Sigue s l.tid l.pid) (atender_pedido-Sigue _ s' l.tid l.pid q n)

  pub atender_instruccion-Sigue :
      (s s' : Sistema S) (l : Llamada)
      → atender_instruccion mem basura mt mc s l ≡ some s'
      → Sigue s s'
  unfolding atender_instruccion
  atender_instruccion-Sigue s s' l e =
      let d : Option (Tcb × Kernel) = obtener_hilo_desalojado l.pid l.tid l.verificador s.kernel in
      let s1 : Sistema S = opcion d s (λ (t, k). record s { kernel = k }) in
      let a : Sigue s s1 =
        desalojado-Sigue s d
          (λ t k f v. obtener-EsKernel s.kernel k t l.pid l.tid l.verificador f v) in
      let (p, f, g) = >>=-eq-some (buscar_pcb_por_pid l.pid s1) _ e in
      let r : Option (Sistema S) = segun_hilo mem basura mt mc d s1 l in
      let b : Bool = (l.mochila.instruccion_asociada == 17) && p.flag_proceso_finalizado in
      elim (if-cases b (some s1) r (some s') g) [
        | inl (c, h) ↦ Sigue-de s s1 s' h a
        | inr (c, h) ↦ Sigue-trans a (segun_hilo-Sigue d s1 s' l h)
      ]
