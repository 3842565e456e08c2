-- ===== src/Kernel/Pasos/Invariante.antt =====
-- The invariant of the kernel (kernel/src): one thread in the CPU at most, and a queue for every
-- priority with CMN.
use tp_2024_2c_nachi_y_los_o.Comun.{
  ℕ, ◌≡◌, refl, sym, ◌∙◌, inl, inr, Bool, some, List, [], ◌∷◌, ◌==◌, >>=-eq-some, if-cases,
  some-injective, length,
}
use tp_2024_2c_nachi_y_los_o.Kernel.Estado.{HiloId, MaximoTcb, MaximoCola}
use tp_2024_2c_nachi_y_los_o.Kernel.Sistema.{
  PedidosMemoria, Tarea, planificar, finalizar, pedir_io, bloquear_io, probar_io, dormir,
  despertar_io, mirar_io, seguir_io, volcar, pedir_volcado, Sistema, lanzar, con_kernel,
}
use tp_2024_2c_nachi_y_los_o.Kernel.Planificacion.{
  quitar, pcp_planificador_corto_plazo, bloquear_hilo_en_ejecucion, desbloquear_hilo,
}
use tp_2024_2c_nachi_y_los_o.Kernel.Planificacion.Agregado.{EsKernel}
use tp_2024_2c_nachi_y_los_o.Kernel.Validez.{pcp-EsKernel, bloquear-EsKernel, desbloquear-EsKernel}
use tp_2024_2c_nachi_y_los_o.Kernel.Pasos.Marco.{
  Sigue, Sigue-refl, Sigue-trans, Sigue-de, con_kernel-Sigue, lanzar-Sigue,
}
use tp_2024_2c_nachi_y_los_o.Kernel.Transiciones.{atender_desalojo_hilo-Conserva}
use tp_2024_2c_nachi_y_los_o.Kernel.Pasos.Finales.{finalizar_proceso-Sigue}
use tp_2024_2c_nachi_y_los_o.Kernel.Pasos.Pedidos.{atender_instruccion-Sigue}
use tp_2024_2c_nachi_y_los_o.Kernel.Pasos.{
  seguir_con, manejar_sleep, atender_io, atender_dump_memory, bloquear_por_io, probar_lista_io,
  despertar_de_io, mirar_siguiente, pedir_dump, ejecutar_tarea, Paso, atender, desalojar, correr,
  Alcanza, aqui, luego,
}

module _ {S : Type 0} (mem : PedidosMemoria S) (basura : Bool) (mt : MaximoTcb)
    (mc : MaximoCola) where
  bloquear-Sigue :
      (s s' : Sistema S) (t : Tarea) (tid pid : ℕ)
      → con_kernel (lanzar t s) (bloquear_hilo_en_ejecucion mt mc s.kernel tid pid) ≡ some s'
      → Sigue s s'
  unfolding lanzar
  bloquear-Sigue s s' t tid pid e =
      Sigue-trans (lanzar-Sigue t s)
        (con_kernel-Sigue _ s' _ e (λ k' r v. bloquear-EsKernel mt mc s.kernel k' tid pid r v))

  desbloquear-Sigue :
      (s s' : Sistema S) (h : HiloId)
      → con_kernel s (desbloquear_hilo mt mc s.kernel h) ≡ some s'
      → Sigue s s'
  desbloquear-Sigue s s' h e =
      con_kernel-Sigue s s' _ e (λ k' r v. desbloquear-EsKernel mt mc s.kernel k' h r v)

  pcp-Sigue :
      (s s' : Sistema S)
      → con_kernel s (pcp_planificador_corto_plazo mt mc s.kernel) ≡ some s'
      → Sigue s s'
  pcp-Sigue s s' e = con_kernel-Sigue s s' _ e (λ k' r v. pcp-EsKernel mt mc s.kernel k' r v)

  pedir_dump-Sigue :
      (s s' : Sistema S) (h : HiloId) → pedir_dump mem basura mt mc s h ≡ some s' → Sigue s s'
  unfolding pedir_dump
  pedir_dump-Sigue s s' h e =
      let ((m, b), i, j) = >>=-eq-some (mem.dump_memory s.memoria h.tid h.pid_asociado) _ e in
      let s1 : Sistema S = record s { memoria = m } in
      let a : Sigue s s1 = record { valido = λ v. v } in
      let fin : Tarea = finalizar h.pid_asociado in
      elim (if-cases b (con_kernel s1 (desbloquear_hilo mt mc s.kernel h)) (some (lanzar fin s1))
        (some s') j) [
          | inl (c, q) ↦ Sigue-trans a (desbloquear-Sigue s1 s' h q)
          | inr (c, q) ↦ Sigue-trans a (Sigue-de s1 _ s' q (lanzar-Sigue fin s1))
        ]

  probar-Sigue : (s : Sistema S) (h : HiloId) (t : ℕ) → Sigue s (probar_lista_io mt mc s h t)
  unfolding probar_lista_io
  probar-Sigue s h t =
      elim (if-cases (length s.lista_en_espera_de_io == 1) (lanzar (dormir h t) s) s _ refl) [
        | inl (c, q) ↦ rw (← q) (lanzar-Sigue (dormir h t) s)
        | inr (c, q) ↦ rw (← q) (Sigue-refl s)
      ]

  mirar-Sigue : (l : List (HiloId × ℕ)) (s : Sistema S) → Sigue s (mirar_siguiente mt mc l s)
  unfolding mirar_siguiente
  mirar-Sigue [] s = Sigue-refl s
  mirar-Sigue (x ∷ xs) s = lanzar-Sigue (seguir_io x.0 x.1) s

  -- A section of a launched thread.
  ejecutar_tarea-Sigue :
      (t : Tarea) (s s' : Sistema S) → ejecutar_tarea mem basura mt mc t s ≡ some s' → Sigue s s'
  unfolding ejecutar_tarea atender_io bloquear_por_io manejar_sleep despertar_de_io seguir_con
      atender_dump_memory lanzar
  ejecutar_tarea-Sigue planificar s s' e = pcp-Sigue s s' e
  ejecutar_tarea-Sigue (finalizar pid) s s' e = finalizar_proceso-Sigue mem basura mt mc s s' pid e
  ejecutar_tarea-Sigue (pedir_io h t) s s' e = Sigue-de s _ s' e (record { valido = λ v. v })
  ejecutar_tarea-Sigue (bloquear_io h t) s s' e =
      bloquear-Sigue s s' (probar_io h t) h.tid h.pid_asociado e
  ejecutar_tarea-Sigue (probar_io h t) s s' e = Sigue-de s _ s' e (probar-Sigue s h t)
  ejecutar_tarea-Sigue (dormir h t) s s' e =
      let (x, f, g) = >>=-eq-some (quitar 0 s.lista_en_espera_de_io) _ e in
      Sigue-de s _ s' g (record { valido = λ v. v })
  ejecutar_tarea-Sigue (despertar_io h) s s' e =
      Sigue-trans (lanzar-Sigue mirar_io s) (desbloquear-Sigue _ s' h e)
  ejecutar_tarea-Sigue mirar_io s s' e = Sigue-de s _ s' e (mirar-Sigue s.lista_en_espera_de_io s)
  ejecutar_tarea-Sigue (seguir_io h t) s s' e =
      Sigue-trans (lanzar-Sigue (dormir h t) s) (pcp-Sigue _ s' e)
  ejecutar_tarea-Sigue (volcar h) s s' e =
      bloquear-Sigue s s' (pedir_volcado h) h.tid h.pid_asociado e
  ejecutar_tarea-Sigue (pedir_volcado h) s s' e = pedir_dump-Sigue s s' h e

  Paso-Sigue :
      (s s' : Sistema S) → Paso mem basura mt mc s s' → EsKernel s.kernel → EsKernel s'.kernel
  Paso-Sigue s s' (atender l e) v = (atender_instruccion-Sigue mem basura mt mc s s' l e).valido v
  Paso-Sigue s s' (desalojar pid tid ver e) v =
      let (k, f, c, w) = atender_desalojo_hilo-Conserva mt mc s.kernel pid tid ver v in
      (con_kernel-Sigue s s' _ e (λ k' g z. rw (sym (some-injective _ _ (sym f ∙ g))) w)).valido v
  Paso-Sigue s s' (correr i t ts e f) v =
      (ejecutar_tarea-Sigue t (record s { hilos = ts }) s' f).valido v

  -- In every state that the kernel reaches from a valid one, by any order of its steps, that is of the
  -- messages of the CPU and of the sections of the threads that the kernel has launched: the CPU has
  -- one thread at most, and with CMN every thread of the kernel has a queue of its priority.
  pub Alcanza-EsKernel :
      (s s' : Sistema S) → Alcanza mem basura mt mc s s' → EsKernel s.kernel → EsKernel s'.kernel
  Alcanza-EsKernel s s' aqui v = v
  Alcanza-EsKernel s s' (luego {s' = t} r p) v = Paso-Sigue t s' p (Alcanza-EsKernel s t r v)
