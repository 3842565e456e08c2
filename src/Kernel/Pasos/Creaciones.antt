-- ===== src/Kernel/Pasos/Creaciones.antt =====
-- The creation of threads and processes keeps the kernel valid (kernel/src/tcb.c, pcb.c,
-- planificador_largo_plazo.c).
use tp_2024_2c_nachi_y_los_o.Comun.{
  ℕ, zero, suc, ◌≡◌, refl, sym, inl, inr, Bool, true, false, Option, none, some, List, ◌==◌,
  if◌then◌else◌, ◌>>=◌, >>=-eq-some, opcion-cases, if-cases, some_par, length, get_elem?,
}
use tp_2024_2c_nachi_y_los_o.Kernel.Sistema.{PedidosMemoria, planificar, Sistema}
use tp_2024_2c_nachi_y_los_o.Kernel.Procesos.{Pcb}
use tp_2024_2c_nachi_y_los_o.Kernel.Pasos.Marco.{
  Sigue, Sigue-refl, Sigue-trans, Sigue-de, lanzar-Sigue,
}
use tp_2024_2c_nachi_y_los_o.Kernel.Colas.{agregar_hilo_a_lista_ready}
use tp_2024_2c_nachi_y_los_o.Kernel.Altas.{con_cola_segun-EsKernel, agregar-EsKernel}
use tp_2024_2c_nachi_y_los_o.Kernel.Creacion.{
  siguiente_hilo, con_cola_segun, nuevo_tcb, crear_pcb, crear_tcb, pasar_a_memoria,
  preguntar_a_memoria_para_inicializacion, crear_proceso, replanificar_creacion_proceso,
}

-- An outcome that is given only where the test holds.
si_acepta :
    {A : Type 0} (b : Bool) (o : Option A) (x : A) → (if b then o else none) ≡ some x → o ≡ some x
si_acepta true o x e = e
si_acepta false o x e = cc

module _ {S : Type 0} (mem : PedidosMemoria S) (basura : Bool) where
  pub crear_tcb-Sigue :
      (s s' : Sistema S) (p p' : Pcb) (archivo : List ℕ) (prioridad : ℕ)
      → crear_tcb mem basura s p archivo prioridad ≡ some (s', p')
      → Sigue s s'
  unfolding crear_tcb
  crear_tcb-Sigue s s' p p' archivo prioridad e =
      let (h, f, g) = >>=-eq-some (siguiente_hilo p) _ e in
      let m = (mem.creacion_hilo s.memoria h.pid_asociado h.tid archivo).0 in
      let k0 = con_cola_segun s.kernel.algoritmo_planificacion prioridad s.kernel in
      let t = nuevo_tcb basura h prioridad in
      let (k, i, j) = >>=-eq-some _ _ g in
      let a = si_acepta _ (agregar_hilo_a_lista_ready k0 t) k i in
      let q = (some_par _ _ j).0 in
      let base : Sistema S = record s { kernel = k; memoria = m } in
      let b : Sigue s base = record {
        valido = λ v.
            let (w, c) =
              con_cola_segun-EsKernel s.kernel.algoritmo_planificacion prioridad s.kernel refl v in
            agregar-EsKernel k0 k t a c w;
      } in
      rw (sym q) (Sigue-trans b (lanzar-Sigue planificar base))

  pasar-Sigue : (s : Sistema S) (p : Pcb) → Sigue s (pasar_a_memoria (s, p)).0
  unfolding pasar_a_memoria
  pasar-Sigue s p = record { valido = λ v. v }

  con_memoria-Sigue : (s : Sistema S) (m : S) → Sigue s (record s { memoria = m })
  con_memoria-Sigue s m = record { valido = λ v. v }

  -- Both answers of memory.
  segun_respuesta :
      (b : Bool) (s s1 : Sistema S) (o : Option (Sistema S × Pcb)) (r : Sistema S × Bool)
      → (if b then (o >>= λ q. some (pasar_a_memoria q)) else some (s1, false)) ≡ some r
      → Sigue s s1
      → ((q : Sistema S × Pcb) → o ≡ some q → Sigue s1 q.0)
      → Sigue s r.0
  segun_respuesta true s s1 o r e a f =
      let (q, g, h) = >>=-eq-some o _ e in
      let i = (some_par _ _ h).0 in
      rw (sym i) (Sigue-trans a (Sigue-trans (f q g) (pasar-Sigue q.0 q.1)))
  segun_respuesta false s s1 o r e a f = rw (sym (some_par _ _ e).0) a

  pub preguntar-Sigue :
      (s : Sistema S) (p : Pcb) (r : Sistema S × Bool)
      → preguntar_a_memoria_para_inicializacion mem basura s p ≡ some r
      → Sigue s r.0
  unfolding preguntar_a_memoria_para_inicializacion
  preguntar-Sigue s p r e =
      let m = (mem.creacion_proceso s.memoria p.pid p.tamanio).0 in
      let s1 : Sistema S = record s { memoria = m } in
      segun_respuesta (mem.creacion_proceso s.memoria p.pid p.tamanio).1 s s1
        (crear_tcb mem basura s1 p p.archivo_instrucciones p.prioridad_tid0) r e
        (con_memoria-Sigue s m)
        (λ q g. crear_tcb-Sigue s1 q.0 p q.1 p.archivo_instrucciones p.prioridad_tid0 g)

  pub crear_proceso-Sigue :
      (s s' : Sistema S) (archivo : List ℕ) (tamanio prioridad : ℕ)
      → crear_proceso mem basura s archivo tamanio prioridad ≡ some s'
      → Sigue s s'
  unfolding crear_proceso crear_pcb
  crear_proceso-Sigue s s' archivo tamanio prioridad e =
      let (s1, p) = crear_pcb s archivo tamanio prioridad in
      let a : Sigue s s1 = record { valido = λ v. v } in
      let o : Option (Sistema S × Bool) = preguntar_a_memoria_para_inicializacion mem basura s1 p in
      elim (if-cases (length s1.lista_pcb_new == 1) (o >>= λ r. some (r.0)) (some s1) (some s') e) [
        | inl (c, f) ↦
            (let (r, g, h) = >>=-eq-some o _ f in
              Sigue-de s r.0 s' h (Sigue-trans a (preguntar-Sigue s1 p r g)))
        | inr (c, f) ↦ Sigue-de s s1 s' f a
      ]

  pub replanificar-Sigue :
      (n : ℕ) (s s' : Sistema S)
      → replanificar_creacion_proceso mem basura n s ≡ some s'
      → Sigue s s'
  unfolding replanificar_creacion_proceso
  replanificar-Sigue zero s s' e = cc
  replanificar-Sigue (suc n) s s' e =
      elim (opcion-cases (get_elem? s.lista_pcb_new 0) (some s) _ (some s') e) [
        | inl (c, f) ↦ Sigue-de s s s' f (Sigue-refl s)
        | inr (p, c, f) ↦
            (let (r, g, h) =
                >>=-eq-some (preguntar_a_memoria_para_inicializacion mem basura s p) _ f in
              let a = preguntar-Sigue s p r g in
              elim (if-cases r.1 (replanificar_creacion_proceso mem basura n r.0) (some (r.0))
                (some s') h) [
                  | inl (d, i) ↦ Sigue-trans a (replanificar-Sigue n r.0 s' i)
                  | inr (d, i) ↦ Sigue-de s r.0 s' i a
                ])
      ]
