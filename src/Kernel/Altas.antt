-- ===== src/Kernel/Altas.antt =====
-- A thread that enters the kernel or leaves it keeps the kernel valid (kernel/src/tcb.c,
-- cola_multinivel.c).
use tp_2024_2c_nachi_y_los_o.Comun.{
  ℕ, ◌+◌, ◌≤◌, ◌≡◌, refl, sym, ap, ◌∙◌, ◌≢◌, inl, inr, true, some, List, [], ◌∷◌, ◌++◌, arith, ◌==◌,
  ==_iff, Bool-cases, if_si, if_no, some-injective,
}
use tp_2024_2c_nachi_y_los_o.Kernel.Estado.{
  Algoritmo, fifo, prioridades, cmn, Tcb, ColaMultinivel, Kernel,
}
use tp_2024_2c_nachi_y_los_o.Kernel.Colas.{
  existe_cola_con_esa_prioridad, obtener_cola_por_prioridad, crear_colamultinivel,
  agregar_hilo_a_lista_ready,
}
use tp_2024_2c_nachi_y_los_o.Kernel.Planificacion.Veces.{
  peso, peso_en_colas, peso_total, prioridades_de,
}
use tp_2024_2c_nachi_y_los_o.Kernel.Planificacion.Agregado.{
  hay, sin_cola, TieneCola, EsKernel, agregar-total,
}
use tp_2024_2c_nachi_y_los_o.Kernel.Hilos.Busqueda.{EsRemocion}
use tp_2024_2c_nachi_y_los_o.Kernel.Transiciones.{sin_cola-Estable}
use tp_2024_2c_nachi_y_los_o.Kernel.Creacion.{con_cola_segun}

fifo≢cmn : fifo ≢ cmn
fifo≢cmn e = cc

prioridades≢cmn : prioridades ≢ cmn
prioridades≢cmn e = cc

-- What a removed thread leaves.
pub EsRemocion-EsKernel :
    (tid pid : ℕ) (k : Kernel) (t : Tcb) (k' : Kernel)
    → EsRemocion tid pid k t k'
    → EsKernel k
    → EsKernel k'
EsRemocion-EsKernel tid pid k t k' r v = record {
  a_lo_sumo_uno = omega (arith, r.ejecutan, v.a_lo_sumo_uno);
  con_cola = λ e.
      let ps = prioridades_de k.lista_cola_multinivel in
      ap (λ ps. peso_total (sin_cola ps) k') r.mismas_colas
      ∙ omega (arith, r.pesa (sin_cola ps), v.con_cola (sym r.mismo_algoritmo ∙ e));
}

hay-append : (ps : List ℕ) (p q : ℕ) → hay ps p ≡ true → hay (ps ++ q ∷ []) p ≡ true
hay-append [] p q h = cc
hay-append (r ∷ ps) p q h = elim (Bool-cases (r == p)) [
  | inl e ↦ if_si _ _ _ e
  | inr e ↦ if_no _ _ _ e ∙ hay-append ps p q (sym (if_no _ _ _ e) ∙ h)
]

hay-ultimo : (ps : List ℕ) (p : ℕ) → hay (ps ++ p ∷ []) p ≡ true
hay-ultimo [] p = let e : (p == p) ≡ true = (==_iff p p).1 refl in if_si _ _ _ e
hay-ultimo (r ∷ ps) p = elim (Bool-cases (r == p)) [
  | inl e ↦ if_si _ _ _ e
  | inr e ↦ if_no _ _ _ e ∙ hay-ultimo ps p
]

existe-hay :
    (p : ℕ) (cs : List ColaMultinivel)
    → existe_cola_con_esa_prioridad p cs ≡ hay (prioridades_de cs) p
unfolding existe_cola_con_esa_prioridad obtener_cola_por_prioridad
existe-hay p [] = refl
existe-hay p (c ∷ cs) = elim (Bool-cases (c.prioridad_lista == p)) [
  | inl e ↦ rw (e, existe_cola_con_esa_prioridad) refl
  | inr e ↦ rw (e, existe_cola_con_esa_prioridad) (existe-hay p cs)
]

prioridades-append :
    (cs : List ColaMultinivel) (c : ColaMultinivel)
    → prioridades_de (cs ++ c ∷ []) ≡ prioridades_de cs ++ c.prioridad_lista ∷ []
prioridades-append [] c = refl
prioridades-append (d ∷ cs) c = ap (λ l. d.prioridad_lista ∷ l) (prioridades-append cs c)

peso-append_vacia :
    (w : Tcb → ℕ) (cs : List ColaMultinivel) (p : ℕ)
    → peso_en_colas w (cs ++ record { prioridad_lista = p; lista_ready = [] } ∷ [])
      ≡ peso_en_colas w cs
unfolding peso_en_colas peso
peso-append_vacia w [] p = refl
peso-append_vacia w (c ∷ cs) p = ap (λ n. peso w c.lista_ready + n) (peso-append_vacia w cs p)

-- With the queue of a priority, the queues hold what they held, and cover what they covered.
record EsConCola (p : ℕ) (cs cs' : List ColaMultinivel) : Type 0 where
  cubre : hay (prioridades_de cs') p ≡ true
  cubria : (q : ℕ) → hay (prioridades_de cs) q ≡ true → hay (prioridades_de cs') q ≡ true
  pesa : (w : Tcb → ℕ) → peso_en_colas w cs' ≡ peso_en_colas w cs

crear_colamultinivel-EsConCola :
    (p : ℕ) (cs : List ColaMultinivel) → EsConCola p cs (crear_colamultinivel p cs)
unfolding crear_colamultinivel
crear_colamultinivel-EsConCola p cs = elim (Bool-cases (existe_cola_con_esa_prioridad p cs)) [
  | inl e ↦ rw e (record { cubre = sym (existe-hay p cs) ∙ e; cubria = λ q h. h; pesa = λ w. refl })
  | inr e ↦
      (let c : ColaMultinivel = record { prioridad_lista = p; lista_ready = [] } in
        rw e (record {
          cubre = rw (prioridades-append cs c) (hay-ultimo (prioridades_de cs) p);
          cubria = λ q h. rw (prioridades-append cs c) (hay-append (prioridades_de cs) q p h);
          pesa = λ w. peso-append_vacia w cs p;
        }))
]

-- More queues leave no more threads without one.
sin_cola-peso :
    (ps qs : List ℕ) (ts : List Tcb)
    → ((q : ℕ) → hay ps q ≡ true → hay qs q ≡ true)
    → peso (sin_cola qs) ts ≤ peso (sin_cola ps) ts
unfolding peso
sin_cola-peso ps qs [] f = omega arith
sin_cola-peso ps qs (t ∷ ts) f =
    let ih = sin_cola-peso ps qs ts f in
    elim (Bool-cases (hay ps t.prioridad)) [
      | inl e ↦ rw (e, f t.prioridad e) (omega (arith, ih))
      | inr e ↦ elim (Bool-cases (hay qs t.prioridad)) [
        | inl g ↦ rw (e, g) (omega (arith, ih))
        | inr g ↦ rw (e, g) (omega (arith, ih))
      ]
    ]

sin_cola-peso_en_colas :
    (ps qs : List ℕ) (cs : List ColaMultinivel)
    → ((q : ℕ) → hay ps q ≡ true → hay qs q ≡ true)
    → peso_en_colas (sin_cola qs) cs ≤ peso_en_colas (sin_cola ps) cs
unfolding peso_en_colas
sin_cola-peso_en_colas ps qs [] f = omega arith
sin_cola-peso_en_colas ps qs (c ∷ cs) f =
    omega (arith, sin_cola-peso ps qs c.lista_ready f, sin_cola-peso_en_colas ps qs cs f)

-- The queue for a new thread.
pub con_cola_segun-EsKernel :
    (a : Algoritmo) (p : ℕ) (k : Kernel)
    → a ≡ k.algoritmo_planificacion
    → EsKernel k
    → EsKernel (con_cola_segun a p k) × TieneCola (con_cola_segun a p k) p
unfolding con_cola_segun peso_total
con_cola_segun-EsKernel fifo p k e v = (v, λ f. absurd (fifo≢cmn (e ∙ f)))
con_cola_segun-EsKernel prioridades p k e v = (v, λ f. absurd (prioridades≢cmn (e ∙ f)))
con_cola_segun-EsKernel cmn p k e v =
    let cs = k.lista_cola_multinivel in
    let cs' = crear_colamultinivel p cs in
    let c = crear_colamultinivel-EsConCola p cs in
    let ps = prioridades_de cs in
    let qs = prioridades_de cs' in
    (
      record {
        a_lo_sumo_uno = v.a_lo_sumo_uno;
        con_cola = λ f. omega (
          arith,
          v.con_cola f,
          sin_cola-peso ps qs k.lista_tcb_ready c.cubria,
          sin_cola-peso ps qs k.lista_tcb_exec c.cubria,
          sin_cola-peso ps qs k.lista_tcb_blocked c.cubria,
          sin_cola-peso_en_colas ps qs cs c.cubria,
          c.pesa (sin_cola qs),
        );
      },
      λ f. c.cubre,
    )

-- A new thread with its queue.
pub agregar-EsKernel :
    (k k' : Kernel) (t : Tcb)
    → agregar_hilo_a_lista_ready k t ≡ some k'
    → TieneCola k t.prioridad
    → EsKernel k
    → EsKernel k'
agregar-EsKernel k k' t e h v =
    let (k1, f, a) = agregar-total k t h in
    let q : k1 ≡ k' = some-injective _ _ (sym f ∙ e) in
    let ps = prioridades_de k.lista_cola_multinivel in
    rw (sym q) (record {
      a_lo_sumo_uno = rw a.mismo_exec v.a_lo_sumo_uno;
      con_cola = λ g.
          let g' = sym a.mismo_algoritmo ∙ g in
          ap (λ ps. peso_total (sin_cola ps) k1) a.mismas_colas
          ∙ omega (
            arith,
            a.pesa (sin_cola ps) (sin_cola-Estable ps),
            v.con_cola g',
            if_si {A = ℕ} (hay ps t.prioridad) 0 1 (h g'),
          );
    })
