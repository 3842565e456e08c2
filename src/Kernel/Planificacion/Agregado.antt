-- ===== src/Kernel/Planificacion/Agregado.antt =====
-- What it takes to make a thread ready, and what that leaves (kernel/src/servicios_kernel.c,
-- cola_multinivel.c).
use tp_2024_2c_nachi_y_los_o.Comun.{
  ℕ, ◌+◌, ◌≤◌, ◌≡◌, refl, sym, ap, ◌∙◌, inl, inr, Bool, true, false, some, List, [], ◌∷◌, ◌++◌,
  arith, ◌==◌, if◌then◌else◌, Bool-cases, if_si, if_no, length,
}
use tp_2024_2c_nachi_y_los_o.Kernel.Estado.{
  Algoritmo, fifo, prioridades, cmn, ready, Tcb, ColaMultinivel, Kernel,
}
use tp_2024_2c_nachi_y_los_o.Kernel.Colas.{
  agregar_a_cola, agregar_segun, agregar_hilo_a_lista_ready,
}
use tp_2024_2c_nachi_y_los_o.Kernel.Planificacion.Veces.{
  Estable, peso, peso_en_colas, peso_total, prioridades_de,
}

abbrev pub hay : List ℕ → ℕ → Bool
hay [] p = false
hay (q ∷ qs) p = if q == p then true else hay qs p

-- A thread without a queue of its priority.
abbrev pub sin_cola : List ℕ → Tcb → ℕ
sin_cola ps t = if hay ps t.prioridad then 0 else 1

abbrev pub TieneCola : Kernel → ℕ → Type 0
TieneCola k p =
    k.algoritmo_planificacion ≡ cmn → hay (prioridades_de k.lista_cola_multinivel) p ≡ true

-- The CPU has one thread at most, and with CMN every thread has a queue of its priority.
pub record EsKernel (k : Kernel) : Type 0 where
  pub a_lo_sumo_uno : length k.lista_tcb_exec ≤ 1
  pub con_cola :
      k.algoritmo_planificacion ≡ cmn
      → peso_total (sin_cola (prioridades_de k.lista_cola_multinivel)) k ≡ 0

-- The kernel `k'` has the threads of `k` and also `t`.
pub record EsAgregado (t : Tcb) (k k' : Kernel) : Type 0 where
  pub pesa : (w : Tcb → ℕ) → Estable w → peso_total w k' ≡ w t + peso_total w k
  pub mismo_algoritmo : k'.algoritmo_planificacion ≡ k.algoritmo_planificacion
  pub mismas_colas :
      prioridades_de k'.lista_cola_multinivel ≡ prioridades_de k.lista_cola_multinivel
  pub mismo_exec : k'.lista_tcb_exec ≡ k.lista_tcb_exec

pub peso-append : (w : Tcb → ℕ) (ts us : List Tcb) → peso w (ts ++ us) ≡ peso w ts + peso w us
unfolding peso
peso-append w [] us = omega arith
peso-append w (t ∷ ts) us = omega (arith, peso-append w ts us)

agregar_a_cola-total :
    (t : Tcb) (cs : List ColaMultinivel)
    → hay (prioridades_de cs) t.prioridad ≡ true
    → (cs' : List ColaMultinivel) × (agregar_a_cola t cs ≡ some cs')
      × ((w : Tcb → ℕ) → peso_en_colas w cs' ≡ w t + peso_en_colas w cs)
      × (prioridades_de cs' ≡ prioridades_de cs)
unfolding agregar_a_cola peso_en_colas peso
agregar_a_cola-total t [] h = cc
agregar_a_cola-total t (c ∷ cs) h = elim (Bool-cases (c.prioridad_lista == t.prioridad)) [
  | inl e ↦ (
    record c { lista_ready = c.lista_ready ++ t ∷ [] } ∷ cs,
    if_si _ _ _ e,
    λ w. omega (arith, peso-append w c.lista_ready (t ∷ [])),
    refl,
  )
  | inr e ↦
      (let (ds, f, p, q) = agregar_a_cola-total t cs (sym (if_no _ _ _ e) ∙ h) in
        (
          c ∷ ds,
          if_no _ _ _ e ∙ rw f refl,
          λ w. omega (arith, p w),
          ap (λ l. c.prioridad_lista ∷ l) q,
        ))
]

en_unica-EsAgregado :
    (k : Kernel) (t : Tcb)
    → EsAgregado t k
        (record k { lista_tcb_ready = k.lista_tcb_ready ++ record t { estado = ready } ∷ [] })
unfolding peso_total peso
en_unica-EsAgregado k t = record {
  pesa = λ w s. omega (
    arith,
    peso-append w k.lista_tcb_ready (record t { estado = ready } ∷ []),
    s (record t { estado = ready }) t refl refl,
  );
  mismo_algoritmo = refl;
  mismas_colas = refl;
  mismo_exec = refl;
}

segun-total :
    (a : Algoritmo) (k : Kernel) (t : Tcb)
    → (a ≡ cmn → hay (prioridades_de k.lista_cola_multinivel) t.prioridad ≡ true)
    → (k' : Kernel) × (agregar_segun a k (record t { estado = ready }) ≡ some k')
      × EsAgregado t k k'
unfolding agregar_segun peso_total
segun-total fifo k t h = (_, refl, en_unica-EsAgregado k t)
segun-total prioridades k t h = (_, refl, en_unica-EsAgregado k t)
segun-total cmn k t h =
    let u : Tcb = record t { estado = ready } in
    let (cs, f, p, q) = agregar_a_cola-total u k.lista_cola_multinivel (h refl) in
    (
      record k { lista_cola_multinivel = cs },
      rw f refl,
      record {
        pesa = λ w s. omega (arith, p w, s (record t { estado = ready }) t refl refl);
        mismo_algoritmo = refl;
        mismas_colas = q;
        mismo_exec = refl;
      },
    )

-- A thread whose priority has a queue becomes ready.
pub agregar-total :
    (k : Kernel) (t : Tcb)
    → TieneCola k t.prioridad
    → (k' : Kernel) × (agregar_hilo_a_lista_ready k t ≡ some k') × EsAgregado t k k'
unfolding agregar_hilo_a_lista_ready
agregar-total k t h = segun-total k.algoritmo_planificacion k t h
