-- ===== src/Kernel/Hilos/Busqueda.antt =====
-- What the searches over all the lists find and remove (kernel/src/tcb.c, cola_multinivel.c).
use tp_2024_2c_nachi_y_los_o.Comun.{
  ℕ, ◌+◌, ◌≤◌, ◌≡◌, refl, sym, ap, ◌∙◌, ◌⊎◌, inl, inr, true, Option, none, some, List, [], ◌∷◌,
  arith, Bool-cases, >>=-eq-some, if_si, if_no, length, some-injective, some_par,
}
use tp_2024_2c_nachi_y_los_o.Kernel.Estado.{
  Algoritmo, fifo, prioridades, cmn, Tcb, ColaMultinivel, Kernel, es_hilo,
}
use tp_2024_2c_nachi_y_los_o.Kernel.Colas.{
  buscar_tcb_por_tid_de, remover_tcb_de_lista, buscar_y_remover_tcb_por_tid_de,
}
use tp_2024_2c_nachi_y_los_o.Kernel.Planificacion.Veces.{
  peso, peso_en_colas, peso_total, prioridades_de,
}
use tp_2024_2c_nachi_y_los_o.Kernel.Hilos.{
  ◌<|>◌, buscar_y_remover_tcb_de_cola_multinivel, dejando, remover_listo,
  buscar_y_remover_tcb_por_tid,
}

-- The kernel after a removal: what was found, the weight that is left, and what did not change.
pub record EsRemocion (tid pid : ℕ) (k : Kernel) (t : Tcb) (k' : Kernel) : Type 0 where
  pub es : es_hilo tid pid t.id_hilo ≡ true
  pub pesa : (w : Tcb → ℕ) → peso_total w k ≡ w t + peso_total w k'
  pub mismo_algoritmo : k'.algoritmo_planificacion ≡ k.algoritmo_planificacion
  pub mismas_colas :
      prioridades_de k'.lista_cola_multinivel ≡ prioridades_de k.lista_cola_multinivel
  pub ejecutan : length k'.lista_tcb_exec ≤ length k.lista_tcb_exec

-- What the search in a list gives: the thread sought, which the removal takes out of the list.
pub buscar-remover :
    (w : Tcb → ℕ) (tid pid : ℕ) (ts : List Tcb) (t : Tcb)
    → buscar_tcb_por_tid_de tid pid ts ≡ some t
    → (es_hilo tid pid t.id_hilo ≡ true)
      × (peso w ts ≡ w t + peso w (remover_tcb_de_lista tid pid ts))
unfolding buscar_tcb_por_tid_de remover_tcb_de_lista peso
buscar-remover w tid pid [] t e = cc
buscar-remover w tid pid (x ∷ ts) t e = elim (Bool-cases (es_hilo tid pid x.id_hilo)) [
  | inl h ↦
      (let q : x ≡ t = some-injective _ _ (sym (if_si _ _ _ h) ∙ e) in rw h (rw (sym q) (h, refl)))
  | inr h ↦
      (let (i, p) = buscar-remover w tid pid ts t (sym (if_no _ _ _ h) ∙ e) in
        (i, rw h (omega (arith, p))))
]

pub remover-peso :
    (w : Tcb → ℕ) (tid pid : ℕ) (ts rs : List Tcb) (t : Tcb)
    → buscar_y_remover_tcb_por_tid_de tid pid ts ≡ some (t, rs)
    → (es_hilo tid pid t.id_hilo ≡ true) × (peso w ts ≡ w t + peso w rs)
unfolding buscar_y_remover_tcb_por_tid_de
remover-peso w tid pid ts rs t e =
    let (x, f, g) = >>=-eq-some (buscar_tcb_por_tid_de tid pid ts) _ e in
    let (q, r) = some_par (x, _) (t, rs) g in
    let b = buscar-remover w tid pid ts x f in rw (sym q, sym r) b

pub remover-length :
    (tid pid : ℕ) (ts rs : List Tcb) (t : Tcb)
    → buscar_y_remover_tcb_por_tid_de tid pid ts ≡ some (t, rs)
    → length rs ≤ length ts
unfolding peso
remover-length tid pid ts rs t e =
    let (h, p) = remover-peso (λ x. 1) tid pid ts rs t e in
    omega (arith, sym (peso_uno ts) ∙ p, peso_uno rs)
  where
    peso_uno : (ts : List Tcb) → peso (λ x. 1) ts ≡ length ts
    peso_uno [] = refl
    peso_uno (t ∷ ts) = omega (arith, peso_uno ts)

<|>-cases : {A : Type 0} (a b : Option A) (x : A) → (a <|> b) ≡ some x → (a ≡ some x) ⊎ (b ≡ some x)
<|>-cases none b x e = inr e
<|>-cases (some a) b x e = inl e

dejando-cases :
    {L : Type 0} (o : Option (Tcb × L)) (poner : L → Kernel) (t : Tcb) (k' : Kernel)
    → dejando o poner ≡ some (t, k')
    → (l : L) × (o ≡ some (t, l)) × (k' ≡ poner l)
dejando-cases o poner t k' e =
    let ((x, l), f, g) = >>=-eq-some o _ e in
    let (q, r) = some_par (x, _) (t, k') g in (l, f ∙ ap (λ y. some (y, l)) q, sym r)

cola-remover :
    (w : Tcb → ℕ) (tid pid : ℕ) (cs rs : List ColaMultinivel) (t : Tcb)
    → buscar_y_remover_tcb_de_cola_multinivel tid pid cs ≡ some (t, rs)
    → (es_hilo tid pid t.id_hilo ≡ true)
      × (peso_en_colas w cs ≡ w t + peso_en_colas w rs)
      × (prioridades_de rs ≡ prioridades_de cs)
unfolding buscar_y_remover_tcb_de_cola_multinivel peso_en_colas
cola-remover w tid pid [] rs t e = cc
cola-remover w tid pid (c ∷ cs) rs t e =
    let aqui : Option (Tcb × List ColaMultinivel) =
      dejando (buscar_y_remover_tcb_por_tid_de tid pid c.lista_ready)
        (λ ts. record c { lista_ready = ts } ∷ cs) in
    let sigue : Option (Tcb × List ColaMultinivel) =
      dejando (buscar_y_remover_tcb_de_cola_multinivel tid pid cs) (λ ds. c ∷ ds) in
    elim (<|>-cases aqui sigue (t, rs) e) [
      | inl f ↦
          (let ((x, ts), g, h) =
              >>=-eq-some (buscar_y_remover_tcb_por_tid_de tid pid c.lista_ready) _ f in
            let (q, r) = some_par (x, record c { lista_ready = ts } ∷ cs) (t, rs) h in
            let (b, p) = remover-peso w tid pid c.lista_ready ts x g in
            rw (sym q, sym r) (b, omega (arith, p), refl))
      | inr f ↦
          (let ((x, ds), g, h) =
              >>=-eq-some (buscar_y_remover_tcb_de_cola_multinivel tid pid cs) _ f in
            let (q, r) = some_par (x, c ∷ ds) (t, rs) h in
            let (b, p, l) = cola-remover w tid pid cs ds x g in
            rw (sym q, sym r) (b, omega (arith, p), ap (λ l. c.prioridad_lista ∷ l) l))
    ]

EsRemocion-de :
    (tid pid : ℕ) (k : Kernel) (t : Tcb) (k' k'' : Kernel)
    → k' ≡ k''
    → EsRemocion tid pid k t k''
    → EsRemocion tid pid k t k'
EsRemocion-de tid pid k t k' k'' e r = rw e r

-- A thread taken out of the single list of ready threads.
unica-EsRemocion :
    (tid pid : ℕ) (k : Kernel) (t : Tcb) (k' : Kernel)
    → dejando
        (buscar_y_remover_tcb_por_tid_de tid pid k.lista_tcb_ready)
        (λ ts. record k { lista_tcb_ready = ts })
      ≡ some (t, k')
    → EsRemocion tid pid k t k'
unfolding peso_total
unica-EsRemocion tid pid k t k' e =
    let (ts, f, g) = dejando-cases _ (λ ts. record k { lista_tcb_ready = ts }) t k' e in
    let l : (w : Tcb → ℕ)
        → (es_hilo tid pid t.id_hilo ≡ true) × (peso w k.lista_tcb_ready ≡ w t + peso w ts) =
      λ w. remover-peso w tid pid k.lista_tcb_ready ts t f in
    EsRemocion-de tid pid k t k' (record k { lista_tcb_ready = ts }) g
      (record {
        es = (l (λ x. 0)).0;
        pesa = λ w. omega (arith, (l w).1);
        mismo_algoritmo = refl;
        mismas_colas = refl;
        ejecutan = omega arith;
      })

remover_listo-EsRemocion :
    (a : Algoritmo) (tid pid : ℕ) (k : Kernel) (t : Tcb) (k' : Kernel)
    → remover_listo a tid pid k ≡ some (t, k')
    → EsRemocion tid pid k t k'
unfolding remover_listo peso_total
remover_listo-EsRemocion fifo tid pid k t k' e = unica-EsRemocion tid pid k t k' e
remover_listo-EsRemocion prioridades tid pid k t k' e = unica-EsRemocion tid pid k t k' e
remover_listo-EsRemocion cmn tid pid k t k' e =
    let (cs, f, g) = dejando-cases _ (λ cs. record k { lista_cola_multinivel = cs }) t k' e in
    let l : (w : Tcb → ℕ)
        → (es_hilo tid pid t.id_hilo ≡ true)
          × (peso_en_colas w k.lista_cola_multinivel ≡ w t + peso_en_colas w cs)
          × (prioridades_de cs ≡ prioridades_de k.lista_cola_multinivel) =
      λ w. cola-remover w tid pid k.lista_cola_multinivel cs t f in
    EsRemocion-de tid pid k t k' (record k { lista_cola_multinivel = cs }) g
      (record {
        es = (l (λ x. 0)).0;
        pesa = λ w. omega (arith, (l w).1);
        mismo_algoritmo = refl;
        mismas_colas = (l (λ x. 0)).2;
        ejecutan = omega arith;
      })

pub ejecucion-EsRemocion :
    (tid pid : ℕ) (k : Kernel) (ts : List Tcb) (t : Tcb)
    → buscar_y_remover_tcb_por_tid_de tid pid k.lista_tcb_exec ≡ some (t, ts)
    → EsRemocion tid pid k t (record k { lista_tcb_exec = ts })
unfolding peso_total
ejecucion-EsRemocion tid pid k ts t f = record {
  es = (remover-peso (λ x. 0) tid pid k.lista_tcb_exec ts t f).0;
  pesa = λ w. omega (arith, (remover-peso w tid pid k.lista_tcb_exec ts t f).1);
  mismo_algoritmo = refl;
  mismas_colas = refl;
  ejecutan = remover-length tid pid k.lista_tcb_exec ts t f;
}

pub bloqueado-EsRemocion :
    (tid pid : ℕ) (k : Kernel) (ts : List Tcb) (t : Tcb)
    → buscar_y_remover_tcb_por_tid_de tid pid k.lista_tcb_blocked ≡ some (t, ts)
    → EsRemocion tid pid k t (record k { lista_tcb_blocked = ts })
unfolding peso_total
bloqueado-EsRemocion tid pid k ts t f = record {
  es = (remover-peso (λ x. 0) tid pid k.lista_tcb_blocked ts t f).0;
  pesa = λ w. omega (arith, (remover-peso w tid pid k.lista_tcb_blocked ts t f).1);
  mismo_algoritmo = refl;
  mismas_colas = refl;
  ejecutan = omega arith;
}

-- What is removed over all the lists is the thread sought, and only it leaves the kernel.
pub buscar_y_remover-EsRemocion :
    (tid pid : ℕ) (k : Kernel) (t : Tcb) (k' : Kernel)
    → buscar_y_remover_tcb_por_tid tid pid k ≡ some (t, k')
    → EsRemocion tid pid k t k'
unfolding buscar_y_remover_tcb_por_tid
buscar_y_remover-EsRemocion tid pid k t k' e = elim (<|>-cases _ _ _ e) [
  | inl f ↦ remover_listo-EsRemocion k.algoritmo_planificacion tid pid k t k' f
  | inr f ↦ elim (<|>-cases _ _ _ f) [
    | inl g ↦
        (let (ts, h, q) = dejando-cases _ (λ ts. record k { lista_tcb_exec = ts }) t k' g in
          EsRemocion-de tid pid k t k' (record k { lista_tcb_exec = ts }) q
            (ejecucion-EsRemocion tid pid k ts t h))
    | inr g ↦
        (let (ts, h, q) = dejando-cases _ (λ ts. record k { lista_tcb_blocked = ts }) t k' g in
          EsRemocion-de tid pid k t k' (record k { lista_tcb_blocked = ts }) q
            (bloqueado-EsRemocion tid pid k ts t h))
  ]
]
