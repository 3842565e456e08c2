-- ===== src/Memoria/Particion/Rondas.antt =====
-- The rounds of `unificar_particiones_libres_contiguas` (memoria/src/particion.c).
use tp_2024_2c_nachi_y_los_o.Comun.{
  true, false, ◌⊎◌, ◌≢◌, some-injective, >>=-eq-some, if_si, if_no, ℕ, zero, suc, ◌+◌, ◌≤◌, ◌<◌,
  ◌≡◌, refl, sym, ◌∙◌, inl, inr, not, ◌&&◌, Option, none, some, List, [], ◌∷◌, arith, ◌==◌,
  Bool-cases, Option-cases, ◌>>=◌, length, All, add32,
}
use tp_2024_2c_nachi_y_los_o.Memoria.Estado.{Particion}
use tp_2024_2c_nachi_y_los_o.Memoria.Particion.{pasada, unir}
use tp_2024_2c_nachi_y_los_o.Memoria.Particion.Cobertura.{
  contiene, cubre, contiene_libre, cubre_libre, EsBuena,
}

-- The bases do not decrease along the list.
abbrev pub Creciente : List Particion → Type 0
Creciente [] = Unit {0}
Creciente (p ∷ []) = Unit {0}
Creciente (p ∷ q ∷ ps) = (p.base ≤ q.base) × Creciente (q ∷ ps)

-- No two neighbours of the list are both free and touch.
abbrev pub SinVecinas : List Particion → Type 0
SinVecinas [] = Unit {0}
SinVecinas (p ∷ []) = Unit {0}
SinVecinas (p ∷ q ∷ ps) =
    ((p.esta_ocupada ≡ true) ⊎ (q.esta_ocupada ≡ true) ⊎ (add32 p.limite 1 ≢ q.base))
    × SinVecinas (q ∷ ps)

separadas :
    (p q : Particion)
    → (not p.esta_ocupada && (not q.esta_ocupada && (add32 p.limite 1 == q.base))) ≡ false
    → (p.esta_ocupada ≡ true) ⊎ (q.esta_ocupada ≡ true) ⊎ (add32 p.limite 1 ≢ q.base)
separadas p q t = elim (Bool-cases p.esta_ocupada) [
  | inl a ↦ inl a
  | inr a ↦ elim (Bool-cases q.esta_ocupada) [
    | inl b ↦ inr (inl b)
    | inr b ↦ inr (inr (λ e. absurd (ground arith)))
  ]
]

>>=-nada :
    (o : Option (List Particion)) (p : Particion) → (o >>= λ rs. some (p ∷ rs)) ≡ none → o ≡ none
>>=-nada none p e = refl
>>=-nada (some rs) p e = cc

pub pasada-SinVecinas : (ps : List Particion) → pasada ps ≡ none → SinVecinas ps
unfolding pasada
pasada-SinVecinas [] e = tt
pasada-SinVecinas (p ∷ []) e = tt
pasada-SinVecinas (p ∷ q ∷ ps) e =
    let b = not p.esta_ocupada && (not q.esta_ocupada && (add32 p.limite 1 == q.base)) in
    elim (Bool-cases b) [
      | inl t ↦ (let x : some _ ≡ none = sym (if_si b _ _ t) ∙ e in cc)
      | inr t ↦ (
        separadas p q t,
        pasada-SinVecinas (q ∷ ps) (>>=-nada (pasada (q ∷ ps)) p (sym (if_no b _ _ t) ∙ e)),
      )
    ]

pasada-base :
    (p : Particion) (ps qs : List Particion)
    → pasada (p ∷ ps) ≡ some qs
    → (q : Particion) × (rs : List Particion) × (qs ≡ q ∷ rs) × (q.base ≡ p.base)
unfolding pasada
pasada-base p [] qs e = cc
pasada-base p (q ∷ ps) qs e =
    let b = not p.esta_ocupada && (not q.esta_ocupada && (add32 p.limite 1 == q.base)) in
    elim (Bool-cases b) [
      | inl t ↦ (_, ps, sym (some-injective _ _ (sym (if_si b _ _ t) ∙ e)), refl)
      | inr t ↦
          let (rs, f, g) = >>=-eq-some (pasada (q ∷ ps)) _ (sym (if_no b _ _ t) ∙ e) in
          (p, rs, sym (some-injective _ _ g), refl)
    ]

-- Without the second partition the order stays, with any first one of the same base.
sin_segunda :
    (p q : Particion) (ps : List Particion) (r : Particion)
    → r.base ≡ p.base
    → Creciente (p ∷ q ∷ ps)
    → Creciente (r ∷ ps)
sin_segunda p q [] r e o = tt
sin_segunda p q (x ∷ ps) r e o = (omega (arith, e, o.0, o.1.0), o.1.1)

en_orden_cons :
    (p q : Particion) (ps qs : List Particion)
    → pasada (q ∷ ps) ≡ some qs
    → Creciente (p ∷ q ∷ ps)
    → (Creciente (q ∷ ps) → Creciente qs)
    → Creciente (p ∷ qs)
en_orden_cons p q ps qs e o f =
    let (x, rs, g, b) = pasada-base q ps qs e in
    let h : Creciente (x ∷ rs) = rw g at (f o.1) in rw g (omega (arith, o.0, b), h)

module _ (tam : ℕ) (chica : tam < 2147483648) where
  -- Two neighbours that touch hold together what the union holds.
  union_contiene :
      (a : ℕ) (p q : Particion)
      → EsBuena tam p
      → EsBuena tam q
      → add32 p.limite 1 ≡ q.base
      → contiene a (record p { tamanio = add32 p.tamanio q.tamanio; limite = q.limite })
        ≡ contiene a p + contiene a q
  unfolding contiene
  union_contiene a p q h k e = ground arith

  union-EsBuena :
      (p q : Particion)
      → EsBuena tam p
      → EsBuena tam q
      → add32 p.limite 1 ≡ q.base
      → EsBuena tam (record p { tamanio = add32 p.tamanio q.tamanio; limite = q.limite })
  union-EsBuena p q h k e = omega arith

  -- A round of the union keeps what the partitions hold, taken or free, keeps the order of the bases,
  -- and leaves one partition less.
  pub record Ronda (ps qs : List Particion) : Type 0 where
    pub misma : (a : ℕ) → cubre a qs ≡ cubre a ps
    pub misma_libre : (a : ℕ) → cubre_libre a qs ≡ cubre_libre a ps
    pub buenas : All (EsBuena tam) qs
    pub una_menos : suc (length qs) ≡ length ps
    pub en_orden : Creciente ps → Creciente qs

  abbrev Paso : List Particion → Option (List Particion) → Type 0
  Paso ps none = Unit {0}
  Paso ps (some qs) = Ronda ps qs

  Paso-cons :
      (p : Particion) (ps : List Particion) (r : Option (List Particion))
      → EsBuena tam p
      → Paso ps r
      → ((qs : List Particion) → r ≡ some qs → Creciente (p ∷ ps) → Creciente (p ∷ qs))
      → Paso (p ∷ ps) (r >>= λ qs. some (p ∷ qs))
  unfolding cubre cubre_libre
  Paso-cons p ps none h k o = tt
  Paso-cons p ps (some qs) h k o = record {
    misma = λ a. omega (arith, k.misma a);
    misma_libre = λ a. omega (arith, k.misma_libre a);
    buenas = (h, k.buenas);
    una_menos = omega (arith, k.una_menos);
    en_orden = o qs refl;
  }

  union_libre :
      (a : ℕ) (p q : Particion)
      → EsBuena tam p
      → EsBuena tam q
      → p.esta_ocupada ≡ false
      → q.esta_ocupada ≡ false
      → add32 p.limite 1 ≡ q.base
      → contiene_libre a (record p { tamanio = add32 p.tamanio q.tamanio; limite = q.limite })
        ≡ contiene_libre a p + contiene_libre a q
  union_libre a p q h k f g e =
      let u : Particion = record p { tamanio = add32 p.tamanio q.tamanio; limite = q.limite } in
      omega (
        arith,
        if_no p.esta_ocupada 0 (contiene a u) f,
        if_no p.esta_ocupada 0 (contiene a p) f,
        if_no q.esta_ocupada 0 (contiene a q) g,
        union_contiene a p q h k e,
      )

  ronda_en_orden :
      (ps : List Particion) (r : Option (List Particion))
      → Paso ps r
      → (qs : List Particion) → r ≡ some qs
      → Creciente ps
      → Creciente qs
  ronda_en_orden ps none k qs e o = cc
  ronda_en_orden ps (some rs) k qs e o = rw (sym (some-injective _ _ e)) (k.en_orden o)

  pasada-Paso : (ps : List Particion) → All (EsBuena tam) ps → Paso ps (pasada ps)
  unfolding pasada cubre cubre_libre
  pasada-Paso [] h = tt
  pasada-Paso (p ∷ []) h = tt
  pasada-Paso (p ∷ q ∷ ps) h =
      elim (Bool-cases
        (not p.esta_ocupada && (not q.esta_ocupada && (add32 p.limite 1 == q.base)))) [
          | inl b ↦
              let e : add32 p.limite 1 ≡ q.base = ground arith in
              let f : p.esta_ocupada ≡ false = ground arith in
              let g : q.esta_ocupada ≡ false = ground arith in
              rw b (record {
                misma = λ a. omega (arith, union_contiene a p q h.0 h.1.0 e);
                misma_libre = λ a. omega (arith, union_libre a p q h.0 h.1.0 f g e);
                buenas = (union-EsBuena p q h.0 h.1.0 e, h.1.1);
                una_menos = refl;
                en_orden = λ o.
                    sin_segunda p q ps
                      (record p { tamanio = add32 p.tamanio q.tamanio; limite = q.limite }) refl o;
              })
          | inr b ↦ rw b (
              Paso-cons p (q ∷ ps) _ h.0 (pasada-Paso (q ∷ ps) h.1) (λ qs e o.
                en_orden_cons p q ps qs e o
                  (ronda_en_orden (q ∷ ps) _ (pasada-Paso (q ∷ ps) h.1) qs e)))
        ]

  -- With more fuel than partitions the loop ends.
  pub unir-total :
      (f : ℕ) (ps : List Particion)
      → length ps < f
      → All (EsBuena tam) ps
      → (rs : List Particion) × (unir f ps ≡ some rs)
        × (pasada rs ≡ none)
        × ((a : ℕ) → cubre a rs ≡ cubre a ps)
        × ((a : ℕ) → cubre_libre a rs ≡ cubre_libre a ps)
        × (Creciente ps → Creciente rs)
        × All (EsBuena tam) rs
  unfolding unir
  unir-total zero ps l h = elim l [ ]
  unir-total (suc f) ps l h = elim (Option-cases (pasada ps)) [
    | inl e ↦ (ps, rw (e, unir), e, λ a. refl, λ a. refl, λ o. o, h)
    | inr (qs, e) ↦
        let k : Ronda ps qs = rw e at (pasada-Paso ps h) in
        let (rs, u, s, c, d, o, b) = unir-total f qs (omega (arith, k.una_menos)) k.buenas in
        (
          rs,
          rw (e, unir) u,
          s,
          λ a. c a ∙ k.misma a,
          λ a. d a ∙ k.misma_libre a,
          λ x. o (k.en_orden x),
          b,
        )
  ]
