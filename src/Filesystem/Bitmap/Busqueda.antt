-- ===== src/Filesystem/Bitmap/Busqueda.antt =====
-- The search for a free block and the count of the free blocks (filesystem/src/bitmap.c).
use tp_2024_2c_nachi_y_los_o.Comun.{
  ℕ, zero, suc, ◌+◌, ◌≤◌, ◌<◌, ◌≡◌, refl, sym, ap, ◌∙◌, ◌≢◌, ◌⊎◌, inl, inr, true, false, not, none,
  some, arith, ◌==◌, Bool-cases, Option-cases, if_si, if_no,
}
use tp_2024_2c_nachi_y_los_o.Filesystem.Bitmap.{
  Bitarray, libre_desde, encontrar_primer_bit_libre, libres_desde, cantidad_bloques_libres,
}

-- The lowest free block.
pub record EsPrimerLibre {ℓ} {T : Type ℓ} (ba : Bitarray T) (b : T) (i : ℕ) : Type ℓ where
  pub en_rango : i < ba.get_max_bit b
  pub libre : ba.test_bit b i ≡ false
  pub anteriores : (j : ℕ) → j < i → ba.test_bit b j ≡ true

module _ {ℓ} {T : Type ℓ} (ba : Bitarray T) where
  desde_siguiente :
      (b : T) (k i j : ℕ)
      → ba.test_bit b k ≡ true
      → ((j : ℕ) → suc k ≤ j → j < i → ba.test_bit b j ≡ true)
      → k ≤ j
      → j < i
      → ba.test_bit b j ≡ true
  desde_siguiente b k i j t a kj ji = elim (Bool-cases (j == k)) [
    | inl e ↦ (let q : j ≡ k = ground arith in rw q t)
    | inr e ↦ (a j (ground arith) ji)
  ]

  sin_libres : (b : T) (n k : ℕ) → libre_desde ba b n k ≡ none → libres_desde ba b n k ≡ 0
  unfolding libre_desde libres_desde
  sin_libres b zero k e = refl
  sin_libres b (suc n) k e = elim (Bool-cases (ba.test_bit b k)) [
    | inl t ↦
        (let nt : not (ba.test_bit b k) ≡ false = rw t refl in
          rw t (sin_libres b n (suc k) (sym (if_no _ _ _ nt) ∙ e)))
    | inr t ↦
        (let nt : not (ba.test_bit b k) ≡ true = rw t refl in
          let q : some k ≡ none = sym (if_si _ _ _ nt) ∙ e in cc)
  ]

  pub con_libre : (b : T) (n k i : ℕ) → libre_desde ba b n k ≡ some i → 0 < libres_desde ba b n k
  unfolding libre_desde libres_desde
  con_libre b zero k i e = cc
  con_libre b (suc n) k i e = elim (Bool-cases (ba.test_bit b k)) [
    | inl t ↦
        (let nt : not (ba.test_bit b k) ≡ false = rw t refl in
          rw t (con_libre b n (suc k) i (sym (if_no _ _ _ nt) ∙ e)))
    | inr t ↦ (rw t (omega arith))
  ]

  -- Outside the bits counted, a change does not count.
  libres-set_fuera :
      (b : T) (n k i : ℕ) → i < k → libres_desde ba (ba.set_bit b i) n k ≡ libres_desde ba b n k
  unfolding libres_desde
  libres-set_fuera b zero k i h = refl
  libres-set_fuera b (suc n) k i h =
      rw (ba.test-set_otro b i k (λ e. omega arith), libres-set_fuera b n (suc k) i (omega arith))
        refl

  libres-set_desde :
      (b : T) (n k i : ℕ)
      → i < ba.get_max_bit b
      → ba.test_bit b i ≡ false
      → k ≤ i
      → i < k + n
      → suc (libres_desde ba (ba.set_bit b i) n k) ≡ libres_desde ba b n k
  unfolding libres_desde
  libres-set_desde b zero k i m t l r = omega arith
  libres-set_desde b (suc n) k i m t l r = elim (Bool-cases (i == k)) [
    | inl e ↦
        (let q : i ≡ k = ground arith in
          rw (← q) (rw (ba.test-set b i m, t, libres-set_fuera b n (suc i) i (omega arith)) refl))
    | inr e ↦
        (let o : i ≢ k = λ q. ground arith in
          let r' = libres-set_desde b n (suc k) i m t (ground arith) (omega arith) in
          rw (ba.test-set_otro b i k o) (elim (Bool-cases (ba.test_bit b k)) [
            | inl u ↦ (rw u r')
            | inr u ↦ (rw u (ap suc r'))
          ]))
  ]

  -- Taking a free block leaves one free block less.
  pub libres-set :
      (b : T) (i : ℕ)
      → i < ba.get_max_bit b
      → ba.test_bit b i ≡ false
      → suc (cantidad_bloques_libres ba (ba.set_bit b i)) ≡ cantidad_bloques_libres ba b
  unfolding cantidad_bloques_libres
  libres-set b i m t =
      rw (ba.max-set b i)
        (libres-set_desde b (ba.get_max_bit b) 0 i m t (omega arith) (omega arith))

  libre_desde-ok :
      (b : T) (n k i : ℕ)
      → libre_desde ba b n k ≡ some i
      → (k ≤ i)
        × (i < k + n)
        × (ba.test_bit b i ≡ false)
        × ((j : ℕ) → k ≤ j → j < i → ba.test_bit b j ≡ true)
  unfolding libre_desde
  libre_desde-ok b zero k i e = cc
  libre_desde-ok b (suc n) k i e = elim (Bool-cases (ba.test_bit b k)) [
    | inl t ↦
        (let nt : not (ba.test_bit b k) ≡ false = rw t refl in
          let (l, r, f, a) = libre_desde-ok b n (suc k) i (sym (if_no _ _ _ nt) ∙ e) in
          (omega arith, omega arith, f, λ j kj ji. desde_siguiente b k i j t a kj ji))
    | inr t ↦
        (let nt : not (ba.test_bit b k) ≡ true = rw t refl in
          let q : some k ≡ some i = sym (if_si _ _ _ nt) ∙ e in
          let q' : k ≡ i = cc in
          (omega arith, omega arith, rw (← q') t, λ j kj ji. absurd (omega arith)))
  ]

  -- The search gives the lowest free block; where it gives none, the count of free blocks is 0.
  pub encontrar_primer_bit_libre_lem :
      (b : T)
      → ((i : ℕ) × (encontrar_primer_bit_libre ba b ≡ some i) × EsPrimerLibre ba b i)
        ⊎ ((encontrar_primer_bit_libre ba b ≡ none) × (cantidad_bloques_libres ba b ≡ 0))
  unfolding encontrar_primer_bit_libre cantidad_bloques_libres
  encontrar_primer_bit_libre_lem b =
      let n = ba.get_max_bit b in
      elim (Option-cases (libre_desde ba b n 0)) [
        | inl e ↦ inr (e, sin_libres b n 0 e)
        | inr (i, e) ↦
            (let (l, r, f, a) = libre_desde-ok b n 0 i e in
              inl (
                i,
                e,
                record {
                  en_rango = omega arith;
                  libre = f;
                  anteriores = λ j ji. a j (omega arith) ji;
                },
              ))
      ]
