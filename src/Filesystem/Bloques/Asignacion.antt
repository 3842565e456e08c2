-- ===== src/Filesystem/Bloques/Asignacion.antt =====
-- The blocks that a file gets (filesystem/src/bloques.c).
use tp_2024_2c_nachi_y_los_o.Comun.{
  ℕ, zero, suc, ◌+◌, ◌≤◌, ◌<◌, ◌≡◌, refl, sym, ap, ◌∙◌, ◌≢◌, ◌⊎◌, inl, inr, true, false, some, List,
  [], ◌∷◌, arith, ltb, ◌==◌, Bool-cases, length, All,
}
use tp_2024_2c_nachi_y_los_o.Filesystem.Bitmap.{
  Bitarray, cantidad_bloques_libres, setear_bloque_bits,
}
use tp_2024_2c_nachi_y_los_o.Filesystem.Bitmap.Busqueda.{
  EsPrimerLibre, encontrar_primer_bit_libre_lem, libres-set,
}
use tp_2024_2c_nachi_y_los_o.Filesystem.Bloques.{asignar_bloques}

abbrev pub Esta : ℕ → List ℕ → Type 0
Esta j [] = ⊥
Esta j (x ∷ xs) = (j ≡ x) ⊎ Esta j xs

abbrev pub Distintos : List ℕ → Type 0
Distintos [] = Unit
Distintos (x ∷ xs) = All (λ j. x ≢ j) xs × Distintos xs

-- `indices` are `n` different blocks that were free in `b`; `b'` takes them and no other.
pub record EsAsignacion {ℓ} {T : Type ℓ} (ba : Bitarray T) (b : T) (n : ℕ) (b' : T)
    (indices : List ℕ) : Type ℓ where
  pub cantidad : length indices ≡ n
  pub mismo_tamanio : ba.get_max_bit b' ≡ ba.get_max_bit b
  pub quedan : cantidad_bloques_libres ba b' + n ≡ cantidad_bloques_libres ba b
  pub eran_libres : All (λ i. (i < ba.get_max_bit b) × (ba.test_bit b i ≡ false)) indices
  pub distintos : Distintos indices
  pub ocupados : All (λ i. ba.test_bit b' i ≡ true) indices
  pub ajenos : (j : ℕ) → (ba.test_bit b' j ≡ ba.test_bit b j) ⊎ Esta j indices

All-map : {P Q : ℕ → Type 0} (f : (i : ℕ) → P i → Q i) (xs : List ℕ) → All P xs → All Q xs
All-map f [] h = h
All-map f (x ∷ xs) h = (f x h.0, All-map f xs h.1)

no-Esta : (i : ℕ) (xs : List ℕ) → All (λ j. i ≢ j) xs → Esta i xs → ⊥
no-Esta i [] h e = e
no-Esta i (x ∷ xs) h (inl e) = h.0 e
no-Esta i (x ∷ xs) h (inr e) = no-Esta i xs h.1 e

module _ {ℓ} {T : Type ℓ} (ba : Bitarray T) where
  agregar_bloque :
      (b b' : T) (n i : ℕ) (is : List ℕ)
      → EsPrimerLibre ba b i
      → EsAsignacion ba (ba.set_bit b i) n b' is
      → EsAsignacion ba b (suc n) b' (i ∷ is)
  agregar_bloque b b' n i is p a =
      let ne : (j : ℕ) → ba.test_bit (ba.set_bit b i) j ≡ false → i ≢ j = λ j f q.
        let t : ba.test_bit (ba.set_bit b i) j ≡ true = rw (← q) (ba.test-set b i p.en_rango) in
        cc in
      let distinto = All-map (λ j h. ne j h.1) is a.eran_libres in
      record {
        cantidad = ap suc a.cantidad;
        mismo_tamanio = a.mismo_tamanio ∙ ba.max-set b i;
        quedan = omega (arith, a.quedan, libres-set ba b i p.en_rango p.libre);
        eran_libres = (
          (p.en_rango, p.libre),
          All-map
              (λ j h. (rw (← ba.max-set b i) h.0, sym (ba.test-set_otro b i j (ne j h.1)) ∙ h.1)) is
              a.eran_libres,
        );
        distintos = (distinto, a.distintos);
        ocupados = (
          elim (a.ajenos i) [
            | inl e ↦ e ∙ ba.test-set b i p.en_rango
            | inr e ↦ absurd (no-Esta i is distinto e)
          ],
          a.ocupados,
        );
        ajenos = λ j. elim (Bool-cases (i == j)) [
          | inl e ↦ inr (inl (ground arith))
          | inr e ↦ elim (a.ajenos j) [
            | inl q ↦ inl (q ∙ ba.test-set_otro b i j (λ w. ground arith))
            | inr q ↦ inr (inr q)
          ]
        ];
      }

  -- Where `n` blocks are free, the loop takes `n` blocks, each different and free before, and no
  -- other block changes.
  pub asignar_bloques-EsAsignacion :
      (n : ℕ) (b : T)
      → n ≤ cantidad_bloques_libres ba b
      → (b' : T) × (indices : List ℕ) × (asignar_bloques ba n b ≡ some (b', indices))
        × EsAsignacion ba b n b' indices
  unfolding asignar_bloques setear_bloque_bits
  asignar_bloques-EsAsignacion zero b h = (
    b,
    [],
    refl,
    record {
      cantidad = refl;
      mismo_tamanio = refl;
      quedan = omega arith;
      eran_libres = tt;
      distintos = tt;
      ocupados = tt;
      ajenos = λ j. inl refl;
    },
  )
  asignar_bloques-EsAsignacion (suc n) b h = elim (encontrar_primer_bit_libre_lem ba b) [
    | inl (i, e, p) ↦
        (let k = libres-set ba b i p.en_rango p.libre in
          let (b', is, f, a) = asignar_bloques-EsAsignacion n (ba.set_bit b i) (omega arith) in
          let t : ltb i (ba.get_max_bit b) ≡ true = (let l = p.en_rango in ground arith) in
          (b', i ∷ is, simp (e, t, f), agregar_bloque b b' n i is p a))
    | inr (e, z) ↦ absurd (omega arith)
  ]
