-- ===== src/Ejemplos/Bibliotecas.antt =====
-- Concrete functions for the parameters of the model: a sort, a maximum, a bit array.
use tp_2024_2c_nachi_y_los_o.Comun.{
  ℕ, suc, ◌≡◌, refl, ◌≢◌, inl, inr, Bool, true, false, Option, none, some, List, [], ◌∷◌, arith,
  ◌==◌, if◌then◌else◌, Bool-cases, get_elem?, All, lt_int,
}
use mathlib.Core.List.{Permᴰ}
use mathlib.Core.List.Permᴰ.{nil, cons, swap, trans}
use tp_2024_2c_nachi_y_los_o.Memoria.Estado.{Particion}
use tp_2024_2c_nachi_y_los_o.Memoria.Particion.{Commons, Ordenada}
use tp_2024_2c_nachi_y_los_o.Memoria.Particion.Ordenada.{nada, una, mas}
use tp_2024_2c_nachi_y_los_o.Filesystem.Bitmap.{Bitarray}
use tp_2024_2c_nachi_y_los_o.Kernel.Estado.{Maximo}

-- Insertion sort.
unfoldable pub insertar :
    (Particion → Particion → Bool) → Particion → List Particion → List Particion
insertar antes p [] = p ∷ []
insertar antes p (q ∷ qs) = if antes q p then q ∷ insertar antes p qs else p ∷ q ∷ qs

unfoldable pub ordenar : (Particion → Particion → Bool) → List Particion → List Particion
unfolding insertar
ordenar antes [] = []
ordenar antes (p ∷ ps) = insertar antes p (ordenar antes ps)

igual_permᴰ : (ps : List Particion) → Permᴰ ps ps
igual_permᴰ [] = nil
igual_permᴰ (p ∷ ps) = cons refl (igual_permᴰ ps)

insertar-permᴰ :
    (antes : Particion → Particion → Bool) (p : Particion) (qs : List Particion)
    → Permᴰ (insertar antes p qs) (p ∷ qs)
unfolding insertar
insertar-permᴰ antes p [] = cons refl nil
insertar-permᴰ antes p (q ∷ qs) = elim (Bool-cases (antes q p)) [
  | inl t ↦ rw t (trans (cons refl (insertar-permᴰ antes p qs)) (swap refl refl))
  | inr t ↦ rw t (igual_permᴰ (p ∷ q ∷ qs))
]

pub ordenar-permᴰ :
    (antes : Particion → Particion → Bool) (ps : List Particion) → Permᴰ (ordenar antes ps) ps
unfolding ordenar
ordenar-permᴰ antes [] = nil
ordenar-permᴰ antes (p ∷ ps) =
    trans (insertar-permᴰ antes p (ordenar antes ps)) (cons refl (ordenar-permᴰ antes ps))

abbrev por : (Particion → ℕ) → Particion → Particion → Bool
por clave p q = lt_int (clave p) (clave q)

al_reves : (a b : ℕ) → lt_int a b ≡ true → lt_int b a ≡ false
al_reves a b h = ground arith

insertar-Ordenada :
    (clave : Particion → ℕ) (p : Particion) (qs : List Particion)
    → Ordenada clave qs
    → Ordenada clave (insertar (por clave) p qs)
unfolding insertar
insertar-Ordenada clave p [] h = una p
insertar-Ordenada clave p (q ∷ []) h = elim (Bool-cases (lt_int (clave q) (clave p))) [
  | inl t ↦ rw t (mas q p [] (al_reves _ _ t) (una p))
  | inr t ↦ rw t (mas p q [] t (una q))
]
insertar-Ordenada clave p (q ∷ r ∷ qs) (mas _ _ _ k h) =
    elim (Bool-cases (lt_int (clave q) (clave p))) [
      | inl t ↦ rw t (elim (Bool-cases (lt_int (clave r) (clave p))) [
        | inl u ↦ rw u (mas q r _ k (rw u at (insertar-Ordenada clave p (r ∷ qs) h)))
        | inr u ↦ rw u (mas q p _ (al_reves _ _ t) (mas p r qs u h))
      ])
      | inr t ↦ rw t (mas p q (r ∷ qs) t (mas q r qs k h))
    ]

pub ordenar-Ordenada :
    (clave : Particion → ℕ) (ps : List Particion) → Ordenada clave (ordenar (por clave) ps)
unfolding ordenar
ordenar-Ordenada clave [] = nada
ordenar-Ordenada clave (p ∷ ps) =
    insertar-Ordenada clave p (ordenar (por clave) ps) (ordenar-Ordenada clave ps)

-- The position of the smallest key, the first of those that are equal.
unfoldable pub menor : {A : Type 0} → (A → ℕ) → A → List A → ℕ × A
menor clave x [] = (0, x)
menor clave x (y ∷ ys) =
    let (i, z) = menor clave y ys in if lt_int (clave z) (clave x) then (suc i, z) else (0, x)

menor_que_todos :
    {A : Type 0} (clave : A → ℕ) (x z : A) (ys : List A)
    → lt_int (clave z) (clave x) ≡ false
    → All (λ y. lt_int (clave y) (clave z) ≡ false) ys
    → All (λ y. lt_int (clave y) (clave x) ≡ false) ys
menor_que_todos clave x z [] h k = tt
menor_que_todos clave x z (y ∷ ys) h k =
    let k0 = k.0 in
    (transitivo (clave y) (clave z) (clave x) k0 h, menor_que_todos clave x z ys h k.1)
  where
    transitivo : (a b c : ℕ) → lt_int a b ≡ false → lt_int b c ≡ false → lt_int a c ≡ false
    transitivo a b c h k = ground arith

propio : (a : ℕ) → lt_int a a ≡ false
propio a = ground arith

abbrev EsMenor : {A : Type 0} → (A → ℕ) → List A → ℕ × A → Type 0
EsMenor clave xs r =
    (get_elem? xs r.0 ≡ some r.1) × All (λ y. lt_int (clave y) (clave r.1) ≡ false) xs

paso-EsMenor :
    {A : Type 0} (clave : A → ℕ) (x : A) (ys : List A) (r : ℕ × A) (b : Bool)
    → lt_int (clave r.1) (clave x) ≡ b
    → EsMenor clave ys r
    → EsMenor clave (x ∷ ys) (if b then (suc r.0, r.1) else (0, x))
paso-EsMenor clave x ys r true t h = (h.0, (al_reves _ _ t, h.1))
paso-EsMenor clave x ys r false t h =
    (refl, (propio (clave x), menor_que_todos clave x r.1 ys t h.1))

pub menor-EsMenor :
    {A : Type 0} (clave : A → ℕ) (x : A) (xs : List A) → EsMenor clave (x ∷ xs) (menor clave x xs)
unfolding menor
menor-EsMenor clave x [] = (refl, (propio (clave x), tt))
menor-EsMenor clave x (y ∷ ys) =
    paso-EsMenor clave x (y ∷ ys) (menor clave y ys) _ refl (menor-EsMenor clave y ys)

-- The commons library of these examples.
unfoldable pub commons : Commons
commons = record {
  list_sort = ordenar;
  list_sort_perm = λ antes ps. ∣ ordenar-permᴰ antes ps ∣₁;
  list_sort_ordena = λ clave ps. ordenar-Ordenada clave ps;
}

abbrev posicion_menor : {A : Type 0} → (A → ℕ) → List A → Option ℕ
posicion_menor clave [] = none
posicion_menor clave (x ∷ xs) = some ((menor clave x xs).0)

unfoldable pub maximo : {A : Type 0} (clave : A → ℕ) → Maximo A clave
maximo clave = record {
  list_get_maximum = λ f xs. posicion_menor clave xs;
  maximo_elegir = λ x xs. (
    (menor clave x xs).0,
    (menor clave x xs).1,
    refl,
    (menor-EsMenor clave x xs).0,
    (menor-EsMenor clave x xs).1,
  );
}

pub bits_escritos : (f : ℕ → Bool) (i j : ℕ) (v : Bool) → i ≢ j → (if j == i then v else f j) ≡ f j
bits_escritos f i j v ne = ground arith

pub bit_escrito : (f : ℕ → Bool) (i : ℕ) (v : Bool) → (if i == i then v else f i) ≡ v
bit_escrito f i v = ground arith

-- A bit array: its size, and its bits as a function.
unfoldable pub bits : Bitarray (ℕ × (ℕ → Bool))
bits = record {
  get_max_bit = λ b. b.0;
  test_bit = λ b i. b.1 i;
  set_bit = λ b i. (b.0, λ j. if j == i then true else b.1 j);
  clean_bit = λ b i. (b.0, λ j. if j == i then false else b.1 j);
  max-set = λ b i. refl;
  max-clean = λ b i. refl;
  test-set = λ b i h. bit_escrito b.1 i true;
  test-clean = λ b i h. bit_escrito b.1 i false;
  test-set_otro = λ b i j ne. bits_escritos b.1 i j true ne;
  test-clean_otro = λ b i j ne. bits_escritos b.1 i j false ne;
}
