-- ===== src/Memoria/Particion/Busqueda.antt =====
-- What the searches of memoria/src/particion.c find.
use tp_2024_2c_nachi_y_los_o.Comun.{
  ℕ, zero, suc, ◌+◌, ◌≡◌, refl, inl, inr, Bool, true, false, ◌&&◌, Option, none, some, List, [],
  ◌∷◌, ◌++◌, arith, ◌==◌, if◌then◌else◌, ==_iff, Bool-cases, length, get_elem?, take, All,
  length-append, All-append, lt_int,
}
use mathlib.Core.List.{append-nil, append_assoc}
use tp_2024_2c_nachi_y_los_o.Memoria.Estado.{AlgoritmoBusqueda, first, best, worst, Particion}
use tp_2024_2c_nachi_y_los_o.Memoria.Particion.{
  Puntero, buscar_particion_por_id, buscar_id_desde, apta, primera_desde,
  obtener_primera_particion_libre, peor_desde, obtener_peor_particion_libre, mejor_desde,
  obtener_mejor_particion_libre, obtener_particion_a_asignar, gana_a, mayor_que, menor_que,
}

-- Where a search with a running position ends: nothing fits, or the first that does.
abbrev PrimeraEn : (Particion → Bool) → ℕ → List Particion → Option Puntero → Type 0
PrimeraEn sirve i ps none = All (λ q. sirve q ≡ false) ps
PrimeraEn sirve i ps (some (j, p)) =
    (k : ℕ) × (j ≡ i + k)
    × (get_elem? ps k ≡ some p)
    × (sirve p ≡ true)
    × All (λ q. sirve q ≡ false) (take k ps)

PrimeraEn-cons :
    (sirve : Particion → Bool) (i : ℕ) (p : Particion) (ps : List Particion) (r : Option Puntero)
    → sirve p ≡ false
    → PrimeraEn sirve (suc i) ps r
    → PrimeraEn sirve i (p ∷ ps) r
PrimeraEn-cons sirve i p ps none h e = (h, e)
PrimeraEn-cons sirve i p ps (some (j, q)) h (k, e, g, s, a) = (suc k, omega arith, g, s, (h, a))

primera_desde-PrimeraEn :
    (t i : ℕ) (ps : List Particion) → PrimeraEn (apta t) i ps (primera_desde t i ps)
unfolding primera_desde
primera_desde-PrimeraEn t i [] = tt
primera_desde-PrimeraEn t i (p ∷ ps) = elim (Bool-cases (apta t p)) [
  | inl h ↦ rw h (0, omega arith, refl, h, tt)
  | inr h ↦ rw h (PrimeraEn-cons (apta t) i p ps _ h (primera_desde-PrimeraEn t (suc i) ps))
]

buscar_id-PrimeraEn :
    (i id : ℕ) (ps : List Particion)
    → PrimeraEn (λ q. q.particion_id == id) i ps (buscar_id_desde i id ps)
unfolding buscar_id_desde
buscar_id-PrimeraEn i id [] = tt
buscar_id-PrimeraEn i id (p ∷ ps) = elim (Bool-cases (p.particion_id == id)) [
  | inl h ↦ rw h (0, omega arith, refl, h, tt)
  | inr h ↦ rw h (PrimeraEn-cons _ i p ps _ h (buscar_id-PrimeraEn (suc i) id ps))
]

-- The best so far among the partitions already seen, by a relation that it has to all that fit.
abbrev MejorDe : (Particion → Particion → Type 0) → ℕ → List Particion → Option Puntero → Type 0
MejorDe R t ps none = All (λ q. apta t q ≡ false) ps
MejorDe R t ps (some (j, p)) =
    (get_elem? ps j ≡ some p) × (apta t p ≡ true) × All (λ q. apta t q ≡ true → R p q) ps

get_elem?-snoc :
    (ps : List Particion) (p : Particion) → get_elem? (ps ++ p ∷ []) (length ps) ≡ some p
get_elem?-snoc [] p = refl
get_elem?-snoc (x ∷ ps) p = get_elem?-snoc ps p

pub get_elem?-append :
    (ps qs : List Particion) (i : ℕ) (p : Particion)
    → get_elem? ps i ≡ some p
    → get_elem? (ps ++ qs) i ≡ some p
get_elem?-append [] qs i p e = cc
get_elem?-append (x ∷ ps) qs zero p e = e
get_elem?-append (x ∷ ps) qs (suc i) p e = get_elem?-append ps qs i p e

-- One round of a loop that keeps the best: `gana p q` lets `p` take the place of `q`.
module _ (gana : Particion → Particion → Bool) where
  abbrev NoPierde : Particion → Particion → Type 0
  NoPierde p q = gana q p ≡ false

  module _ (propio : (p : Particion) → gana p p ≡ false)
      (cambio : (p q x : Particion) → gana p q ≡ true → gana x q ≡ false → gana x p ≡ false) where
    todos_pierden :
        (t : ℕ) (p q : Particion) (ps : List Particion)
        → gana p q ≡ true
        → All (λ x. apta t x ≡ true → NoPierde q x) ps
        → All (λ x. apta t x ≡ true → NoPierde p x) ps
    todos_pierden t p q [] g h = tt
    todos_pierden t p q (x ∷ ps) g h = (λ a. cambio p q x g (h.0 a), todos_pierden t p q ps g h.1)

    ninguna_apta :
        (t : ℕ) (p : Particion) (ps : List Particion)
        → All (λ x. apta t x ≡ false) ps
        → All (λ x. apta t x ≡ true → NoPierde p x) ps
    ninguna_apta t p [] h = tt
    ninguna_apta t p (x ∷ ps) h = (λ a. cc (h.0, a), ninguna_apta t p ps h.1)

    MejorDe-snoc :
        (t : ℕ) (ps : List Particion) (p : Particion) (r : Option Puntero)
        → MejorDe NoPierde t ps r
        → MejorDe NoPierde t
            (ps ++ p ∷ [])
            (if apta t p && gana_a gana p r then some (length ps, p) else r)
    MejorDe-snoc t ps p none h = elim (Bool-cases (apta t p)) [
      | inl a ↦ rw a (
        get_elem?-snoc ps p,
        a,
        All-append (λ x. apta t x ≡ true → NoPierde p x) ps (p ∷ []) (ninguna_apta t p ps h)
            (λ _. propio p, tt),
      )
      | inr a ↦ rw a (All-append (λ x. apta t x ≡ false) ps (p ∷ []) h (a, tt))
    ]
    MejorDe-snoc t ps p (some (j, q)) (e, s, h) = elim (Bool-cases (apta t p && gana p q)) [
      | inl a ↦ rw a (
        get_elem?-snoc ps p,
        ground arith,
        All-append (λ x. apta t x ≡ true → NoPierde p x) ps (p ∷ [])
            (todos_pierden t p q ps (ground arith) h) (λ _. propio p, tt),
      )
      | inr a ↦ rw a (
        get_elem?-append ps (p ∷ []) j q e,
        s,
        All-append (λ x. apta t x ≡ true → NoPierde q x) ps (p ∷ []) h (λ b. ground arith, tt),
      )
    ]

menor_mayor : (a b c : ℕ) → lt_int a b ≡ true → lt_int a c ≡ false → lt_int b c ≡ false
menor_mayor a b c h k = ground arith

mayor_menor : (a b c : ℕ) → lt_int b a ≡ true → lt_int c a ≡ false → lt_int c b ≡ false
mayor_menor a b c h k = ground arith

propio_lt : (a : ℕ) → lt_int a a ≡ false
propio_lt a = ground arith

length-snoc : (ps : List Particion) (p : Particion) → length (ps ++ p ∷ []) ≡ suc (length ps)
length-snoc ps p = omega (arith, length-append ps (p ∷ []))

peor_desde-MejorDe :
    (t : ℕ) (vistas ps : List Particion) (r : Option Puntero)
    → MejorDe (NoPierde mayor_que) t vistas r
    → MejorDe (NoPierde mayor_que) t (vistas ++ ps) (peor_desde t (length vistas) ps r)
unfolding peor_desde
peor_desde-MejorDe t vistas [] r h = rw append-nil h
peor_desde-MejorDe t vistas (p ∷ ps) r h =
    rw (append_assoc vistas (p ∷ []) ps, length-snoc vistas p) at
      (peor_desde-MejorDe t (vistas ++ p ∷ []) ps
        (if apta t p && gana_a mayor_que p r then some (length vistas, p) else r)
        (MejorDe-snoc mayor_que (λ q. propio_lt q.tamanio)
          (λ q x y. menor_mayor x.tamanio q.tamanio y.tamanio) t vistas p r h))

mejor_desde-MejorDe :
    (t : ℕ) (vistas ps : List Particion) (r : Option Puntero)
    → MejorDe (NoPierde menor_que) t vistas r
    → MejorDe (NoPierde menor_que) t (vistas ++ ps) (mejor_desde t (length vistas) ps r)
unfolding mejor_desde
mejor_desde-MejorDe t vistas [] r h = rw append-nil h
mejor_desde-MejorDe t vistas (p ∷ ps) r h =
    rw (append_assoc vistas (p ∷ []) ps, length-snoc vistas p) at
      (mejor_desde-MejorDe t (vistas ++ p ∷ []) ps
        (if apta t p && gana_a menor_que p r then some (length vistas, p) else r)
        (MejorDe-snoc menor_que (λ q. propio_lt q.tamanio)
          (λ q x y. mayor_menor x.tamanio q.tamanio y.tamanio) t vistas p r h))

-- Which of the partitions that fit each algorithm prefers: FIRST the first, WORST one that no other
-- exceeds, BEST one that exceeds no other. Sizes are compared as `int`.
abbrev pub Preferida : AlgoritmoBusqueda → ℕ → ℕ → Particion → List Particion → Type 0
Preferida first t j p ps = All (λ q. apta t q ≡ false) (take j ps)
Preferida worst t j p ps = All (λ q. apta t q ≡ true → lt_int p.tamanio q.tamanio ≡ false) ps
Preferida best t j p ps = All (λ q. apta t q ≡ true → lt_int q.tamanio p.tamanio ≡ false) ps

abbrev pub Elegida : AlgoritmoBusqueda → ℕ → List Particion → Option Puntero → Type 0
Elegida a t ps none = All (λ q. apta t q ≡ false) ps
Elegida a t ps (some (j, p)) = (get_elem? ps j ≡ some p) × (apta t p ≡ true) × Preferida a t j p ps

primera-Elegida :
    (t : ℕ) (ps : List Particion) (r : Option Puntero)
    → PrimeraEn (apta t) 0 ps r
    → Elegida first t ps r
primera-Elegida t ps none h = h
primera-Elegida t ps (some (j, p)) (k, e, g, s, a) =
    let i : k ≡ j = omega arith in (rw i at g, s, rw i at a)

MejorDe-Elegida :
    (a : AlgoritmoBusqueda) (R : Particion → Particion → Type 0) (t : ℕ) (ps : List Particion)
    (r : Option Puntero)
    → ((j : ℕ) (p : Particion) → All (λ q. apta t q ≡ true → R p q) ps → Preferida a t j p ps)
    → MejorDe R t ps r
    → Elegida a t ps r
MejorDe-Elegida a R t ps none f h = h
MejorDe-Elegida a R t ps (some (j, p)) f (e, s, h) = (e, s, f j p h)

-- The search `obtener_particion_a_asignar` returns a partition of the list at its position, free and
-- no smaller than the size asked for, the one that the configured algorithm prefers; it returns NULL
-- only if no partition of the list is free and large enough.
pub obtener_particion_a_asignar-Elegida :
    (a : AlgoritmoBusqueda) (t : ℕ) (ps : List Particion)
    → Elegida a t ps (obtener_particion_a_asignar a t ps)
unfolding obtener_particion_a_asignar obtener_primera_particion_libre obtener_peor_particion_libre
    obtener_mejor_particion_libre
obtener_particion_a_asignar-Elegida first t ps =
    primera-Elegida t ps _ (primera_desde-PrimeraEn t 0 ps)
obtener_particion_a_asignar-Elegida worst t ps =
    MejorDe-Elegida worst (NoPierde mayor_que) t ps _ (λ j p h. h)
      (peor_desde-MejorDe t [] ps none tt)
obtener_particion_a_asignar-Elegida best t ps =
    MejorDe-Elegida best (NoPierde menor_que) t ps _ (λ j p h. h)
      (mejor_desde-MejorDe t [] ps none tt)

-- `buscar_particion_por_id` returns a partition of the list with that id, at its position.
pub buscar_particion_por_id-get_elem? :
    (id j : ℕ) (p : Particion) (ps : List Particion)
    → buscar_particion_por_id id ps ≡ some (j, p)
    → (get_elem? ps j ≡ some p) × (p.particion_id ≡ id)
unfolding buscar_particion_por_id
buscar_particion_por_id-get_elem? id j p ps e =
    let h : PrimeraEn (λ q. q.particion_id == id) 0 ps (some (j, p)) =
      rw e at (buscar_id-PrimeraEn 0 id ps) in
    let i : h.0 ≡ j = omega (arith, h.1) in (rw i at (h.2), (==_iff _ _).0 h.3)
