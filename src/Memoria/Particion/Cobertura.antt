-- ===== src/Memoria/Particion/Cobertura.antt =====
-- Which partitions hold an address, and what the operations of memoria/src/particion.c and
-- memoria/src/proceso.c do to it.
use tp_2024_2c_nachi_y_los_o.Comun.{
  some-injective, ℕ, zero, suc, ◌+◌, ◌≤◌, ◌<◌, ◌≡◌, refl, sym, ap, ◌∙◌, ◌&&◌, some, List, [], ◌∷◌,
  ◌++◌, arith, ltb, leb, if◌then◌else◌, get_elem?, set, All, mod32, add32,
}
use mathlib.Core.List.{Perm, Permᴰ}
use mathlib.Core.List.Permᴰ.{nil, cons, swap, trans}
use mathlib.Core.HLevel.{×_prop}
use native.Mathlib.Bridge.{le_prop}
use mathlib.Core.Logic.{∥∥₁_elim}
use native.Mathlib.Nat.{ℕ_set}
use tp_2024_2c_nachi_y_los_o.Memoria.Estado.{Particion}

-- 1 if the address lies in the partition.
unfoldable pub contiene : ℕ → Particion → ℕ
contiene a p = if leb p.base a && ltb a (p.base + p.tamanio) then 1 else 0

-- How many partitions of the list hold the address.
unfoldable pub cubre : ℕ → List Particion → ℕ
cubre a [] = 0
cubre a (p ∷ ps) = contiene a p + cubre a ps

-- 1 if the address lies in the partition, and the partition is free.
abbrev pub contiene_libre : ℕ → Particion → ℕ
contiene_libre a p = if p.esta_ocupada then 0 else contiene a p

-- How many free partitions of the list hold the address.
unfoldable pub cubre_libre : ℕ → List Particion → ℕ
cubre_libre a [] = 0
cubre_libre a (p ∷ ps) = contiene_libre a p + cubre_libre a ps

pub cubre_libre-set :
    (a : ℕ) (ps : List Particion) (i : ℕ) (p q : Particion)
    → get_elem? ps i ≡ some p
    → cubre_libre a (set ps i q) + contiene_libre a p ≡ cubre_libre a ps + contiene_libre a q
unfolding cubre_libre
cubre_libre-set a [] i p q e = cc
cubre_libre-set a (x ∷ ps) zero p q e =
    let f : contiene_libre a x ≡ contiene_libre a p =
      ap (contiene_libre a) (some-injective _ _ e) in
    omega (arith, f)
cubre_libre-set a (x ∷ ps) (suc i) p q e = omega (arith, cubre_libre-set a ps i p q e)

cubre_libre-permᴰ :
    (a : ℕ) {ps qs : List Particion} → Permᴰ ps qs → cubre_libre a ps ≡ cubre_libre a qs
unfolding cubre_libre
cubre_libre-permᴰ a nil = refl
cubre_libre-permᴰ a (cons e h) = omega (arith, ap (contiene_libre a) e, cubre_libre-permᴰ a h)
cubre_libre-permᴰ a (swap e f) = omega (arith, ap (contiene_libre a) e, ap (contiene_libre a) f)
cubre_libre-permᴰ a (trans h k) = cubre_libre-permᴰ a h ∙ cubre_libre-permᴰ a k

pub cubre_libre-perm :
    (a : ℕ) (ps qs : List Particion) → Perm ps qs → cubre_libre a ps ≡ cubre_libre a qs
cubre_libre-perm a ps qs h = ∥∥₁_elim h (ℕ_set _ _) (cubre_libre-permᴰ a)

pub cubre-append : (a : ℕ) (ps qs : List Particion) → cubre a (ps ++ qs) ≡ cubre a ps + cubre a qs
unfolding cubre
cubre-append a [] qs = omega arith
cubre-append a (p ∷ ps) qs = omega (arith, cubre-append a ps qs)

-- Writing over a partition changes the count by the difference of the two.
pub cubre-set :
    (a : ℕ) (ps : List Particion) (i : ℕ) (p q : Particion)
    → get_elem? ps i ≡ some p
    → cubre a (set ps i q) + contiene a p ≡ cubre a ps + contiene a q
unfolding cubre
cubre-set a [] i p q e = cc
cubre-set a (x ∷ ps) zero p q e = ground arith
cubre-set a (x ∷ ps) (suc i) p q e = omega (arith, cubre-set a ps i p q e)

cubre-permᴰ : (a : ℕ) {ps qs : List Particion} → Permᴰ ps qs → cubre a ps ≡ cubre a qs
unfolding cubre
cubre-permᴰ a nil = refl
cubre-permᴰ a (cons e h) = omega (arith, ap (contiene a) e, cubre-permᴰ a h)
cubre-permᴰ a (swap e f) = omega (arith, ap (contiene a) e, ap (contiene a) f)
cubre-permᴰ a (trans h k) = cubre-permᴰ a h ∙ cubre-permᴰ a k

pub cubre-perm : (a : ℕ) (ps qs : List Particion) → Perm ps qs → cubre a ps ≡ cubre a qs
cubre-perm a ps qs h = ∥∥₁_elim h (ℕ_set _ _) (cubre-permᴰ a)

-- The last address of a partition and its size agree, and it lies in the memory. Sums of `int`
-- that are below 2 ^ 31 do not wrap; the partition of size 0 at base 0 ends at -1.
pub record EsBuena (tam : ℕ) (p : Particion) : Type 0 where
  pub limite : add32 p.limite 1 ≡ p.base + p.tamanio
  pub dentro : p.base + p.tamanio ≤ tam
  pub patron : p.limite < mod32

-- The partitions share out the memory: every address below `tam` lies in exactly one of them, and
-- no other address in any.
pub record EsMosaico (tam : ℕ) (ps : List Particion) : Type 0 where
  pub cubre_una : (a : ℕ) → cubre a ps ≡ (if ltb a tam then 1 else 0)
  pub buenas : All (EsBuena tam) ps

pub EsBuena-prop : (tam : ℕ) (p : Particion) → IsProp (EsBuena tam p)
EsBuena-prop tam p = hlevel (le_prop, ℕ_set)

All-prop : (tam : ℕ) (ps : List Particion) → IsProp (All (EsBuena tam) ps)
All-prop tam [] = hlevel
All-prop tam (p ∷ ps) = ×_prop (EsBuena-prop tam p) (All-prop tam ps)

All-permᴰ :
    (tam : ℕ) {ps qs : List Particion} → Permᴰ ps qs → All (EsBuena tam) ps → All (EsBuena tam) qs
All-permᴰ tam nil h = h
All-permᴰ tam (cons e p) h = (rw (← e) (h.0), All-permᴰ tam p h.1)
All-permᴰ tam (swap e f) h = (rw (← f) (h.1.0), (rw (← e) (h.0), h.1.1))
All-permᴰ tam (trans p q) h = All-permᴰ tam q (All-permᴰ tam p h)

-- The order of the list does not matter.
pub EsMosaico-perm :
    (tam : ℕ) (ps qs : List Particion) → Perm ps qs → EsMosaico tam ps → EsMosaico tam qs
EsMosaico-perm tam ps qs h m = record {
  cubre_una = λ a. sym (cubre-perm a ps qs h) ∙ m.cubre_una a;
  buenas = ∥∥₁_elim h (All-prop tam qs) (λ p. All-permᴰ tam p m.buenas);
}
