-- ===== src/Comun/Pruebas.antt =====
-- Boolean tests on the native numbers, the conditional, and the sequencing of fallible steps.
use Prim.Native.Nat.{ℕ, ◌≤◌, ◌<◌, compare, Ordering}
use Prim.Native.Char.{code}
use Prim.Native.String.{String}
use mathlib.Core.Path.{◌≡◌, refl, ap}
use mathlib.Core.Logic.{◌↔◌, ◌⊎◌, inl, inr}
use mathlib.Core.Bool.{Bool, true, false}
use mathlib.Core.Option.{Option, none, some, some-injective}
use mathlib.Core.List.{List, [], ◌∷◌}
use native.Mathlib.Omega.{arith}

abbrev pub ltb : ℕ → ℕ → Bool
ltb a b = elim (compare a b) [ Ordering.lt ↦ true | _ ↦ false ]

abbrev pub leb : ℕ → ℕ → Bool
leb a b = elim (compare a b) [ Ordering.gt ↦ false | _ ↦ true ]

infix 50 ◌==◌
abbrev pub ◌==◌ : ℕ → ℕ → Bool
a == b = elim (compare a b) [ Ordering.eq ↦ true | _ ↦ false ]

infix 1 if◌then◌else◌
abbrev pub if◌then◌else◌ {ℓ} : {A : Type ℓ} → Bool → A → A → A
if true then x else y = x
if false then x else y = y

pub ltb→lt : (a b : ℕ) → ltb a b ≡ true → a < b
ltb→lt a b h = ground arith

pub leb→le : (a b : ℕ) → leb a b ≡ true → a ≤ b
leb→le a b h = ground arith

pub ==_iff : (a b : ℕ) → ((a == b) ≡ true) ↔ (a ≡ b)
==_iff a b = ground arith

pub Bool-cases : (b : Bool) → (b ≡ true) ⊎ (b ≡ false)
Bool-cases true = inl refl
Bool-cases false = inr refl

pub Option-cases {ℓ} : {A : Type ℓ} (o : Option A) → (o ≡ none) ⊎ ((a : A) × (o ≡ some a))
Option-cases none = inl refl
Option-cases (some a) = inr (a, refl)

-- The next step runs on the value of the one before, if there is one.
infixl 5 ◌>>=◌
abbrev pub ◌>>=◌ {ℓ κ} : {A : Type ℓ} {B : Type κ} → Option A → (A → Option B) → Option B
none >>= f = none
some a >>= f = f a

pub >>=-eq-some {ℓ κ} :
    {A : Type ℓ} {B : Type κ} (m : Option A) (f : A → Option B) {b : B}
    → (m >>= f) ≡ some b
    → (a : A) × (m ≡ some a) × (f a ≡ some b)
>>=-eq-some none f h = cc
>>=-eq-some (some a) f h = (a, refl, h)

-- The bytes of an ASCII text.
abbrev pub codes : String → List ℕ
codes String.[] = []
codes (String.◌∷◌ c s) = code c ∷ codes s

pub if_si {ℓ} : {A : Type ℓ} (b : Bool) (x y : A) → b ≡ true → (if b then x else y) ≡ x
if_si b x y t = rw t refl

pub if_no {ℓ} : {A : Type ℓ} (b : Bool) (x y : A) → b ≡ false → (if b then x else y) ≡ y
if_no b x y t = rw t refl

-- Both parts of a pair that is returned.
pub some_par {ℓ κ} :
    {A : Type ℓ} {B : Type κ} (x y : A × B) → some x ≡ some y → (x.0 ≡ y.0) × (x.1 ≡ y.1)
some_par x y e = let q = some-injective _ _ e in (ap (λ z. z.0) q, ap (λ z. z.1) q)

-- The two cases of a search: NULL, and what was found.
abbrev pub opcion {ℓ κ} : {A : Type ℓ} {B : Type κ} → Option A → B → (A → B) → B
opcion none n f = n
opcion (some a) n f = f a

pub opcion-cases {ℓ κ} :
    {A : Type ℓ} {B : Type κ} (o : Option A) (n : B) (f : A → B) (x : B)
    → opcion o n f ≡ x
    → ((o ≡ none) × (n ≡ x)) ⊎ ((a : A) × (o ≡ some a) × (f a ≡ x))
opcion-cases none n f x e = inl (refl, e)
opcion-cases (some a) n f x e = inr (a, refl, e)

pub if-cases {ℓ} :
    {A : Type ℓ} (b : Bool) (y z x : A)
    → (if b then y else z) ≡ x
    → ((b ≡ true) × (y ≡ x)) ⊎ ((b ≡ false) × (z ≡ x))
if-cases true y z x e = inl (refl, e)
if-cases false y z x e = inr (refl, e)

pub opcion-some {ℓ κ} :
    {A : Type ℓ} {B : Type κ} (o : Option A) (n : B) (f : A → B) (a : A)
    → o ≡ some a
    → opcion o n f ≡ f a
opcion-some o n f a e = rw e refl

pub >>=-some {ℓ κ} :
    {A : Type ℓ} {B : Type κ} (m : Option A) (f : A → Option B) (a : A)
    → m ≡ some a
    → (m >>= f) ≡ f a
>>=-some m f a e = rw e refl
