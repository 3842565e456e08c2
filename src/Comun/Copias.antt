-- ===== src/Comun/Copias.antt =====
-- Copies into and out of a block of memory: `none` is an access outside the block.
use Prim.Native.Nat.{ℕ, zero, suc, ◌+◌, ◌-◌, ◌≤◌, ◌<◌}
use mathlib.Core.Path.{◌≡◌, refl, sym, ap, ◌∙◌}
use mathlib.Core.Logic.{◌⊎◌, inl, inr}
use mathlib.Core.Bool.{false}
use mathlib.Core.Option.{Option, none, some}
use mathlib.Core.List.{List, [], ◌∷◌, ◌++◌}
use native.Mathlib.Omega.{arith}
use tp_2024_2c_nachi_y_los_o.Comun.Pruebas.{ltb, if◌then◌else◌}
use tp_2024_2c_nachi_y_los_o.Comun.Listas.{
  length, get_or, take, drop, length-append, take-append, drop-append,
}

-- `memcpy(bloque + dir, datos, n)`.
unfoldable pub copiar_en : List ℕ → ℕ → List ℕ → Option (List ℕ)
copiar_en bloque dir datos =
    if ltb (length bloque) (dir + length datos)
    then none
    else some (take dir bloque ++ (datos ++ drop (dir + length datos) bloque))

-- `memcpy(copia, bloque + dir, n)`.
unfoldable pub copiar_de : List ℕ → ℕ → ℕ → Option (List ℕ)
copiar_de bloque dir n =
    if ltb (length bloque) (dir + n) then none else some (take n (drop dir bloque))

-- The block after a copy.
abbrev pub tras_copia : List ℕ → ℕ → List ℕ → List ℕ
tras_copia bloque dir datos = take dir bloque ++ (datos ++ drop (dir + length datos) bloque)

-- Byte by byte: what a block holds after a copy into it.
abbrev pub byte_en : List ℕ → ℕ → ℕ
byte_en xs i = get_or xs i 0

pub get_or-take : (xs : List ℕ) (n i : ℕ) → i < n → byte_en (take n xs) i ≡ byte_en xs i
get_or-take xs zero i h = elim h [ ]
get_or-take [] (suc n) i h = refl
get_or-take (x ∷ xs) (suc n) zero h = refl
get_or-take (x ∷ xs) (suc n) (suc i) h = get_or-take xs n i (omega arith)

pub get_or-drop : (xs : List ℕ) (n i : ℕ) → byte_en (drop n xs) i ≡ byte_en xs (n + i)
get_or-drop xs zero i = ap (byte_en xs) (omega arith)
get_or-drop [] (suc n) i = refl
get_or-drop (x ∷ xs) (suc n) i =
    let e : suc (n + i) ≡ suc n + i = omega arith in get_or-drop xs n i ∙ ap (byte_en (x ∷ xs)) e

get_or-append_left : (xs ys : List ℕ) (i : ℕ) → i < length xs → byte_en (xs ++ ys) i ≡ byte_en xs i
get_or-append_left [] ys i h = elim h [ ]
get_or-append_left (x ∷ xs) ys zero h = refl
get_or-append_left (x ∷ xs) ys (suc i) h = get_or-append_left xs ys i (omega arith)

get_or-append_right : (xs ys : List ℕ) (i : ℕ) → byte_en (xs ++ ys) (length xs + i) ≡ byte_en ys i
get_or-append_right [] ys i = ap (byte_en ys) (omega arith)
get_or-append_right (x ∷ xs) ys i =
    let e : suc (length xs) + i ≡ suc (length xs + i) = omega arith in
    ap (byte_en (x ∷ (xs ++ ys))) e ∙ get_or-append_right xs ys i

pub length-take : (n : ℕ) (xs : List ℕ) → n ≤ length xs → length (take n xs) ≡ n
length-take zero xs h = refl
length-take (suc n) [] h = elim h [ ]
length-take (suc n) (x ∷ xs) h = ap suc (length-take n xs (omega arith))

pub length-drop : (n : ℕ) (xs : List ℕ) → n ≤ length xs → length (drop n xs) + n ≡ length xs
length-drop zero xs h = omega arith
length-drop (suc n) [] h = elim h [ ]
length-drop (suc n) (x ∷ xs) h = omega (arith, length-drop n xs)

take-length_append : (n : ℕ) (xs ys : List ℕ) → length xs ≡ n → take n (xs ++ ys) ≡ xs
take-length_append n xs ys e = rw (← e) (take-append xs ys)

drop-length_append : (n : ℕ) (xs ys : List ℕ) → length xs ≡ n → drop n (xs ++ ys) ≡ ys
drop-length_append n xs ys e = rw (← e) (drop-append xs ys)

drop_todo : (xs : List ℕ) → drop (length xs) xs ≡ []
drop_todo [] = refl
drop_todo (x ∷ xs) = drop_todo xs

pub cabe-copiar :
    (bloque datos nuevo : List ℕ) (dir : ℕ)
    → copiar_en bloque dir datos ≡ some nuevo
    → (dir + length datos ≤ length bloque)
      × (nuevo ≡ take dir bloque ++ (datos ++ drop (dir + length datos) bloque))
unfolding copiar_en
cabe-copiar bloque datos nuevo dir e = ground arith

pub copiar_en-total :
    (bloque datos : List ℕ) (dir : ℕ)
    → dir + length datos ≤ length bloque
    → copiar_en bloque dir datos
      ≡ some (take dir bloque ++ (datos ++ drop (dir + length datos) bloque))
unfolding copiar_en
copiar_en-total bloque datos dir h =
    let t : ltb (length bloque) (dir + length datos) ≡ false = ground arith in rw t refl

pub length-copiar :
    (bloque datos : List ℕ) (dir : ℕ)
    → dir + length datos ≤ length bloque
    → length (take dir bloque ++ (datos ++ drop (dir + length datos) bloque)) ≡ length bloque
length-copiar bloque datos dir h = omega (
  arith,
  length-append (take dir bloque) (datos ++ drop (dir + length datos) bloque),
  length-append datos (drop (dir + length datos) bloque),
  length-take dir bloque (omega arith),
  length-drop (dir + length datos) bloque h,
)

pub copiado :
    (bloque datos : List ℕ) (dir : ℕ)
    → dir + length datos ≤ length bloque
    → take
        (length datos)
        (drop dir (take dir bloque ++ (datos ++ drop (dir + length datos) bloque)))
      ≡ datos
copiado bloque datos dir h =
    rw
      (drop-length_append dir (take dir bloque) (datos ++ drop (dir + length datos) bloque)
        (length-take dir bloque (omega arith)))
      (take-append datos (drop (dir + length datos) bloque))

byte_antes :
    (bloque datos : List ℕ) (dir i : ℕ)
    → dir + length datos ≤ length bloque
    → i < dir
    → byte_en (tras_copia bloque dir datos) i ≡ byte_en bloque i
byte_antes bloque datos dir i h l =
    get_or-append_left (take dir bloque) _ i (omega (arith, length-take dir bloque (omega arith)))
    ∙ get_or-take bloque dir i l

byte_despues :
    (bloque datos : List ℕ) (dir i : ℕ)
    → dir + length datos ≤ length bloque
    → byte_en (tras_copia bloque dir datos) (dir + length datos + i)
      ≡ byte_en bloque (dir + length datos + i)
byte_despues bloque datos dir i h =
    let fin = drop (dir + length datos) bloque in
    let e : dir + length datos + i ≡ length (take dir bloque) + (length datos + i) =
      omega (arith, length-take dir bloque (omega arith)) in
    ap (byte_en (tras_copia bloque dir datos)) e
    ∙ get_or-append_right (take dir bloque) (datos ++ fin) (length datos + i)
    ∙ get_or-append_right datos fin i
    ∙ get_or-drop bloque (dir + length datos) i

pub byte_ajeno :
    (bloque datos : List ℕ) (dir i : ℕ)
    → dir + length datos ≤ length bloque
    → (i < dir) ⊎ (dir + length datos ≤ i)
    → byte_en (tras_copia bloque dir datos) i ≡ byte_en bloque i
byte_ajeno bloque datos dir i h (inl l) = byte_antes bloque datos dir i h l
byte_ajeno bloque datos dir i h (inr l) =
    let e : dir + length datos + (i - (dir + length datos)) ≡ i = omega arith in
    ap (byte_en (tras_copia bloque dir datos)) (sym e)
    ∙ byte_despues bloque datos dir (i - (dir + length datos)) h
    ∙ ap (byte_en bloque) e
