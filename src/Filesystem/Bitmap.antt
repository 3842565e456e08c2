-- ===== src/Filesystem/Bitmap.antt =====
-- The bitmap of the blocks: filesystem/src/bitmap.c. The bit array of the commons library is the
-- parameter `Bitarray`: its operations, and what they do to the bits in range.
pub mod Busqueda
use tp_2024_2c_nachi_y_los_o.Comun.{
  ℕ, zero, suc, ◌+◌, ◌-◌, ◌*◌, ◌/◌, ◌%◌, ◌^◌, ◌≤◌, ◌<◌, ◌≡◌, refl, sym, ap, ◌∙◌, ◌≢◌, ◌↔◌, ◌⊎◌, inl,
  inr, Bool, true, false, not, ◌&&◌, ◌||◌, Option, none, some, List, [], ◌∷◌, ◌++◌, map, arith, ltb,
  leb, ◌==◌, if◌then◌else◌, ltb→lt, leb→le, ==_iff, Bool-cases, Option-cases, ◌>>=◌, >>=-eq-some,
  if_si, if_no, codes, copiar_en, copiar_de, byte_en, tras_copia, cabe-copiar, copiar_en-total,
  length-copiar, copiado, byte_ajeno, get_or-take, get_or-drop, length-take, length-drop, length,
  get_elem?, get_or, set, take, drop, All, length-append, take-append, drop-append, length-set,
  get_elem?-set_self, get_elem?-set_ne, All-append, All-set, All-get_elem?, mod32, menos_uno, add32,
  sub32, lt_int, menor_length,
}

-- `t_bitarray` of so-commons-library.
pub record Bitarray {ℓ} (T : Type ℓ) : Type ℓ where
  pub get_max_bit : T → ℕ
  pub test_bit : T → ℕ → Bool
  pub set_bit : T → ℕ → T
  pub clean_bit : T → ℕ → T
  pub max-set : (b : T) (i : ℕ) → get_max_bit (set_bit b i) ≡ get_max_bit b
  pub max-clean : (b : T) (i : ℕ) → get_max_bit (clean_bit b i) ≡ get_max_bit b
  pub test-set : (b : T) (i : ℕ) → i < get_max_bit b → test_bit (set_bit b i) i ≡ true
  pub test-clean : (b : T) (i : ℕ) → i < get_max_bit b → test_bit (clean_bit b i) i ≡ false
  pub test-set_otro : (b : T) (i j : ℕ) → i ≢ j → test_bit (set_bit b i) j ≡ test_bit b j
  pub test-clean_otro : (b : T) (i j : ℕ) → i ≢ j → test_bit (clean_bit b i) j ≡ test_bit b j

module _ {ℓ} {T : Type ℓ} (ba : Bitarray T) where
  -- The loop of `encontrar_primer_bit_libre`, by the rounds that are left.
  unfoldable pub libre_desde : T → ℕ → ℕ → Option ℕ
  libre_desde b zero i = none
  libre_desde b (suc n) i = if not (ba.test_bit b i) then some i else libre_desde b n (suc i)

  -- `none` is -1.
  unfoldable pub encontrar_primer_bit_libre : T → Option ℕ
  encontrar_primer_bit_libre b = libre_desde b (ba.get_max_bit b) 0

  -- The loop of `cantidad_bloques_libres`, by the rounds that are left.
  unfoldable pub libres_desde : T → ℕ → ℕ → ℕ
  libres_desde b zero i = 0
  libres_desde b (suc n) i =
      let resto = libres_desde b n (suc i) in if not (ba.test_bit b i) then suc resto else resto

  unfoldable pub cantidad_bloques_libres : T → ℕ
  cantidad_bloques_libres b = libres_desde b (ba.get_max_bit b) 0

  -- An index out of range is an access outside the array.
  unfoldable pub setear_bloque_bits : T → ℕ → Option T
  setear_bloque_bits b indice =
      if ltb indice (ba.get_max_bit b) then some (ba.set_bit b indice) else none

  unfoldable pub cleanear_bloque_bits : T → ℕ → Option T
  cleanear_bloque_bits b indice =
      if ltb indice (ba.get_max_bit b) then some (ba.clean_bit b indice) else none
