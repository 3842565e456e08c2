-- ===== src/Filesystem/Bloques.antt =====
-- Blocks of a file: filesystem/src/bloques.c. `none` is an access outside the blocks, the bitmap or
-- the message. `BLOCK_SIZE` is `block_size`, the memory mapped file is the list of its bytes.
pub mod Asignacion
use tp_2024_2c_nachi_y_los_o.Comun.{
  ℕ, zero, suc, ◌+◌, ◌*◌, ◌≡◌, Bool, ◌||◌, Option, none, some, List, [], ◌∷◌, ◌++◌, ltb, ◌==◌,
  if◌then◌else◌, ◌>>=◌, length, take, drop, copiar_en, copiar_de,
}
use tp_2024_2c_nachi_y_los_o.Utils.Paquete.Bytes.{bytes_int, leer_int}
use tp_2024_2c_nachi_y_los_o.Filesystem.Bitmap.{
  Bitarray, encontrar_primer_bit_libre, setear_bloque_bits,
}
use tp_2024_2c_nachi_y_los_o.Filesystem.Fcb.{Fcb}

-- The rounds of `for(i = 0; i < n; i++)`, for an `int` n.
abbrev pub vueltas : ℕ → ℕ
vueltas n = if ltb n 2147483648 then n else 0

unfoldable pub escribir_data_en_bloque : List ℕ → ℕ → List ℕ → Option (List ℕ)
unfolding copiar_en
escribir_data_en_bloque bloques indice valor = copiar_en bloques indice valor

unfoldable pub leer_data_de_bloque : ℕ → List ℕ → ℕ → ℕ → Option (List ℕ)
unfolding copiar_de
leer_data_de_bloque block_size bloques indice tamanio =
    copiar_de bloques (indice * block_size) tamanio

module _ {ℓ} {T : Type ℓ} (ba : Bitarray T) where
  -- The loop of `asignar_bloques_de_datos`, by the rounds that are left: the blocks it adds.
  unfoldable pub asignar_bloques : ℕ → T → Option (T × List ℕ)
  asignar_bloques zero b = some (b, [])
  asignar_bloques (suc n) b = do
    indice ← encontrar_primer_bit_libre ba b
    b' ← setear_bloque_bits ba b indice
    (b'', indices) ← asignar_bloques n b'
    some (b'', indice ∷ indices)

  unfoldable pub asignar_bloques_de_datos : T → Fcb → Option (T × Fcb)
  unfolding asignar_bloques
  asignar_bloques_de_datos b f = do
    (b', indices) ← asignar_bloques (vueltas f.tamanio_en_bloques) b
    some (b', record f { indice_bloques_de_datos = f.indice_bloques_de_datos ++ indices })

  unfoldable pub asignar_bloque_de_indice : T → Fcb → Option (T × Fcb)
  asignar_bloque_de_indice b f = do
    indice ← encontrar_primer_bit_libre ba b
    b' ← setear_bloque_bits ba b indice
    some (b', record f { indice_bloque_indice = indice })

-- The loop that fills the buffer with the first `n` numbers of the list.
unfoldable pub indices_en_bytes : ℕ → List ℕ → Option (List ℕ)
indices_en_bytes zero is = some []
indices_en_bytes (suc n) [] = none
indices_en_bytes (suc n) (i ∷ is) = indices_en_bytes n is >>= λ resto. some (bytes_int i ++ resto)

-- `sin_iniciar` is what `malloc` leaves behind the bytes that the loop sets.
unfoldable pub escribir_bloque_de_indice : ℕ → (ℕ → List ℕ) → List ℕ → Fcb → Option (List ℕ)
unfolding indices_en_bytes escribir_data_en_bloque
escribir_bloque_de_indice block_size sin_iniciar bloques f = do
  escritos ← indices_en_bytes (vueltas f.tamanio_en_bloques) f.indice_bloques_de_datos
  let total = 4 * length f.indice_bloques_de_datos
  escribir_data_en_bloque bloques (f.indice_bloque_indice * block_size)
      (take total (escritos ++ sin_iniciar total))

-- The loop of `escribir_bloques_de_datos` from `i` on, by the rounds that are left: `indices` are
-- the bytes of the block of indices.
unfoldable pub escribir_desde : ℕ → List ℕ → ℕ → ℕ → List ℕ → ℕ → ℕ → List ℕ → Option (List ℕ)
unfolding escribir_data_en_bloque copiar_de
escribir_desde block_size mensaje llenos ultimo indices zero i bloques = some bloques
escribir_desde block_size mensaje llenos ultimo indices (suc n) i bloques = do
  palabra ← copiar_de indices (i * 4) 4
  let indice = leer_int palabra
  bloques' ←
      (if ltb i llenos || (ultimo == 0)
        then copiar_de mensaje (i * block_size) block_size
          >>= (λ datos. escribir_data_en_bloque bloques (indice * block_size) datos)
        else if i == llenos
        then copiar_de mensaje (i * block_size) ultimo
          >>= (λ datos. escribir_data_en_bloque bloques (indice * block_size) datos)
        else some bloques)
  escribir_desde block_size mensaje llenos ultimo indices n (suc i) bloques'

-- `partir` is the division of two `float`s and its `modf`: the integer part and the fraction times
-- the divisor, as `int`s.
unfoldable pub escribir_bloques_de_datos :
    (ℕ → ℕ → ℕ × ℕ) → ℕ → List ℕ → Fcb → List ℕ → ℕ → Option (List ℕ)
unfolding escribir_desde leer_data_de_bloque
escribir_bloques_de_datos partir block_size bloques f mensaje tamanio_mensaje = do
  indices ←
      leer_data_de_bloque block_size bloques f.indice_bloque_indice
        (4 * length f.indice_bloques_de_datos)
  let (llenos, ultimo) = partir tamanio_mensaje block_size
  escribir_desde block_size mensaje llenos ultimo indices (vueltas f.tamanio_en_bloques) 0 bloques
