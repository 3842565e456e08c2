-- ===== src/Filesystem/Fcb.antt =====
-- The file control blocks: filesystem/src/fcb.c, and the number of blocks of a file (bloques.c).
use tp_2024_2c_nachi_y_los_o.Comun.{
  ℕ, ◌+◌, ◌-◌, ◌/◌, ◌%◌, Bool, true, false, Option, none, some, List, [], ◌∷◌, ◌++◌, ltb, ◌==◌,
  if◌then◌else◌, mod32,
}
use tp_2024_2c_nachi_y_los_o.Utils.Instrucciones.{strcmp_eq}

-- `t_fcb`, but for the open metadata file.
pub record Fcb : Type 0 where
  pub nombre_archivo : List ℕ
  pub tamanio : ℕ
  pub tamanio_en_bloques : ℕ
  pub indice_bloques_de_datos : List ℕ
  pub indice_bloque_indice : ℕ

-- `ceil` of the quotient of two `int`s, the second positive: exact in `double`. A negative size
-- rounds up towards 0.
unfoldable pub tamanio_en_bloques : ℕ → ℕ → ℕ
tamanio_en_bloques block_size tamanio_en_bytes =
    if tamanio_en_bytes == 0
    then 1
    else if ltb tamanio_en_bytes 2147483648
    then (tamanio_en_bytes + block_size - 1) / block_size
    else (mod32 - (mod32 - tamanio_en_bytes) / block_size) % mod32

-- `indice` is what `malloc` leaves in `indice_bloque_indice`.
unfoldable pub crear_fcb : ℕ → ℕ → List ℕ → ℕ → List Fcb → List Fcb
unfolding tamanio_en_bloques
crear_fcb block_size indice nombre tamanio fcbs =
    fcbs
    ++ record {
      nombre_archivo = nombre;
      tamanio = tamanio;
      tamanio_en_bloques = tamanio_en_bloques block_size (tamanio % mod32);
      indice_bloques_de_datos = [];
      indice_bloque_indice = indice;
    }
      ∷ []

unfoldable pub obtener_fcb : List ℕ → List Fcb → Option Fcb
obtener_fcb nombre [] = none
obtener_fcb nombre (f ∷ fs) =
    if strcmp_eq f.nombre_archivo nombre then some f else obtener_fcb nombre fs

unfoldable pub existe_fcb : List ℕ → List Fcb → Bool
existe_fcb nombre fs = elim (obtener_fcb nombre fs) [ none ↦ false | some f ↦ true ]

-- A change through the pointer that `obtener_fcb` gives.
unfoldable pub guardar_fcb : List ℕ → Fcb → List Fcb → List Fcb
guardar_fcb nombre nuevo [] = []
guardar_fcb nombre nuevo (f ∷ fs) =
    if strcmp_eq f.nombre_archivo nombre then nuevo ∷ fs else f ∷ guardar_fcb nombre nuevo fs
