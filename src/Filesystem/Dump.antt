-- ===== src/Filesystem/Dump.antt =====
-- The request of the memory module to store a dump: filesystem/src/filesystem_memoria.c. The
-- metadata file that it writes is not modelled.
use tp_2024_2c_nachi_y_los_o.Comun.{
  ℕ, ◌%◌, Option, some, List, if◌then◌else◌, ◌>>=◌, mod32, add32, lt_int,
}
use tp_2024_2c_nachi_y_los_o.Filesystem.Bitmap.{Bitarray, cantidad_bloques_libres}
use tp_2024_2c_nachi_y_los_o.Filesystem.Fcb.{
  Fcb, tamanio_en_bloques, crear_fcb, obtener_fcb, existe_fcb, guardar_fcb,
}
use tp_2024_2c_nachi_y_los_o.Filesystem.Bloques.{
  asignar_bloques_de_datos, asignar_bloque_de_indice, escribir_bloque_de_indice,
  escribir_bloques_de_datos,
}

-- The global variables of the module.
pub record Filesystem {ℓ} (T : Type ℓ) : Type ℓ where
  pub bitmap : T
  pub lista_fcb : List Fcb
  pub bloques_en_memoria : List ℕ

-- "OK" or "ERROR".
pub data Respuesta : Type 0 where
  ok error : Respuesta

-- What the handler takes from outside: the configured size of a block, the division of `float`s
-- with `modf`, and what `malloc` leaves in a block of memory and in an `int`.
pub record Entorno : Type 0 where
  pub block_size : ℕ
  pub partir : ℕ → ℕ → ℕ × ℕ
  pub sin_iniciar : ℕ → List ℕ
  pub entero_sin_iniciar : ℕ

module _ {ℓ} {T : Type ℓ} (ba : Bitarray T) (en : Entorno) where
  -- The branch with room.
  unfoldable pub guardar_dump : Filesystem T → List ℕ → ℕ → ℕ → List ℕ → Option (Filesystem T)
  guardar_dump fs nombre tamanio_mensaje tamanio_particion mensaje = do
    let fcbs =
        (if existe_fcb nombre fs.lista_fcb
          then fs.lista_fcb
          else crear_fcb en.block_size en.entero_sin_iniciar nombre tamanio_particion fs.lista_fcb)
    un_fcb ← obtener_fcb nombre fcbs
    (b₁, f₁) ← asignar_bloques_de_datos ba fs.bitmap un_fcb
    (b₂, f₂) ← asignar_bloque_de_indice ba b₁ f₁
    bloques₁ ← escribir_bloque_de_indice en.block_size en.sin_iniciar fs.bloques_en_memoria f₂
    bloques₂ ← escribir_bloques_de_datos en.partir en.block_size bloques₁ f₂ mensaje tamanio_mensaje
    some (record {
      bitmap = b₂;
      lista_fcb = guardar_fcb nombre f₂ fcbs;
      bloques_en_memoria = bloques₂;
    })

  unfoldable pub atender_memory_dump :
      Filesystem T → List ℕ → ℕ → ℕ → List ℕ → Option (Filesystem T × Respuesta)
  unfolding guardar_dump
  atender_memory_dump fs nombre tamanio_mensaje tamanio_particion mensaje =
      let tamanio_bloques = tamanio_en_bloques en.block_size (tamanio_particion % mod32) in
      if lt_int (cantidad_bloques_libres ba fs.bitmap) (add32 tamanio_bloques 1)
      then some (fs, error)
      else (guardar_dump fs nombre tamanio_mensaje tamanio_particion mensaje >>= λ fs'.
          some (fs', ok))
