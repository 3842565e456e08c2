-- ===== src/Utils/Paquete/IdaYVuelta.antt =====
-- What is loaded into a buffer is received from it, in the same order (utils/src/shared.c).
use tp_2024_2c_nachi_y_los_o.Comun.{
  ℕ, ◌+◌, ◌*◌, ◌<◌, ◌≡◌, refl, ap, some, List, [], ◌∷◌, ◌++◌, arith, length, take, length-append,
  take-append, drop-append, mod32,
}
use mathlib.Core.List.{append-nil}
use tp_2024_2c_nachi_y_los_o.Utils.Paquete.Bytes.{
  bytes_int, bytes_size_t, leer_int-bytes_int, leer_size_t-bytes_size_t,
}
use tp_2024_2c_nachi_y_los_o.Utils.Paquete.{
  Buffer, crear_buffer, agregar, consumir, cargar_generico_al_paquete, cargar_int_al_paquete,
  cargar_string_al_paquete, cargar_uint32_al_paquete, cargar_size_t_al_paquete,
  recibir_int_del_buffer, recibir_generico_del_buffer, recibir_string_del_buffer,
  recibir_uint32_del_buffer, recibir_size_t_del_buffer,
}

-- A buffer whose size is the number of its bytes.
unfoldable pub con : List ℕ → Buffer
con xs = record { size = length xs; stream = xs }

pub take-length : (xs : List ℕ) → take (length xs) xs ≡ xs
take-length [] = refl
take-length (x ∷ xs) = ap (λ ys. x ∷ ys) (take-length xs)

pub agregar-con : (xs ys : List ℕ) → agregar (con xs) ys ≡ con (xs ++ ys)
unfolding agregar con
agregar-con [] ys = ground arith
agregar-con (x ∷ xs) ys = ground (arith, length-append (x ∷ xs) ys, take-length (x ∷ xs))

consumir-con : (xs ys : List ℕ) → consumir (con (xs ++ ys)) (length xs) ≡ some (con ys)
unfolding consumir con
consumir-con xs [] = ground (arith, append-nil xs)
consumir-con xs (y ∷ ys) = ground (arith, length-append xs (y ∷ ys), drop-append xs (y ∷ ys))

-- The same, with the number of bytes computed in another way.
consumir_de : (xs ys : List ℕ) (n : ℕ) → n ≡ length xs → consumir (con (xs ++ ys)) n ≡ some (con ys)
consumir_de xs ys n e = rw e (consumir-con xs ys)

pub cargar_int-con :
    (xs : List ℕ) (n : ℕ) → cargar_int_al_paquete (con xs) n ≡ con (xs ++ bytes_int n)
unfolding cargar_int_al_paquete
cargar_int-con xs n = agregar-con xs (bytes_int n)

unfoldable pub bytes_generico : List ℕ → List ℕ
bytes_generico choclo = bytes_int (length choclo) ++ choclo

pub cargar_generico-con :
    (xs choclo : List ℕ)
    → cargar_generico_al_paquete (con xs) choclo ≡ con (xs ++ bytes_generico choclo)
unfolding cargar_generico_al_paquete bytes_generico
cargar_generico-con xs choclo = agregar-con xs (bytes_generico choclo)

pub recibir_int-con :
    (n : ℕ) (ys : List ℕ)
    → n < mod32
    → recibir_int_del_buffer (con (bytes_int n ++ ys)) ≡ some (n, con ys)
unfolding recibir_int_del_buffer con bytes_int
recibir_int-con n ys h =
    ground (arith, consumir_de (bytes_int n) ys 4 refl, leer_int-bytes_int n ys h)

pub recibir_generico-con :
    (choclo ys : List ℕ)
    → length choclo < 2147483648
    → recibir_generico_del_buffer (con (bytes_generico choclo ++ ys)) ≡ some (choclo, con ys)
unfolding recibir_generico_del_buffer con bytes_generico bytes_int
recibir_generico-con choclo ys h = ground (
  arith,
  consumir_de (bytes_generico choclo) ys (4 + length choclo) (omega arith),
  leer_int-bytes_int (length choclo) (choclo ++ ys) (omega arith),
  take-append choclo ys,
)

pub cargar_string-con :
    (xs s : List ℕ) → cargar_string_al_paquete (con xs) s ≡ con (xs ++ bytes_generico (s ++ 0 ∷ []))
unfolding cargar_string_al_paquete bytes_generico
cargar_string-con xs s =
    rw (agregar-con xs (bytes_int (length s + 1) ++ (s ++ 0 ∷ []))) (
      ap (λ n. con (xs ++ (bytes_int n ++ (s ++ 0 ∷ []))))
        (omega (arith, length-append s (0 ∷ []))))

pub recibir_string-con :
    (choclo ys : List ℕ)
    → length choclo < 2147483648
    → recibir_string_del_buffer (con (bytes_generico choclo ++ ys)) ≡ some (choclo, con ys)
unfolding recibir_string_del_buffer con bytes_generico bytes_int
recibir_string-con choclo ys h = ground (
  arith,
  consumir_de (bytes_generico choclo) ys (4 + length choclo) (omega arith),
  leer_int-bytes_int (length choclo) (choclo ++ ys) (omega arith),
  take-append choclo ys,
)

pub cargar_uint32-con :
    (xs : List ℕ) (n : ℕ)
    → cargar_uint32_al_paquete (con xs) n ≡ con (xs ++ bytes_generico (bytes_int n))
unfolding cargar_uint32_al_paquete
cargar_uint32-con xs n = cargar_generico-con xs (bytes_int n)

pub recibir_uint32-con :
    (n : ℕ) (ys : List ℕ)
    → n < mod32
    → recibir_uint32_del_buffer (con (bytes_generico (bytes_int n) ++ ys)) ≡ some (n, con ys)
unfolding recibir_uint32_del_buffer bytes_int
recibir_uint32-con n ys h =
    rw (recibir_generico-con (bytes_int n) ys (omega arith))
      (ground (arith, leer_int-bytes_int n [] h))

pub cargar_size_t-con :
    (xs : List ℕ) (n : ℕ)
    → cargar_size_t_al_paquete (con xs) n ≡ con (xs ++ bytes_generico (bytes_size_t n))
unfolding cargar_size_t_al_paquete
cargar_size_t-con xs n = cargar_generico-con xs (bytes_size_t n)

pub recibir_size_t-con :
    (n : ℕ) (ys : List ℕ)
    → n < mod32 * mod32
    → recibir_size_t_del_buffer (con (bytes_generico (bytes_size_t n) ++ ys)) ≡ some (n, con ys)
unfolding recibir_size_t_del_buffer bytes_size_t
recibir_size_t-con n ys h =
    rw (recibir_generico-con (bytes_size_t n) ys (omega arith))
      (ground (arith, leer_size_t-bytes_size_t n [] h))

pub crear_buffer-con : crear_buffer ≡ con []
unfolding con
crear_buffer-con = refl
