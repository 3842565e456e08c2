-- ===== src/Utils/Contexto/Parametros.antt =====
-- The parameters of a system call survive the trip from the CPU to `recibir_mochila`
-- (utils/src/shared.c).
use tp_2024_2c_nachi_y_los_o.Comun.{
  ℕ, ◌*◌, ◌<◌, ◌≡◌, refl, true, some, List, [], ◌∷◌, ◌++◌, map, arith, ltb, length, All,
  length-append, mod32,
}
use mathlib.Core.List.{append-nil, append_assoc}
use tp_2024_2c_nachi_y_los_o.Utils.Paquete.Bytes.{bytes_int, bytes_size_t}
use tp_2024_2c_nachi_y_los_o.Utils.Paquete.{crear_buffer, cargar_int_al_paquete}
use tp_2024_2c_nachi_y_los_o.Utils.Paquete.IdaYVuelta.{
  con, crear_buffer-con, bytes_generico, cargar_int-con, cargar_uint32-con, cargar_string-con,
  cargar_size_t-con, recibir_int-con, recibir_uint32-con, recibir_string-con, recibir_size_t-con,
}
use tp_2024_2c_nachi_y_los_o.Utils.Contexto.{
  Parametro, t_int, t_size_t, t_uint32, t_string, cargar_parametro, cargar_parametros,
  recibir_parametro, recibir_parametros, recibir_mochila,
}

-- A value that fits its C type, and a text whose length with the NUL fits an `int`.
abbrev pub Cabe : Parametro → Type 0
Cabe (t_int v) = v < mod32
Cabe (t_string s) = length s < 2147483647
Cabe (t_size_t v) = v < mod32 * mod32
Cabe (t_uint32 v) = v < mod32

-- The receiver sees a text with its NUL.
unfoldable pub recibido : Parametro → Parametro
recibido (t_int v) = t_int v
recibido (t_string s) = t_string (s ++ 0 ∷ [])
recibido (t_size_t v) = t_size_t v
recibido (t_uint32 v) = t_uint32 v

-- The bytes of a parameter, in front of others.
bytes_parametro : Parametro → List ℕ → List ℕ
bytes_parametro (t_int v) resto = bytes_int 0 ++ (bytes_int v ++ resto)
bytes_parametro (t_string s) resto = bytes_int 1 ++ (bytes_generico (s ++ 0 ∷ []) ++ resto)
bytes_parametro (t_size_t v) resto = bytes_int 2 ++ (bytes_generico (bytes_size_t v) ++ resto)
bytes_parametro (t_uint32 v) resto = bytes_int 3 ++ (bytes_generico (bytes_int v) ++ resto)

pub bytes_parametros : List Parametro → List ℕ → List ℕ
bytes_parametros [] resto = resto
bytes_parametros (p ∷ ps) resto = bytes_parametro p (bytes_parametros ps resto)

bytes_parametro-append :
    (p : Parametro) (xs ys : List ℕ) → bytes_parametro p xs ++ ys ≡ bytes_parametro p (xs ++ ys)
unfolding bytes_parametro
bytes_parametro-append (t_int v) xs ys = simp append_assoc
bytes_parametro-append (t_string s) xs ys = simp append_assoc
bytes_parametro-append (t_size_t v) xs ys = simp append_assoc
bytes_parametro-append (t_uint32 v) xs ys = simp append_assoc

cargar_parametro-con :
    (xs : List ℕ) (p : Parametro) → cargar_parametro (con xs) p ≡ con (xs ++ bytes_parametro p [])
unfolding cargar_parametro bytes_parametro
cargar_parametro-con xs (t_int v) = simp (cargar_int-con, append_assoc, append-nil)
cargar_parametro-con xs (t_string s) =
    simp (cargar_int-con, cargar_string-con, append_assoc, append-nil)
cargar_parametro-con xs (t_size_t v) =
    simp (cargar_int-con, cargar_size_t-con, append_assoc, append-nil)
cargar_parametro-con xs (t_uint32 v) =
    simp (cargar_int-con, cargar_uint32-con, append_assoc, append-nil)

pub cargar_parametros-con :
    (xs : List ℕ) (ps : List Parametro)
    → cargar_parametros (con xs) ps ≡ con (xs ++ bytes_parametros ps [])
unfolding cargar_parametros bytes_parametros
cargar_parametros-con xs [] = simp append-nil
cargar_parametros-con xs (p ∷ ps) = simp (
  cargar_parametro-con,
  cargar_parametros-con (xs ++ bytes_parametro p []) ps,
  append_assoc,
  bytes_parametro-append,
)

recibir_parametro-con :
    (p : Parametro) (resto : List ℕ)
    → Cabe p
    → recibir_parametro (con (bytes_parametro p resto)) ≡ some (recibido p ∷ [], con resto)
unfolding recibir_parametro bytes_parametro recibido
recibir_parametro-con (t_int v) resto h =
    simp (recibir_int-con 0 _ (omega arith), recibir_int-con v resto h)
recibir_parametro-con (t_string s) resto h = simp (
  recibir_int-con 1 _ (omega arith),
  recibir_string-con (s ++ 0 ∷ []) resto (omega (arith, length-append s (0 ∷ []))),
)
recibir_parametro-con (t_size_t v) resto h =
    simp (recibir_int-con 2 _ (omega arith), recibir_size_t-con v resto h)
recibir_parametro-con (t_uint32 v) resto h =
    simp (recibir_int-con 3 _ (omega arith), recibir_uint32-con v resto h)

pub recibir_parametros-con :
    (ps : List Parametro) (resto : List ℕ)
    → All Cabe ps
    → recibir_parametros (length ps) (con (bytes_parametros ps resto))
      ≡ some (map recibido ps, con resto)
unfolding recibir_parametros bytes_parametros
recibir_parametros-con [] resto h = refl
recibir_parametros-con (p ∷ ps) resto h =
    simp
      (recibir_parametro-con p (bytes_parametros ps resto) h.0, recibir_parametros-con ps resto h.1)

pub recibir_mochila-con :
    (instruccion : ℕ) (ps : List Parametro)
    → instruccion < mod32
    → length ps < 2147483648
    → All Cabe ps
    → recibir_mochila
        (con (bytes_int instruccion ++ (bytes_int (length ps) ++ bytes_parametros ps [])))
      ≡ some (
        record {
          instruccion_asociada = instruccion;
          cantidad_parametros_inicial = length ps;
          parametros = map recibido ps;
        },
        con [],
      )
unfolding recibir_mochila
recibir_mochila-con i ps h k a =
    let menor : ltb (length ps) 2147483648 ≡ true = ground arith in
    simp (
      recibir_int-con i _ h,
      recibir_int-con (length ps) _ (omega arith),
      menor,
      recibir_parametros-con ps [] a,
    )

-- A system call that is loaded into an empty buffer is received whole: `recibir_mochila` gives the
-- instruction, the number of parameters and the parameters in order, each text with its NUL, and
-- leaves an empty buffer. The parameters fit their C types, and there are fewer than 2 ^ 31.
pub recibir_mochila-cargar :
    (instruccion : ℕ) (ps : List Parametro)
    → instruccion < mod32
    → length ps < 2147483648
    → All Cabe ps
    → recibir_mochila (
        cargar_parametros
          (cargar_int_al_paquete (cargar_int_al_paquete crear_buffer instruccion) (length ps))
          ps)
      ≡ some (
        record {
          instruccion_asociada = instruccion;
          cantidad_parametros_inicial = length ps;
          parametros = map recibido ps;
        },
        crear_buffer,
      )
recibir_mochila-cargar i ps h k a =
    rw
      (
        crear_buffer-con,
        cargar_int-con [] i,
        cargar_int-con (bytes_int i) (length ps),
        cargar_parametros-con (bytes_int i ++ bytes_int (length ps)) ps,
      )
      (rw (append_assoc (bytes_int i) (bytes_int (length ps)) (bytes_parametros ps []))
        (recibir_mochila-con i ps h k a))
