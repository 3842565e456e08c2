-- ===== src/Utils/Paquete.antt =====
-- Packets and buffers: utils/src/shared.c. A stream is the list of its bytes. An `int`, a
-- `uint32_t` and a `size_t` are written in the byte order of the x86-64 hosts, low byte first. A
-- receiving function returns the rest of the buffer beside its value; `none` is `exit` or an access
-- outside the received bytes.
pub mod Bytes
pub mod IdaYVuelta
pub mod Envio
use tp_2024_2c_nachi_y_los_o.Comun.{
  ℕ, ◌+◌, ◌-◌, ◌<◌, ◌%◌, ◌/◌, ◌≡◌, Bool, Option, none, some, List, [], ◌∷◌, ◌++◌, ltb, ◌==◌,
  if◌then◌else◌, ◌>>=◌, length, get_or, take, drop, add32,
}
use Bytes.{bytes_int, leer_int, bytes_size_t, leer_size_t}

-- `t_buffer`.
pub record Buffer : Type 0 where
  pub size : ℕ
  pub stream : List ℕ

-- `t_paquete`.
pub record Paquete : Type 0 where
  pub codigo_operacion : ℕ
  pub buffer : Buffer

abbrev pub crear_buffer : Buffer
crear_buffer = record { size = 0; stream = [] }

pub crear_paquete : ℕ → Paquete
crear_paquete op = record { codigo_operacion = op; buffer = crear_buffer }

-- `if(size == 0) malloc … else realloc …`, the bytes copied behind the old ones, the size added.
unfoldable pub agregar : Buffer → List ℕ → Buffer
agregar b xs =
    if b.size == 0
    then record { size = b.size + length xs; stream = xs }
    else record { size = b.size + length xs; stream = take b.size b.stream ++ xs }

unfoldable pub cargar_generico_al_paquete : Buffer → List ℕ → Buffer
unfolding agregar
cargar_generico_al_paquete b choclo = agregar b (bytes_int (length choclo) ++ choclo)

unfoldable pub cargar_int_al_paquete : Buffer → ℕ → Buffer
unfolding agregar
cargar_int_al_paquete b numero = agregar b (bytes_int numero)

unfoldable pub cargar_char_al_paquete : Buffer → ℕ → Buffer
unfolding agregar
cargar_char_al_paquete b caracter = agregar b (caracter ∷ [])

-- The length that is written counts the final NUL.
unfoldable pub cargar_string_al_paquete : Buffer → List ℕ → Buffer
unfolding agregar
cargar_string_al_paquete b string =
    let size_string = length string + 1 in agregar b (bytes_int size_string ++ (string ++ 0 ∷ []))

unfoldable pub cargar_uint8_al_paquete : Buffer → ℕ → Buffer
unfolding cargar_generico_al_paquete
cargar_uint8_al_paquete b v = cargar_generico_al_paquete b (v ∷ [])

unfoldable pub cargar_uint32_al_paquete : Buffer → ℕ → Buffer
unfolding cargar_generico_al_paquete
cargar_uint32_al_paquete b v = cargar_generico_al_paquete b (bytes_int v)

unfoldable pub cargar_size_t_al_paquete : Buffer → ℕ → Buffer
unfolding cargar_generico_al_paquete
cargar_size_t_al_paquete b v = cargar_generico_al_paquete b (bytes_size_t v)

-- What is left behind the first `n` bytes, if the buffer holds them.
unfoldable pub consumir : Buffer → ℕ → Option Buffer
consumir b n =
    if b.size == n
    then some crear_buffer
    else if ltb b.size n
    then none
    else some (record { size = b.size - n; stream = drop n b.stream })

unfoldable pub recibir_int_del_buffer : Buffer → Option (ℕ × Buffer)
unfolding consumir
recibir_int_del_buffer b =
    if b.size == 0 then none else (consumir b 4 >>= λ resto. some (leer_int b.stream, resto))

-- A length from 2 ^ 31 on is a negative `int`: no allocation has that size.
unfoldable pub recibir_generico_del_buffer : Buffer → Option (List ℕ × Buffer)
unfolding consumir
recibir_generico_del_buffer b =
    let size_generico = leer_int b.stream in
    if b.size == 0
    then none
    else if ltb size_generico 2147483648
    then (consumir b (4 + size_generico) >>= λ resto.
        some (take size_generico (drop 4 b.stream), resto))
    else none

unfoldable pub recibir_string_del_buffer : Buffer → Option (List ℕ × Buffer)
unfolding consumir
recibir_string_del_buffer b =
    let size_string = leer_int b.stream in
    if b.size == 0
    then none
    else if ltb size_string 2147483648
    then (consumir b (4 + size_string) >>= λ resto.
        some (take size_string (drop 4 b.stream), resto))
    else none

-- The value is read from a block of as many bytes as the sender announced.
unfoldable pub recibir_uint32_del_buffer : Buffer → Option (ℕ × Buffer)
unfolding recibir_generico_del_buffer
recibir_uint32_del_buffer b = do
  (bloque, resto) ← recibir_generico_del_buffer b
  if ltb (length bloque) 4 then none else some (leer_int bloque, resto)

unfoldable pub recibir_size_t_del_buffer : Buffer → Option (ℕ × Buffer)
unfolding recibir_generico_del_buffer
recibir_size_t_del_buffer b = do
  (bloque, resto) ← recibir_generico_del_buffer b
  if ltb (length bloque) 8 then none else some (leer_size_t bloque, resto)

unfoldable pub recibir_char_del_buffer : Buffer → Option (ℕ × Buffer)
unfolding recibir_generico_del_buffer
recibir_char_del_buffer b = do
  (bloque, resto) ← recibir_generico_del_buffer b
  if ltb (length bloque) 1 then none else some (get_or bloque 0 0, resto)
