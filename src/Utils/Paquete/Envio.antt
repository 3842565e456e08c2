-- ===== src/Utils/Paquete/Envio.antt =====
-- Packets on a socket (utils/src/shared.c). What the peer sends is the list of bytes that `recv` has
-- yet to hand over; with MSG_WAITALL it waits for all that is asked, and gives less only at the end
-- of the connection.
use tp_2024_2c_nachi_y_los_o.Comun.{
  ℕ, ◌<◌, ◌≡◌, refl, true, false, Option, none, some, List, [], ◌++◌, arith, ltb, ◌==◌,
  if◌then◌else◌, length, take, drop, length-append, take-append, drop-append, mod32, menos_uno,
}
use mathlib.Core.List.{append-nil, append_assoc}
use tp_2024_2c_nachi_y_los_o.Utils.Paquete.Bytes.{bytes_int, leer_int, leer_int-bytes_int}
use tp_2024_2c_nachi_y_los_o.Utils.Paquete.{Buffer, Paquete}
use tp_2024_2c_nachi_y_los_o.Utils.Paquete.IdaYVuelta.{con, take-length}

-- The operation code, the size and the bytes of the buffer, one behind the other.
unfoldable pub serializar_paquete : Paquete → List ℕ
serializar_paquete p =
    bytes_int p.codigo_operacion ++ (bytes_int p.buffer.size ++ take p.buffer.size p.buffer.stream)

-- `send` of all of it: the bytes go behind those under way.
unfoldable pub enviar_paquete : List ℕ → Paquete → List ℕ
unfolding serializar_paquete
enviar_paquete en_viaje p = en_viaje ++ serializar_paquete p

-- -1 where the connection is closed. Of a code cut short the missing bytes read 0.
unfoldable pub recibir_operacion : List ℕ → ℕ × List ℕ
recibir_operacion s = if length s == 0 then (menos_uno, []) else (leer_int (take 4 s), drop 4 s)

-- `none` is the NULL of an error: a closed connection, a size that is not positive, bytes missing.
unfoldable pub recibir_buffer : List ℕ → Option (Buffer × List ℕ)
recibir_buffer s =
    let size = leer_int (take 4 s) in
    if length s == 0
    then none
    else if size == 0
    then none
    else if ltb size 2147483648
    then (if ltb (length (drop 4 s)) size
        then none
        else some (record { size = size; stream = take size (drop 4 s) }, drop size (drop 4 s)))
    else none

bytes_ne : (n : ℕ) (xs : List ℕ) → (length (bytes_int n ++ xs) == 0) ≡ false
unfolding bytes_int
bytes_ne n xs = ground arith

take_bytes : (n : ℕ) (xs : List ℕ) → take 4 (bytes_int n ++ xs) ≡ bytes_int n
unfolding bytes_int
take_bytes n xs = refl

drop_bytes : (n : ℕ) (xs : List ℕ) → drop 4 (bytes_int n ++ xs) ≡ xs
unfolding bytes_int
drop_bytes n xs = refl

leer_bytes : (n : ℕ) → n < mod32 → leer_int (bytes_int n) ≡ n
leer_bytes n h = rw (← append-nil (bytes_int n)) (leer_int-bytes_int n [] h)

recibir_operacion-bytes :
    (op : ℕ) (xs : List ℕ) → op < mod32 → recibir_operacion (bytes_int op ++ xs) ≡ (op, xs)
unfolding recibir_operacion
recibir_operacion-bytes op xs h = simp (bytes_ne, take_bytes, drop_bytes, leer_bytes op h)

recibir_buffer-bytes :
    (ys xs : List ℕ)
    → 0 < length ys
    → length ys < 2147483648
    → recibir_buffer (bytes_int (length ys) ++ (ys ++ xs)) ≡ some (con ys, xs)
unfolding recibir_buffer con
recibir_buffer-bytes ys xs h k = simp (
  bytes_ne,
  take_bytes,
  drop_bytes,
  leer_bytes (length ys) (omega arith),
  take-append,
  drop-append,
  positivo,
  menor,
  entero,
)
  where
    positivo : (length ys == 0) ≡ false
    positivo = ground arith

    menor : ltb (length ys) 2147483648 ≡ true
    menor = ground arith

    entero : ltb (length (ys ++ xs)) (length ys) ≡ false
    entero = ground (arith, length-append ys xs)

serializar-con :
    (op : ℕ) (ys resto : List ℕ)
    → serializar_paquete (record { codigo_operacion = op; buffer = con ys }) ++ resto
      ≡ bytes_int op ++ (bytes_int (length ys) ++ (ys ++ resto))
unfolding serializar_paquete con
serializar-con op ys resto = simp (append_assoc, take-length)

-- Packets arrive in the order in which they are sent, and whole: of a packet with a nonempty buffer
-- of fewer than 2 ^ 31 bytes the receiver reads the operation code, then the same buffer, and what
-- was sent later is still to come.
pub recibir-enviar :
    (op : ℕ) (ys resto : List ℕ)
    → op < mod32
    → 0 < length ys
    → length ys < 2147483648
    → let enviado =
        enviar_paquete [] (record { codigo_operacion = op; buffer = con ys }) ++ resto in
      ((recibir_operacion enviado).0 ≡ op)
      × (recibir_buffer (recibir_operacion enviado).1 ≡ some (con ys, resto))
unfolding enviar_paquete
recibir-enviar op ys resto h k l =
    rw (serializar-con op ys resto, recibir_operacion-bytes op _ h)
      (refl, recibir_buffer-bytes ys resto k l)
