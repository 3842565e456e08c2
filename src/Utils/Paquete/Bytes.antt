-- ===== src/Utils/Paquete/Bytes.antt =====
-- The bytes of the fixed-size integers, low byte first, as `memcpy` moves them on the hosts of the
-- program.
use tp_2024_2c_nachi_y_los_o.Comun.{
  ℕ, ◌+◌, ◌*◌, ◌/◌, ◌%◌, ◌<◌, ◌≡◌, refl, List, [], ◌∷◌, ◌++◌, arith, length, get_or, drop, mod32,
}

abbrev pub byte : ℕ → ℕ → ℕ
byte n potencia = n / potencia % 256

unfoldable pub bytes_int : ℕ → List ℕ
bytes_int n = byte n 1 ∷ byte n 256 ∷ byte n 65536 ∷ byte n 16777216 ∷ []

unfoldable pub leer_int : List ℕ → ℕ
leer_int s = get_or s 0 0 + 256 * get_or s 1 0 + 65536 * get_or s 2 0 + 16777216 * get_or s 3 0

unfoldable pub bytes_size_t : ℕ → List ℕ
unfolding bytes_int
bytes_size_t n = bytes_int (n % mod32) ++ bytes_int (n / mod32)

unfoldable pub leer_size_t : List ℕ → ℕ
unfolding leer_int
leer_size_t s = leer_int s + mod32 * leer_int (drop 4 s)

pub leer_int-bytes_int : (n : ℕ) (resto : List ℕ) → n < mod32 → leer_int (bytes_int n ++ resto) ≡ n
unfolding leer_int bytes_int
leer_int-bytes_int n resto h = omega arith

pub leer_size_t-bytes_size_t :
    (n : ℕ) (resto : List ℕ) → n < mod32 * mod32 → leer_size_t (bytes_size_t n ++ resto) ≡ n
unfolding leer_size_t bytes_size_t
leer_size_t-bytes_size_t n resto h = omega (
  arith,
  leer_int-bytes_int (n % mod32) [] (omega arith),
  leer_int-bytes_int (n / mod32) [] (omega arith),
)

pub length-bytes_int : (n : ℕ) → length (bytes_int n) ≡ 4
unfolding bytes_int
length-bytes_int n = refl

pub length-bytes_size_t : (n : ℕ) → length (bytes_size_t n) ≡ 8
unfolding bytes_size_t
length-bytes_size_t n = refl
