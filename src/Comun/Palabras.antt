-- ===== src/Comun/Palabras.antt =====
-- 32-bit machine words. An `int` or a `uint32_t` is its bit pattern, a number below 2 ^ 32; a
-- negative `int` is the pattern of its two's complement.
use Prim.Native.Nat.{ℕ, ◌+◌, ◌-◌, ◌%◌}
use mathlib.Core.Bool.{Bool}
use tp_2024_2c_nachi_y_los_o.Comun.Pruebas.{ltb}

abbrev pub mod32 : ℕ
mod32 = 4294967296

-- -1, in both readings.
abbrev pub menos_uno : ℕ
menos_uno = 4294967295

abbrev pub add32 : ℕ → ℕ → ℕ
add32 a b = (a + b) % mod32

abbrev pub sub32 : ℕ → ℕ → ℕ
sub32 a b = (a + mod32 - b) % mod32

-- The order of `int`: patterns from 2 ^ 31 on are negative.
abbrev pub lt_int : ℕ → ℕ → Bool
lt_int a b = ltb ((a + 2147483648) % mod32) ((b + 2147483648) % mod32)
