-- ===== src/Cpu/Mmu.antt =====
-- The translation of addresses: cpu/src/mmu.c.
use tp_2024_2c_nachi_y_los_o.Comun.{
  ℕ, ◌+◌, ◌-◌, ◌≤◌, ◌<◌, ◌≡◌, refl, ◌⊎◌, inl, inr, arith, ltb, if◌then◌else◌, ltb→lt, Bool-cases,
  true, if_si, menos_uno, add32, sub32,
}
use tp_2024_2c_nachi_y_los_o.Utils.Contexto.{RegistrosCpu}

-- The comparison is one of `uint32_t`; the result is an `int`, -1 for a refused address.
unfoldable pub mmu : RegistrosCpu → ℕ → ℕ
mmu r dir_logica =
    if ltb dir_logica (sub32 r.limite r.base) then add32 r.base dir_logica else menos_uno

-- An address below the difference of limit and base is translated to the base plus the address,
-- which is below the limit; any other is refused. The base is not above the limit, which is below
-- 2 ^ 31.
pub mmu_lem :
    (r : RegistrosCpu) (dir_logica : ℕ)
    → r.base ≤ r.limite
    → r.limite < 2147483648
    → ((dir_logica < r.limite - r.base)
        × (mmu r dir_logica ≡ r.base + dir_logica)
        × (mmu r dir_logica < r.limite))
      ⊎ ((r.limite - r.base ≤ dir_logica) × (mmu r dir_logica ≡ menos_uno))
unfolding mmu
mmu_lem r d h k =
    let s : sub32 r.limite r.base ≡ r.limite - r.base = omega arith in
    elim (Bool-cases (ltb d (sub32 r.limite r.base))) [
      | inl t ↦
          (let l : d < sub32 r.limite r.base = ltb→lt _ _ t in
            inl (omega (arith, s), rw t (omega arith), rw t (omega arith)))
      | inr t ↦ inr (ground (arith), rw t refl)
    ]

-- A process of size 0 whose base is not 0 has the address before its base as its limit. The difference
-- of the two wraps, and every logical address but 2 ^ 32 - 1 is translated, none is refused for its
-- size. The base is below 2 ^ 32.
pub mmu-vacio :
    (r : RegistrosCpu) (dir_logica : ℕ)
    → r.limite + 1 ≡ r.base
    → r.base < 4294967296
    → dir_logica < menos_uno
    → mmu r dir_logica ≡ add32 r.base dir_logica
unfolding mmu
mmu-vacio r d e h k =
    let s : sub32 r.limite r.base ≡ menos_uno = omega arith in
    let t : ltb d menos_uno ≡ true = ground arith in rw s (if_si _ _ _ t)
