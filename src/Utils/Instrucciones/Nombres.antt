-- ===== src/Utils/Instrucciones/Nombres.antt =====
-- What `convertirInstruccionAEnum` makes of a text (utils/src/shared.c).
use tp_2024_2c_nachi_y_los_o.Comun.{
  ℕ, suc, ◌≡◌, refl, ◌≢◌, inl, inr, Bool, true, false, ◌||◌, List, [], ◌∷◌, ◌++◌, arith,
  if◌then◌else◌, Bool-cases, codes, length, drop, All,
}
use tp_2024_2c_nachi_y_los_o.Utils.Instrucciones.{
  Nombre, set, process_exit, convertir_instruccion_a_enum, convertir_enum_a_instruccion_string,
  coincide, strcmp_eq,
}

-- A text that begins with the name of an instruction is read as that instruction, whatever
-- follows the name.
pub convertir_instruccion-enum :
    (n : Nombre) (resto : List ℕ)
    → convertir_instruccion_a_enum (convertir_enum_a_instruccion_string n ++ resto) ≡ n
unfolding convertir_instruccion_a_enum convertir_enum_a_instruccion_string
convertir_instruccion-enum set resto = ground arith
convertir_instruccion-enum _ resto = ground arith

coincide-cons : (cs s : List ℕ) (x i : ℕ) → coincide cs (x ∷ s) (suc i) ≡ coincide cs s i
coincide-cons [] s x i = refl
coincide-cons (c ∷ cs) s x i = ground (arith, coincide-cons cs s x (suc i))

-- A match of a text that holds no NUL is a prefix.
pub coincide_prefijo :
    (cs s : List ℕ) → All (λ c. c ≢ 0) cs → coincide cs s 0 ≡ true → s ≡ cs ++ drop (length cs) s
coincide_prefijo [] s h e = refl
coincide_prefijo (c ∷ cs) [] h e = ground arith
coincide_prefijo (c ∷ cs) (x ∷ s) h e =
    ground (arith, coincide-cons cs s x 0, coincide_prefijo cs s h.1)

strcmp_eq_prefijo : (s cs : List ℕ) → strcmp_eq s cs ≡ true → s ≡ cs ++ drop (length cs) s
strcmp_eq_prefijo [] [] e = refl
strcmp_eq_prefijo [] (c ∷ cs) e = cc
strcmp_eq_prefijo (x ∷ s) [] e = refl
strcmp_eq_prefijo (x ∷ s) (c ∷ cs) e = ground (arith, strcmp_eq_prefijo s cs)

abbrev pub Empieza : List ℕ → List ℕ → Type 0
Empieza s cs = s ≡ cs ++ drop (length cs) s

reconocido :
    (cs s : List ℕ)
    → All (λ c. c ≢ 0) cs
    → (strcmp_eq s cs || coincide cs s 0) ≡ true
    → Empieza s cs
reconocido cs s h e = elim (Bool-cases (strcmp_eq s cs)) [
  | inl p ↦ strcmp_eq_prefijo s cs p
  | inr p ↦ coincide_prefijo cs s h (rw p at e)
]

-- How a text is read: as the last instruction, or as one that its first letters name.
data Leido (s : List ℕ) (n : Nombre) : Type 0 where
  ultimo : n ≡ process_exit → Leido s n
  prefijo : Empieza s (convertir_enum_a_instruccion_string n) → Leido s n

rama :
    (s : List ℕ) (b : Bool) (n m : Nombre)
    → (b ≡ true → Empieza s (convertir_enum_a_instruccion_string n))
    → Leido s m
    → Leido s (if b then n else m)
rama s true n m h k = prefijo (h refl)
rama s false n m h k = k

convertir_instruccion-Leido : (s : List ℕ) → Leido s (convertir_instruccion_a_enum s)
unfolding convertir_instruccion_a_enum convertir_enum_a_instruccion_string
convertir_instruccion-Leido s = rama s _ _ _ (reconocido (codes "SET") s (omega arith)) (
    rama s _ _ _ (reconocido (codes "READ_MEM") s (omega arith)) (
      rama s _ _ _ (reconocido (codes "WRITE_MEM") s (omega arith)) (
        rama s _ _ _ (reconocido (codes "SUM") s (omega arith)) (
          rama s _ _ _ (reconocido (codes "SUB") s (omega arith)) (
            rama s _ _ _ (reconocido (codes "JNZ") s (omega arith)) (
              rama s _ _ _ (reconocido (codes "LOG") s (omega arith)) (
                rama s _ _ _ (reconocido (codes "DUMP_MEMORY") s (omega arith)) (
                  rama s _ _ _ (reconocido (codes "IO") s (omega arith)) (
                    rama s _ _ _ (reconocido (codes "PROCESS_CREATE") s (omega arith)) (
                      rama s _ _ _ (reconocido (codes "THREAD_CREATE") s (omega arith)) (
                        rama s _ _ _ (reconocido (codes "THREAD_JOIN") s (omega arith)) (
                          rama s _ _ _ (reconocido (codes "THREAD_CANCEL") s (omega arith)) (
                            rama s _ _ _ (reconocido (codes "MUTEX_CREATE") s (omega arith)) (
                              rama s _ _ _ (reconocido (codes "MUTEX_LOCK") s (omega arith)) (
                                rama s _ _ _ (reconocido (codes "MUTEX_UNLOCK") s (omega arith)) (
                                  rama s _ _ _ (reconocido (codes "THREAD_EXIT") s (omega arith))
                                    (ultimo refl)))))))))))))))))

-- Every text that is not read as the last instruction, `PROCESS_EXIT`, begins with the name of the
-- instruction that it is read as.
pub convertir_instruccion_prefijo :
    (s : List ℕ)
    → convertir_instruccion_a_enum s ≢ process_exit
    → Empieza s (convertir_enum_a_instruccion_string (convertir_instruccion_a_enum s))
convertir_instruccion_prefijo s h = elim (convertir_instruccion-Leido s) [
  | ultimo e ↦ absurd (h e)
  | prefijo e ↦ e
]
