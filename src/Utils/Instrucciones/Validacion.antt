-- ===== src/Utils/Instrucciones/Validacion.antt =====
-- The headers that `validador_de_header` lets through (cpu/src/servicios_cpu.c), read against
-- `convertirInstruccionAEnum` (utils/src/shared.c).
use tp_2024_2c_nachi_y_los_o.Comun.{
  ℕ, ◌≡◌, refl, sym, ap, ◌∙◌, ◌⊎◌, inl, inr, Bool, true, false, List, [], ◌∷◌, arith, Bool-cases,
  codes,
}
use mathlib.Core.List.{append-nil}
use tp_2024_2c_nachi_y_los_o.Utils.Instrucciones.Nombres.{
  Empieza, coincide_prefijo, convertir_instruccion-enum,
}
use tp_2024_2c_nachi_y_los_o.Utils.Instrucciones.{
  Nombre, set, read_mem, write_mem, sum, sub, jnz, log, dump_memory, io, process_create,
  thread_create, thread_cancel, thread_join, mutex_create, mutex_lock, mutex_unlock, thread_exit,
  process_exit, convertir_instruccion_a_enum, convertir_enum_a_instruccion_string, strcmp_eq,
  validar_desde, validador_de_header, diccionario_operaciones, es_dump_memory,
}

-- A header is in the list, or the answer so far was yes, or it begins with DUMP_MEMORY.
abbrev Presente : List ℕ → List (List ℕ) → Type 0
Presente h [] = ⊥
Presente h (op ∷ ops) = (h ≡ op) ⊎ Presente h ops

strcmp_eq-eq : (a b : List ℕ) → strcmp_eq a b ≡ true → b ≡ a
strcmp_eq-eq [] [] e = refl
strcmp_eq-eq [] (y ∷ ys) e = cc
strcmp_eq-eq (x ∷ xs) [] e = cc
strcmp_eq-eq (x ∷ xs) (y ∷ ys) e = ground (arith, strcmp_eq-eq xs ys)

strcmp_eq_refl : (a : List ℕ) → strcmp_eq a a ≡ true
strcmp_eq_refl [] = refl
strcmp_eq_refl (x ∷ xs) = ground (arith, strcmp_eq_refl xs)

validar_desde_acepta :
    (ops : List (List ℕ)) (h : List ℕ) (r : Bool)
    → validar_desde ops h r ≡ true
    → (r ≡ true) ⊎ (es_dump_memory h ≡ true) ⊎ Presente h ops
unfolding validar_desde
validar_desde_acepta [] h r e = inl e
validar_desde_acepta (op ∷ ops) h r e = elim (Bool-cases (es_dump_memory h)) [
  | inl d ↦ inr (inl d)
  | inr d ↦ elim (Bool-cases (strcmp_eq op h)) [
    | inl q ↦ inr (inr (inl (strcmp_eq-eq op h q)))
    | inr q ↦ ground (arith, validar_desde_acepta ops h r (rw (q, d) at e))
  ]
]

validar_desde-true : (ops : List (List ℕ)) (h : List ℕ) → validar_desde ops h true ≡ true
unfolding validar_desde
validar_desde-true [] h = refl
validar_desde-true (op ∷ ops) h = ground (arith, validar_desde-true ops h)

Presente-nombre :
    (h : List ℕ)
    → Presente h diccionario_operaciones
    → (n : Nombre) × (h ≡ convertir_enum_a_instruccion_string n)
unfolding convertir_enum_a_instruccion_string
Presente-nombre h (inl e) = (set, e)
Presente-nombre h (inr (inl e)) = (read_mem, e)
Presente-nombre h (inr (inr (inl e))) = (write_mem, e)
Presente-nombre h (inr (inr (inr (inl e)))) = (sum, e)
Presente-nombre h (inr (inr (inr (inr (inl e))))) = (sub, e)
Presente-nombre h (inr (inr (inr (inr (inr (inl e)))))) = (jnz, e)
Presente-nombre h (inr (inr (inr (inr (inr (inr (inl e))))))) = (log, e)
Presente-nombre h (inr (inr (inr (inr (inr (inr (inr (inl e)))))))) = (dump_memory, e)
Presente-nombre h (inr (inr (inr (inr (inr (inr (inr (inr (inl e))))))))) = (io, e)
Presente-nombre h (inr (inr (inr (inr (inr (inr (inr (inr (inr (inl e)))))))))) =
    (process_create, e)
Presente-nombre h (inr (inr (inr (inr (inr (inr (inr (inr (inr (inr (inl e))))))))))) =
    (thread_create, e)
Presente-nombre h (inr (inr (inr (inr (inr (inr (inr (inr (inr (inr (inr (inl e)))))))))))) =
    (thread_join, e)
Presente-nombre h (inr (inr (inr (inr (inr (inr (inr (inr (inr (inr (inr (inr (inl e))))))))))))) =
    (thread_cancel, e)
Presente-nombre h
      (inr (inr (inr (inr (inr (inr (inr (inr (inr (inr (inr (inr (inr (inl e)))))))))))))) =
    (mutex_create, e)
Presente-nombre h
      (inr (inr (inr (inr (inr (inr (inr (inr (inr (inr (inr (inr (inr (inr (inl e))))))))))))))) =
    (mutex_lock, e)
Presente-nombre h
      (inr (
        inr
          (inr (inr (inr (inr (inr (inr (inr (inr (inr (inr (inr (inr (inr (inl e)))))))))))))))) =
    (mutex_unlock, e)
Presente-nombre h
      (inr (
        inr (
          inr (
            inr
              (inr (inr (inr (inr (inr (inr (inr (inr (inr (inr (inr (inr (inl e))))))))))))))))) =
    (thread_exit, e)
Presente-nombre h
      (inr (
        inr (
          inr (
            inr (
              inr (
                inr
                  (inr (inr (inr (inr (inr (inr (inr (inr (inr (inr (inr (inl e)))))))))))))))))) =
    (process_exit, e)
Presente-nombre h
      (inr (
        inr (
          inr (
            inr (
              inr (
                inr (
                  inr (inr (inr (inr (inr (inr (inr (inr (inr (inr (inr (inr (x))))))))))))))))))) =
    elim x [ ]

leido_de_Empieza :
    (n : Nombre) (h : List ℕ)
    → Empieza h (convertir_enum_a_instruccion_string n)
    → convertir_instruccion_a_enum h ≡ n
leido_de_Empieza n h e = ap convertir_instruccion_a_enum e ∙ convertir_instruccion-enum n _

es_dump_memory-Empieza :
    (h : List ℕ)
    → es_dump_memory h ≡ true
    → Empieza h (convertir_enum_a_instruccion_string dump_memory)
unfolding es_dump_memory convertir_enum_a_instruccion_string
es_dump_memory-Empieza h d = coincide_prefijo (codes "DUMP_MEMORY") h (omega arith) d

Presente-leido :
    (h : List ℕ)
    → Presente h diccionario_operaciones
    → h ≡ convertir_enum_a_instruccion_string (convertir_instruccion_a_enum h)
Presente-leido h p =
    let (n, e) = Presente-nombre h p in
    let k : convertir_instruccion_a_enum h ≡ n =
      ap convertir_instruccion_a_enum (e ∙ sym (append-nil _)) ∙ convertir_instruccion-enum n [] in
    rw k e

-- A header that passes `validador_de_header` is the name of the instruction that it is executed
-- as, or begins with DUMP_MEMORY and is executed as that.
pub validador_de_header_lem :
    (h : List ℕ)
    → validador_de_header h ≡ true
    → (h ≡ convertir_enum_a_instruccion_string (convertir_instruccion_a_enum h))
      ⊎ (Empieza h (convertir_enum_a_instruccion_string dump_memory)
          × (convertir_instruccion_a_enum h ≡ dump_memory))
unfolding validador_de_header
validador_de_header_lem h e = elim (validar_desde_acepta diccionario_operaciones h false e) [
  | inl q ↦ cc
  | inr (inl d) ↦
      inr (es_dump_memory-Empieza h d, leido_de_Empieza dump_memory h (es_dump_memory-Empieza h d))
  | inr (inr p) ↦ inl (Presente-leido h p)
]
