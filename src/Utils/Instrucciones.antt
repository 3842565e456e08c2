-- ===== src/Utils/Instrucciones.antt =====
-- The instruction names of utils/src/shared.c and shared.h, and the table of authorised headers of
-- cpu/src/dic_operaciones.c. A C string is the list of its bytes, without the final NUL.
pub mod Nombres
pub mod Validacion
use tp_2024_2c_nachi_y_los_o.Comun.{
  ℕ, suc, Bool, true, false, ◌&&◌, ◌||◌, List, [], ◌∷◌, Option, none, some, ◌==◌, if◌then◌else◌,
  get_or, codes,
}

-- `nombre_instruccion_comando`.
pub data Nombre : Type 0 where
  set read_mem write_mem sum sub jnz log dump_memory io process_create : Nombre
  thread_create thread_cancel thread_join mutex_create mutex_lock mutex_unlock : Nombre
  thread_exit process_exit : Nombre

-- `t_registros`.
pub data Registro : Type 0 where
  ax bx cx dx ex fx gx hx pc : Registro

-- `s[i]`; behind the last byte stands the NUL.
abbrev pub car : List ℕ → ℕ → ℕ
car s i = get_or s i 0

-- `strcmp(a, b) == 0`.
abbrev pub strcmp_eq : List ℕ → List ℕ → Bool
strcmp_eq [] [] = true
strcmp_eq [] (y ∷ ys) = false
strcmp_eq (x ∷ xs) [] = false
strcmp_eq (x ∷ xs) (y ∷ ys) = (x == y) && strcmp_eq xs ys

-- `s[i] == c₀ && s[i + 1] == c₁ && …`: no byte is read behind the first that differs.
abbrev pub coincide : List ℕ → List ℕ → ℕ → Bool
coincide [] s i = true
coincide (c ∷ cs) s i = (car s i == c) && coincide cs s (suc i)

unfoldable pub es_dump_memory : List ℕ → Bool
es_dump_memory s = coincide (codes "DUMP_MEMORY") s 0

-- Nine letters only.
unfoldable pub es_process_exit : List ℕ → Bool
es_process_exit s = coincide (codes "PROCESS_E") s 0

unfoldable pub es_thread_exit : List ℕ → Bool
es_thread_exit s = coincide (codes "THREAD_EXIT") s 0

unfoldable pub es_mutex_unlock : List ℕ → Bool
es_mutex_unlock s = coincide (codes "MUTEX_UNLOCK") s 0

unfoldable pub es_mutex_lock : List ℕ → Bool
es_mutex_lock s = coincide (codes "MUTEX_LOCK") s 0

unfoldable pub es_mutex_create : List ℕ → Bool
es_mutex_create s = coincide (codes "MUTEX_CREATE") s 0

unfoldable pub es_thread_cancel : List ℕ → Bool
es_thread_cancel s = coincide (codes "THREAD_CANCEL") s 0

unfoldable pub es_thread_join : List ℕ → Bool
es_thread_join s = coincide (codes "THREAD_JOIN") s 0

unfoldable pub es_thread_create : List ℕ → Bool
es_thread_create s = coincide (codes "THREAD_CREATE") s 0

unfoldable pub es_process_create : List ℕ → Bool
es_process_create s = coincide (codes "PROCESS_CREATE") s 0

unfoldable pub es_io : List ℕ → Bool
es_io s = coincide (codes "IO") s 0

unfoldable pub es_log : List ℕ → Bool
es_log s = coincide (codes "LOG") s 0

unfoldable pub es_jnz : List ℕ → Bool
es_jnz s = coincide (codes "JNZ") s 0

unfoldable pub es_sub : List ℕ → Bool
es_sub s = coincide (codes "SUB") s 0

unfoldable pub es_sum : List ℕ → Bool
es_sum s = coincide (codes "SUM") s 0

unfoldable pub es_write_mem : List ℕ → Bool
es_write_mem s = coincide (codes "WRITE_MEM") s 0

unfoldable pub es_read_mem : List ℕ → Bool
es_read_mem s = coincide (codes "READ_MEM") s 0

unfoldable pub es_set : List ℕ → Bool
es_set s = coincide (codes "SET") s 0

unfoldable pub convertir_instruccion_a_enum : List ℕ → Nombre
unfolding es_dump_memory es_process_exit es_thread_exit es_mutex_unlock es_mutex_lock
    es_mutex_create es_thread_cancel es_thread_join es_thread_create es_process_create es_io es_log
    es_jnz es_sub es_sum es_write_mem es_read_mem es_set
convertir_instruccion_a_enum s =
    if strcmp_eq s (codes "SET") || es_set s
    then set
    else if strcmp_eq s (codes "READ_MEM") || es_read_mem s
    then read_mem
    else if strcmp_eq s (codes "WRITE_MEM") || es_write_mem s
    then write_mem
    else if strcmp_eq s (codes "SUM") || es_sum s
    then sum
    else if strcmp_eq s (codes "SUB") || es_sub s
    then sub
    else if strcmp_eq s (codes "JNZ") || es_jnz s
    then jnz
    else if strcmp_eq s (codes "LOG") || es_log s
    then log
    else if strcmp_eq s (codes "DUMP_MEMORY") || es_dump_memory s
    then dump_memory
    else if strcmp_eq s (codes "IO") || es_io s
    then io
    else if strcmp_eq s (codes "PROCESS_CREATE") || es_process_create s
    then process_create
    else if strcmp_eq s (codes "THREAD_CREATE") || es_thread_create s
    then thread_create
    else if strcmp_eq s (codes "THREAD_JOIN") || es_thread_join s
    then thread_join
    else if strcmp_eq s (codes "THREAD_CANCEL") || es_thread_cancel s
    then thread_cancel
    else if strcmp_eq s (codes "MUTEX_CREATE") || es_mutex_create s
    then mutex_create
    else if strcmp_eq s (codes "MUTEX_LOCK") || es_mutex_lock s
    then mutex_lock
    else if strcmp_eq s (codes "MUTEX_UNLOCK") || es_mutex_unlock s
    then mutex_unlock
    else if strcmp_eq s (codes "THREAD_EXIT") || es_thread_exit s
    then thread_exit
    else process_exit

unfoldable pub convertir_enum_a_instruccion_string : Nombre → List ℕ
convertir_enum_a_instruccion_string set = codes "SET"
convertir_enum_a_instruccion_string read_mem = codes "READ_MEM"
convertir_enum_a_instruccion_string write_mem = codes "WRITE_MEM"
convertir_enum_a_instruccion_string sum = codes "SUM"
convertir_enum_a_instruccion_string sub = codes "SUB"
convertir_enum_a_instruccion_string jnz = codes "JNZ"
convertir_enum_a_instruccion_string log = codes "LOG"
convertir_enum_a_instruccion_string dump_memory = codes "DUMP_MEMORY"
convertir_enum_a_instruccion_string io = codes "IO"
convertir_enum_a_instruccion_string process_create = codes "PROCESS_CREATE"
convertir_enum_a_instruccion_string thread_create = codes "THREAD_CREATE"
convertir_enum_a_instruccion_string thread_join = codes "THREAD_JOIN"
convertir_enum_a_instruccion_string thread_cancel = codes "THREAD_CANCEL"
convertir_enum_a_instruccion_string mutex_create = codes "MUTEX_CREATE"
convertir_enum_a_instruccion_string mutex_lock = codes "MUTEX_LOCK"
convertir_enum_a_instruccion_string mutex_unlock = codes "MUTEX_UNLOCK"
convertir_enum_a_instruccion_string thread_exit = codes "THREAD_EXIT"
convertir_enum_a_instruccion_string process_exit = codes "PROCESS_EXIT"

-- `none` is the -1 that stands for no register.
unfoldable pub convertir_registro_a_enum : List ℕ → Option Registro
convertir_registro_a_enum s =
    if (car s 0 == b'P') && (car s 1 == b'C')
    then some pc
    else if (car s 0 == b'A') && (car s 1 == b'X')
    then some ax
    else if (car s 0 == b'B') && (car s 1 == b'X')
    then some bx
    else if (car s 0 == b'C') && (car s 1 == b'X')
    then some cx
    else if (car s 0 == b'D') && (car s 1 == b'X')
    then some dx
    else if (car s 0 == b'E') && (car s 1 == b'X')
    then some ex
    else if (car s 0 == b'F') && (car s 1 == b'X')
    then some fx
    else if (car s 0 == b'G') && (car s 1 == b'X')
    then some gx
    else if (car s 0 == b'H') && (car s 1 == b'X')
    then some hx
    else none

-- `op_autorizada`, as `diccionario_operaciones` fills it.
abbrev pub diccionario_operaciones : List (List ℕ)
diccionario_operaciones =
    codes "SET"
    ∷ codes "READ_MEM"
    ∷ codes "WRITE_MEM"
    ∷ codes "SUM"
    ∷ codes "SUB"
    ∷ codes "JNZ"
    ∷ codes "LOG"
    ∷ codes "DUMP_MEMORY"
    ∷ codes "IO"
    ∷ codes "PROCESS_CREATE"
    ∷ codes "THREAD_CREATE"
    ∷ codes "THREAD_JOIN"
    ∷ codes "THREAD_CANCEL"
    ∷ codes "MUTEX_CREATE"
    ∷ codes "MUTEX_LOCK"
    ∷ codes "MUTEX_UNLOCK"
    ∷ codes "THREAD_EXIT"
    ∷ codes "PROCESS_EXIT"
    ∷ []

-- The loop over `op_autorizada`, with the answer so far.
unfoldable pub validar_desde : List (List ℕ) → List ℕ → Bool → Bool
validar_desde [] header respuesta = respuesta
validar_desde (op ∷ ops) header respuesta =
    validar_desde ops header
      (if strcmp_eq op header || es_dump_memory header then true else respuesta)

unfoldable pub validador_de_header : List ℕ → Bool
unfolding validar_desde es_dump_memory
validador_de_header header = validar_desde diccionario_operaciones header false
