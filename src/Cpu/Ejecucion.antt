-- ===== src/Cpu/Ejecucion.antt =====
-- The execution of an instruction: `execute` of cpu/src/ciclo_instruccion.c and its helpers in
-- cpu/src/servicios_cpu.c, while the CPU has a context. The memory module answers the requests of
-- the CPU by its handlers; the waits for the answers of the kernel are in Cpu.Ciclo. `none` is an
-- access through NULL (a missing word of the instruction, an unknown register, or a failed request),
-- or the wait for a context that the memory does not store.
pub mod Accesos
use tp_2024_2c_nachi_y_los_o.Comun.{
  ℕ, ◌+◌, ◌≡◌, Bool, true, false, not, Option, none, some, List, [], ◌∷◌, ◌++◌, ◌==◌, if◌then◌else◌,
  ◌>>=◌, get_elem?, length, ltb, ◌*◌, mod32, menos_uno, add32, sub32,
}
use tp_2024_2c_nachi_y_los_o.Utils.Instrucciones.{
  Nombre, set, read_mem, write_mem, sum, sub, jnz, log, dump_memory, io, process_create,
  thread_create, thread_cancel, thread_join, mutex_create, mutex_lock, mutex_unlock, thread_exit,
  process_exit, Registro, convertir_instruccion_a_enum, convertir_registro_a_enum,
}
use tp_2024_2c_nachi_y_los_o.Utils.Paquete.{Buffer, Paquete, crear_buffer, cargar_int_al_paquete}
use tp_2024_2c_nachi_y_los_o.Utils.Contexto.{
  RegistrosCpu, Contexto, Parametro, t_int, t_size_t, t_string, cargar_parametros,
}
use tp_2024_2c_nachi_y_los_o.Memoria.Estado.{Memoria}
use tp_2024_2c_nachi_y_los_o.Memoria.Proceso.{ok, error}
use tp_2024_2c_nachi_y_los_o.Memoria.EspacioUsuario.{atender_lectura, atender_escritura}
use tp_2024_2c_nachi_y_los_o.Memoria.Hilo.{atender_actualizacion_contexto}
use tp_2024_2c_nachi_y_los_o.Cpu.Registros.{leer_registro, escribir_registro}
use tp_2024_2c_nachi_y_los_o.Cpu.Mmu.{mmu}

-- `tipo_exit`.
pub data TipoExit : Type 0 where
  thread process nada : TipoExit

-- The global variables that `execute` reads and sets, and the packets sent to the kernel.
pub record Cpu : Type 0 where
  pub un_contexto : Contexto
  pub hay_exit : Bool
  pub tipo_exit : TipoExit
  pub interrupt_flag : Bool
  pub al_kernel : List Paquete

-- `un_contexto->r_cpu = r`.
abbrev pub con_registros : Cpu → RegistrosCpu → Cpu
con_registros c r = record c { un_contexto = record (c.un_contexto) { r_cpu = r } }

-- `un_contexto->r_cpu->PC += 1`.
abbrev pub avanzar : Cpu → Cpu
avanzar c = con_registros c (record (c.un_contexto.r_cpu) { pc = add32 c.un_contexto.r_cpu.pc 1 })

-- The values of `nombre_instruccion_comando`.
abbrev pub codigo : Nombre → ℕ
codigo set = 0
codigo read_mem = 1
codigo write_mem = 2
codigo sum = 3
codigo sub = 4
codigo jnz = 5
codigo log = 6
codigo dump_memory = 7
codigo io = 8
codigo process_create = 9
codigo thread_create = 10
codigo thread_cancel = 11
codigo thread_join = 12
codigo mutex_create = 13
codigo mutex_lock = 14
codigo mutex_unlock = 15
codigo thread_exit = 16
codigo process_exit = 17

-- -1 where the address is refused.
unfoldable pub solicitar_memoria : Memoria → RegistrosCpu → ℕ → Option ℕ
solicitar_memoria m r dir_logica =
    if mmu r dir_logica == menos_uno then some menos_uno else atender_lectura m (mmu r dir_logica)

-- The result is 0 or -1: here, whether the address was taken.
unfoldable pub escribir_valor_memoria : Memoria → Contexto → ℕ → ℕ → Option (Memoria × Bool)
escribir_valor_memoria m c dir_logica valor =
    if not (mmu c.r_cpu dir_logica == menos_uno)
    then (atender_escritura m c.pid (mmu c.r_cpu dir_logica) valor >>= λ m'. some (m', true))
    else some (m, false)

-- The memory stores the context; on "ERROR" the CPU waits forever.
unfoldable pub actualizar_contexto : Cpu → Memoria → Option Memoria
actualizar_contexto c m = elim (atender_actualizacion_contexto m c.un_contexto).1 [
  | ok ↦ some (atender_actualizacion_contexto m c.un_contexto).0
  | error ↦ none
]

unfoldable pub atender_segmentation_fault : Cpu → Memoria → Option (Cpu × Memoria)
unfolding actualizar_contexto
atender_segmentation_fault c m =
    actualizar_contexto c m >>= λ m'. some (record c { hay_exit = true; tipo_exit = process }, m')

-- `cargar_hilo_a_paquete`.
unfoldable pub cargar_hilo_a_paquete : Buffer → ℕ → ℕ → ℕ → Buffer
cargar_hilo_a_paquete b pid tid verificador =
    cargar_int_al_paquete (cargar_int_al_paquete (cargar_int_al_paquete b pid) tid) verificador

-- The packet of a system call; `ATENDER_INSTRUCCION_CPU` is 6.
unfoldable pub paquete_de_llamada : Contexto → Nombre → List Parametro → Paquete
unfolding cargar_hilo_a_paquete
paquete_de_llamada c n ps =
    let b₁ = cargar_hilo_a_paquete crear_buffer c.pid c.tid c.verificador in
    let b₂ = cargar_int_al_paquete b₁ (codigo n) in
    let b₃ = cargar_int_al_paquete b₂ (length ps) in
    record { codigo_operacion = 6; buffer = cargar_parametros b₃ ps }

-- A system call: the program counter advances, and the packet goes to the kernel.
unfoldable pub llamar : Cpu → Nombre → List Parametro → Cpu
unfolding paquete_de_llamada
llamar c n ps =
    let c' = avanzar c in
    record c' { al_kernel = c'.al_kernel ++ paquete_de_llamada c'.un_contexto n ps ∷ [] }

-- `interrupt_flag = 1` once the kernel has answered.
abbrev pub interrumpir : Cpu → Cpu
interrumpir c = record c { interrupt_flag = true }

abbrev pub registro_en : List (List ℕ) → ℕ → Option Registro
registro_en split i = get_elem? split i >>= convertir_registro_a_enum

-- `*ra = f(*ra, *rb)` after the program counter has advanced.
abbrev pub operar : (ℕ → ℕ → ℕ) → List (List ℕ) → Cpu → Option Cpu
operar f split c = do
  let r = (avanzar c).un_contexto.r_cpu
  ra ← registro_en split 1
  rb ← registro_en split 2
  some (
      con_registros (avanzar c)
        (escribir_registro ra (f (leer_registro ra r) (leer_registro rb r)) r))

-- `atoi` of the C library.
module _ (atoi : List ℕ → ℕ) where
  unfoldable pub ejecutar_set : List (List ℕ) → Cpu → Option Cpu
  ejecutar_set split c = do
    r ← registro_en split 1
    valor ← get_elem? split 2
    some (
        con_registros (avanzar c)
          (escribir_registro r (atoi valor) ((avanzar c).un_contexto.r_cpu)))

  unfoldable pub ejecutar_jnz : List (List ℕ) → Cpu → Option Cpu
  ejecutar_jnz split c = do
    let r = (avanzar c).un_contexto.r_cpu
    x ← registro_en split 1
    if not (leer_registro x r == 0)
        then (get_elem? split 2 >>= λ destino.
            some (con_registros (avanzar c) (record r { pc = atoi destino })))
        else some (avanzar c)

  unfoldable pub ejecutar_io : List (List ℕ) → Cpu → Option Cpu
  ejecutar_io split c = do tiempo ← get_elem? split 1; some (llamar c io (t_int (atoi tiempo) ∷ []))

  -- The conversion of an `int` to `size_t` extends the sign.
  abbrev pub a_size_t : ℕ → ℕ
  a_size_t n = if ltb n 2147483648 then n else n + mod32 * 4294967295

  unfoldable pub ejecutar_process_create : List (List ℕ) → Cpu → Option Cpu
  ejecutar_process_create split c = do
    archivo ← get_elem? split 1
    tamanio ← get_elem? split 2
    prioridad ← get_elem? split 3
    some (
        interrumpir (
          llamar c process_create
            (t_string archivo ∷ t_size_t (a_size_t (atoi tamanio)) ∷ t_int (atoi prioridad) ∷ [])))

  unfoldable pub ejecutar_thread_create : List (List ℕ) → Cpu → Option Cpu
  ejecutar_thread_create split c = do
    archivo ← get_elem? split 1
    prioridad ← get_elem? split 2
    some (interrumpir (llamar c thread_create (t_string archivo ∷ t_int (atoi prioridad) ∷ [])))

  -- THREAD_CANCEL and THREAD_JOIN.
  unfoldable pub ejecutar_con_tid : Nombre → List (List ℕ) → Cpu → Option Cpu
  ejecutar_con_tid n split c = do tid ← get_elem? split 1; some (llamar c n (t_int (atoi tid) ∷ []))

unfoldable pub ejecutar_sum : List (List ℕ) → Cpu → Option Cpu
ejecutar_sum split c = operar add32 split c

unfoldable pub ejecutar_sub : List (List ℕ) → Cpu → Option Cpu
ejecutar_sub split c = operar sub32 split c

-- The value is only logged.
unfoldable pub ejecutar_log : List (List ℕ) → Cpu → Option Cpu
ejecutar_log split c = registro_en split 1 >>= λ r. some (avanzar c)

unfoldable pub ejecutar_read_mem : List (List ℕ) → Cpu → Memoria → Option (Cpu × Memoria)
ejecutar_read_mem split c m = do
  let r = (avanzar c).un_contexto.r_cpu
  direccion ← registro_en split 2
  valor ← solicitar_memoria m r (leer_registro direccion r)
  if valor == menos_uno
      then atender_segmentation_fault (avanzar c) m
      else (registro_en split 1 >>= λ datos.
          some (con_registros (avanzar c) (escribir_registro datos valor r), m))

unfoldable pub ejecutar_write_mem : List (List ℕ) → Cpu → Memoria → Option (Cpu × Memoria)
ejecutar_write_mem split c m = do
  let r = (avanzar c).un_contexto.r_cpu
  direccion ← registro_en split 1
  datos ← registro_en split 2
  (m', escrito) ←
      escribir_valor_memoria m ((avanzar c).un_contexto) (leer_registro direccion r)
        (leer_registro datos r)
  if escrito then some (avanzar c, m') else atender_segmentation_fault (avanzar c) m'

-- MUTEX_CREATE, MUTEX_LOCK and MUTEX_UNLOCK.
unfoldable pub ejecutar_con_recurso : Nombre → List (List ℕ) → Cpu → Option Cpu
ejecutar_con_recurso n split c = do
  recurso ← get_elem? split 1
  some (llamar c n (t_string recurso ∷ []))

-- PROCESS_EXIT and THREAD_EXIT.
unfoldable pub ejecutar_exit : TipoExit → Cpu → Cpu
ejecutar_exit t c = record (avanzar c) { hay_exit = true; tipo_exit = t }

abbrev pub sin_memoria : Memoria → Option Cpu → Option (Cpu × Memoria)
sin_memoria m o = o >>= λ c. some (c, m)

module _ (atoi : List ℕ → ℕ) where
  -- The cases of the `switch`.
  unfoldable pub ejecutar : Nombre → List (List ℕ) → Cpu → Memoria → Option (Cpu × Memoria)
  ejecutar set split c m = sin_memoria m (ejecutar_set atoi split c)
  ejecutar read_mem split c m = ejecutar_read_mem split c m
  ejecutar write_mem split c m = ejecutar_write_mem split c m
  ejecutar sum split c m = sin_memoria m (ejecutar_sum split c)
  ejecutar sub split c m = sin_memoria m (ejecutar_sub split c)
  ejecutar jnz split c m = sin_memoria m (ejecutar_jnz atoi split c)
  ejecutar log split c m = sin_memoria m (ejecutar_log split c)
  ejecutar io split c m = sin_memoria m (ejecutar_io atoi split c)
  ejecutar dump_memory split c m = some (llamar c dump_memory [], m)
  ejecutar mutex_create split c m =
      sin_memoria m (ejecutar_con_recurso mutex_create split c >>= λ c'. some (interrumpir c'))
  ejecutar mutex_lock split c m = sin_memoria m (ejecutar_con_recurso mutex_lock split c)
  ejecutar mutex_unlock split c m = sin_memoria m (ejecutar_con_recurso mutex_unlock split c)
  ejecutar process_create split c m = sin_memoria m (ejecutar_process_create atoi split c)
  ejecutar process_exit split c m = some (ejecutar_exit process c, m)
  ejecutar thread_create split c m = sin_memoria m (ejecutar_thread_create atoi split c)
  ejecutar thread_cancel split c m = sin_memoria m (ejecutar_con_tid atoi thread_cancel split c)
  ejecutar thread_join split c m = sin_memoria m (ejecutar_con_tid atoi thread_join split c)
  ejecutar thread_exit split c m = some (ejecutar_exit thread c, m)

  -- The name is the first word.
  unfoldable pub execute : List (List ℕ) → Cpu → Memoria → Option (Cpu × Memoria)
  unfolding ejecutar
  execute split c m = do
    nombre ← get_elem? split 0
    ejecutar (convertir_instruccion_a_enum nombre) split c m

unfoldable pub hay_bloqueo : Nombre → Bool
hay_bloqueo io = true
hay_bloqueo dump_memory = true
hay_bloqueo n = false

unfoldable pub hay_syscall : Nombre → Bool
hay_syscall set = false
hay_syscall read_mem = false
hay_syscall write_mem = false
hay_syscall sum = false
hay_syscall sub = false
hay_syscall jnz = false
hay_syscall log = false
hay_syscall n = true
