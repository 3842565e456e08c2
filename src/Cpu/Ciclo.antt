-- ===== src/Cpu/Ciclo.antt =====
-- The instruction cycle: cpu_kernel_dispatch.c, cpu_kernel_interrupt.c, fetch and decode of
-- ciclo_instruccion.c, cpu_memoria.c and enviar_hilo_a_kernel of servicios_cpu.c, all of cpu/src.
-- `none` is an access through NULL, or a wait for a semaphore that nothing posts.
pub mod Vueltas
pub mod Desalojo
pub mod Llegada
use tp_2024_2c_nachi_y_los_o.Comun.{
  ℕ, zero, suc, ◌+◌, ◌-◌, ◌*◌, ◌/◌, ◌%◌, ◌^◌, ◌≤◌, ◌<◌, ◌≡◌, refl, sym, ap, ◌∙◌, ◌≢◌, ◌↔◌, ◌⊎◌, inl,
  inr, Bool, true, false, not, ◌&&◌, ◌||◌, Option, none, some, List, [], ◌∷◌, ◌++◌, map, arith, ltb,
  leb, ◌==◌, if◌then◌else◌, ltb→lt, leb→le, ==_iff, Bool-cases, Option-cases, ◌>>=◌, >>=-eq-some,
  if_si, if_no, codes, copiar_en, copiar_de, byte_en, tras_copia, cabe-copiar, copiar_en-total,
  length-copiar, copiado, byte_ajeno, get_or-take, get_or-drop, length-take, length-drop,
  opcion-some, >>=-some, opcion, opcion-cases, if-cases, some-injective, some_par, length,
  get_elem?, get_or, take, drop, All, length-append, take-append, drop-append, length-set,
  get_elem?-set_self, get_elem?-set_ne, All-append, All-set, All-get_elem?, mod32, menos_uno, add32,
  sub32, lt_int, menor_length,
}
use tp_2024_2c_nachi_y_los_o.Utils.Instrucciones.{
  Nombre, set, read_mem, write_mem, sum, sub, jnz, log, dump_memory, io, process_create,
  thread_create, thread_cancel, thread_join, mutex_create, mutex_lock, mutex_unlock, thread_exit,
  process_exit, strcmp_eq, convertir_instruccion_a_enum, validador_de_header,
}
use tp_2024_2c_nachi_y_los_o.Utils.Paquete.{
  Buffer, Paquete, crear_buffer, cargar_int_al_paquete, recibir_int_del_buffer,
}
use tp_2024_2c_nachi_y_los_o.Utils.Contexto.{Contexto}
use tp_2024_2c_nachi_y_los_o.Memoria.Estado.{Memoria}
use tp_2024_2c_nachi_y_los_o.Memoria.Proceso.{Respuesta, ok, error}
use tp_2024_2c_nachi_y_los_o.Memoria.Hilo.{
  atender_actualizacion_contexto, atender_peticion_instruccion,
}
use tp_2024_2c_nachi_y_los_o.Cpu.Ejecucion.{
  actualizar_contexto, TipoExit, thread, process, nada, Cpu, cargar_hilo_a_paquete, codigo, execute,
  hay_bloqueo, hay_syscall,
}

-- The global variables of the cycle, with those of `execute`; `nombre` is
-- `nombre_instruccion_enum`.
pub record Ciclo : Type 0 where
  pub cpu : Cpu
  pub nombre : Nombre
  pub instancia_ocupada : Bool
  pub existe_hilo_a_joinear : Bool
  pub hubo_quantum : Bool
  pub interrupt_pid : ℕ
  pub interrupt_tid : ℕ
  pub interrupt_verificador : ℕ

-- An interrupt for another thread than that of the context is rejected.
unfoldable pub manejar_interrupcion : Buffer → Ciclo → Option Ciclo
manejar_interrupcion b₀ c = do
  (pid, b₁) ← recibir_int_del_buffer b₀
  (tid, b₂) ← recibir_int_del_buffer b₁
  let c₁ = record c { interrupt_pid = pid; interrupt_tid = tid }
  if (pid == c.cpu.un_contexto.pid) && (tid == c.cpu.un_contexto.tid)
      then (recibir_int_del_buffer b₂ >>= λ (verificador, b₃). some (record c₁ {
        interrupt_verificador = verificador;
        cpu = record (c.cpu) { interrupt_flag = true };
        hubo_quantum = true;
      }))
      else some c₁

-- The answer "OK" posts the semaphore of the call.
abbrev pub confirmar : List ℕ → Ciclo → Option Ciclo
confirmar rta c = if strcmp_eq rta (codes "OK") then some c else none

-- The answer of the kernel to a system call, where `execute` waits for one.
unfoldable pub recibir_respuesta : Nombre → List ℕ → Ciclo → Option Ciclo
recibir_respuesta mutex_create rta c = confirmar rta c
recibir_respuesta mutex_unlock rta c = confirmar rta c
recibir_respuesta process_create rta c = confirmar rta c
recibir_respuesta thread_create rta c = confirmar rta c
recibir_respuesta thread_cancel rta c = confirmar rta c
recibir_respuesta mutex_lock rta c =
    if strcmp_eq rta (codes "OK")
    then some c
    else if strcmp_eq rta (codes "DESALOJO")
    then some (record c { instancia_ocupada = true })
    else none
recibir_respuesta thread_join rta c =
    if strcmp_eq rta (codes "OK")
    then some c
    else if strcmp_eq rta (codes "DESALOJO")
    then some (record c { existe_hilo_a_joinear = true })
    else none
recibir_respuesta n rta c = some c

-- `string_split` of the commons library, on the space, and `atoi` of the C library.
module _ (atoi : List ℕ → ℕ) (string_split : List ℕ → List (List ℕ)) where
  -- The words of the line at the program counter.
  unfoldable pub fetch : Ciclo → Memoria → Option (List (List ℕ))
  fetch c m =
      if leb c.cpu.un_contexto.r_cpu.pc c.cpu.un_contexto.maximo_pc
      then (atender_peticion_instruccion m c.cpu.un_contexto.pid c.cpu.un_contexto.tid
            c.cpu.un_contexto.r_cpu.pc
          >>= λ l. l >>= λ linea. some (string_split linea))
      else none

  -- The name of the instruction; for one that is not authorised `sem_decode` is not posted.
  unfoldable pub decode : List (List ℕ) → Option (List ℕ)
  decode split =
      get_elem? split 0 >>= λ header. if validador_de_header header then some header else none

  -- With the answer of the kernel that comes while `execute` waits.
  unfoldable pub ciclo_de_instruccion : List ℕ → Ciclo → Memoria → Option (Ciclo × Memoria)
  unfolding fetch decode recibir_respuesta
  ciclo_de_instruccion rta c m = do
    split ← fetch c m
    header ← decode split
    (cpu, m') ← execute atoi split c.cpu m
    let n = convertir_instruccion_a_enum header
    c' ← recibir_respuesta n rta (record c { cpu = cpu; nombre = n })
    some (c', m')

  -- A turn of the loop of `atender_hilo_kernel`, up to its tests.
  unfoldable pub vuelta : List ℕ → Ciclo → Memoria → Option (Ciclo × Memoria)
  unfolding ciclo_de_instruccion actualizar_contexto
  vuelta rta c m = ciclo_de_instruccion rta c m >>= λ (c', m').
      (if hay_syscall c'.nombre then actualizar_contexto c'.cpu m' else some m') >>= λ m''.
      some (c', m'')

-- The tests that end the loop.
unfoldable pub termina : Ciclo → Bool
termina c =
    c.cpu.hay_exit
    || (c.instancia_ocupada
        || (c.existe_hilo_a_joinear || (hay_bloqueo c.nombre || c.cpu.interrupt_flag)))

-- The kind of exit as the packet has it.
abbrev pub cargar_exit : TipoExit → Buffer → Buffer
cargar_exit thread b = cargar_int_al_paquete (cargar_int_al_paquete b (codigo thread_exit)) 0
cargar_exit process b = cargar_int_al_paquete (cargar_int_al_paquete b (codigo process_exit)) 0
cargar_exit nada b = b

abbrev pub como_int : Bool → ℕ
como_int b = if b then 1 else 0

unfoldable pub paquete_de_desalojo : Contexto → ℕ → TipoExit → Bool → Paquete
unfolding cargar_hilo_a_paquete
paquete_de_desalojo c tipo_desalojo t quantum = record {
  codigo_operacion = tipo_desalojo;
  buffer =
      cargar_int_al_paquete
        (cargar_exit t (cargar_hilo_a_paquete crear_buffer c.pid c.tid c.verificador))
        (como_int quantum);
}

unfoldable pub enviar_hilo_a_kernel : ℕ → TipoExit → Ciclo → Ciclo
unfolding paquete_de_desalojo
enviar_hilo_a_kernel tipo_desalojo t c = record c {
  cpu = record (c.cpu) {
    al_kernel =
        c.cpu.al_kernel
        ++ paquete_de_desalojo c.cpu.un_contexto tipo_desalojo t c.hubo_quantum ∷ [];
  };
  hubo_quantum = false;
}

abbrev pub limpiar : Ciclo → Ciclo
limpiar c = record c {
  cpu = record (c.cpu) { hay_exit = false; interrupt_flag = false; tipo_exit = nada };
  instancia_ocupada = false;
  existe_hilo_a_joinear = false;
}

-- What follows the loop of `atender_hilo_kernel`. `ATENDER_DESALOJO_HILO_CPU` is 11,
-- `ATENDER_INSTRUCCION_CPU` is 6.
unfoldable pub desalojar : Ciclo → Memoria → Option (Ciclo × Memoria)
unfolding enviar_hilo_a_kernel actualizar_contexto
desalojar c m =
    let con_exit : Ciclo → Ciclo =
      λ x. limpiar (if x.cpu.hay_exit then enviar_hilo_a_kernel 6 x.cpu.tipo_exit x else x) in
    if not c.cpu.hay_exit && c.cpu.interrupt_flag
    then ((if hay_syscall c.nombre then some m else actualizar_contexto c.cpu m) >>= λ m'.
        some (con_exit (enviar_hilo_a_kernel 11 nada c), m'))
    else some (con_exit c, m)

-- The turns of a thread, until the loop has ended: the kernel answers as it likes, and interrupts
-- come between the turns or after the last one.
module _ (atoi : List ℕ → ℕ) (string_split : List ℕ → List (List ℕ)) where
  pub data Corre : Ciclo → Memoria → Ciclo → Memoria → Type 0 where
    ultima :
        {c c' : Ciclo} {m m' : Memoria} (rta : List ℕ)
        → vuelta atoi string_split rta c m ≡ some (c', m')
        → termina c' ≡ true
        → Corre c m c' m'
    otra :
        {c c' c'' : Ciclo} {m m' m'' : Memoria} (rta : List ℕ)
        → vuelta atoi string_split rta c m ≡ some (c', m')
        → termina c' ≡ false
        → Corre c' m' c'' m''
        → Corre c m c'' m''
    antes :
        {c c' c'' : Ciclo} {m m'' : Memoria} (b : Buffer)
        → manejar_interrupcion b c ≡ some c'
        → Corre c' m c'' m''
        → Corre c m c'' m''
    despues :
        {c c' c'' : Ciclo} {m m' : Memoria} (b : Buffer)
        → Corre c m c' m'
        → manejar_interrupcion b c' ≡ some c''
        → Corre c m c'' m'
