-- ===== src/Lib.antt =====
-- The Last of C: a distributed system of four modules that run threads of processes, written in C.
-- The kernel (kernel/src) schedules the threads, the CPU (cpu/src) executes their instructions, the
-- memory (memoria/src) holds processes, threads and user memory, and the filesystem (filesystem/src)
-- stores dumps. They talk by packets (utils/src/shared.c).
--
-- Comun: tests, lists, copies into blocks and 32-bit words. An `int` or `uint32_t` is its bit
--   pattern, a number below 2 ^ 32; `lt_int` is the order of `int`.
-- Utils (utils/src/shared.c): Instrucciones, the names of the instructions and the headers that the
--   CPU accepts; Paquete, buffers, packets and their bytes on a stream; Contexto, the context of a
--   thread and the parameters of a system call.
-- Memoria (memoria/src): Estado, the global variables as a record; Particion (particion.c,
--   inicializar_memoria.c); Proceso (proceso.c, memoria_kernel.c); EspacioUsuario
--   (espacio_usuario.c, memoria_cpu.c, the dump of memoria_kernel.c); Hilo (hilo.c, memoria_cpu.c);
--   Atencion (the dispatcher of memoria_kernel.c, servicios_memoria.c).
-- Filesystem (filesystem/src): Bitmap (bitmap.c); Fcb (fcb.c); Bloques (bloques.c); Dump
--   (filesystem_memoria.c).
-- Cpu (cpu/src): Registros; Mmu (mmu.c); Ejecucion (execute of ciclo_instruccion.c, servicios_cpu.c),
--   which calls the handlers of Memoria where the C code sends a request and waits for the answer;
--   Ciclo (cpu_kernel_dispatch.c, cpu_kernel_interrupt.c), the arrival of a thread, the cycle, the
--   turns of a thread in the CPU with its interrupts as a relation, and the end of the thread.
-- Kernel (kernel/src): Recepcion, Avisos, Despacho and Pasos (kernel_cpu_dispatch.c: the reading of
--   a packet of the CPU, its cases, and the threads it launches); Envio (the packet of tcb.c);
--   Estado and Sistema (k_gestor.h); Colas and Hilos (tcb.c,
--   cola_multinivel.c); Planificacion (planificador_corto_plazo.c); Desalojo
--   (kernel_cpu_interrupt.c); Mutex (mutex.c); Procesos and Creacion (pcb.c, tcb.c); Finalizacion
--   (planificador_largo_plazo.c, mutex.c); Peticiones (kernel_memoria.c). Transiciones, Validez and
--   Altas are about the lists of threads, Replanificacion about replanificar_creacion_proceso, Espera
--   about the threads that wait for a mutex. The kernel sees the memory through an interface,
--   PedidosMemoria with its LeyesMemoria; ConMemoria is the memory module behind it.
-- Ejemplos: the theorems at concrete inputs.
--
-- A handler is a function from the state to the state and the answer; `none` is an access through
-- NULL, outside a list or a block, or `exit`, and in Cpu.Ciclo also a wait that nothing ends. A
-- pointer into a list is a position or the key by which the code looks it up. What the C and commons
-- libraries do is a parameter, with its documented laws where they are used: Commons (list_sort),
-- Maximo (list_get_maximum), Bitarray (bit arrays), string_split, atoi, and the division of floats
-- with modf. What malloc leaves unset, the files with instructions and the answer of the filesystem
-- to a dump are parameters too.
--
-- The fuel of the union of partitions is one round more than there are partitions, since each round
-- makes one less; that of replanificar_creacion_proceso one round more than NEW has processes, since
-- each round takes one out; that of eliminar_hilos as many rounds as the process has threads.
--
-- The kernel is a step relation (Pasos): a step attends one call of the CPU, or runs the next section
-- of one of the threads that the kernel has launched, in any order. The threads for input and output
-- and for dumps have a section for each part between two locks; the others run as a whole.
--
-- Not modelled: sockets, logs, configuration and metadata files, clocks, the locks inside a handler
-- of the dispatcher and inside finalizar_proceso (each is one step), start-up and shut-down.
pub mod Comun
pub mod Utils
pub mod Memoria
pub mod Filesystem
pub mod Cpu
pub mod Kernel
pub mod Ejemplos
