-- ===== src/Memoria/Hilo.antt =====
-- Threads in memory: memoria/src/hilo.c, and the requests about them of the kernel
-- (memoria_kernel.c) and of the CPU (memoria_cpu.c). The file system of the host, which holds the
-- instructions of a thread, is the parameter `leer_archivo`.
pub mod Pedidos
use tp_2024_2c_nachi_y_los_o.Comun.{
  ℕ, ◌≡◌, Bool, true, false, ◌&&◌, Option, none, some, List, [], ◌∷◌, ◌++◌, ltb, ◌==◌,
  if◌then◌else◌, ◌>>=◌, length, get_elem?, sub32,
}
use tp_2024_2c_nachi_y_los_o.Utils.Contexto.{RegistrosCpu, Contexto, cargar_registros_al_contexto}
use tp_2024_2c_nachi_y_los_o.Memoria.Estado.{Proceso, Hilo, Memoria}
use tp_2024_2c_nachi_y_los_o.Memoria.Proceso.{Respuesta, ok, error, buscar_proceso, existe_proceso}

abbrev pub registros_en_cero : RegistrosCpu → RegistrosCpu
registros_en_cero r = record r {
  pc = 0;
  ax = 0;
  bx = 0;
  cx = 0;
  dx = 0;
  ex = 0;
  fx = 0;
  gx = 0;
  hx = 0;
}

-- `r` is what `malloc` gives: `base` and `limite` are not set.
unfoldable pub crear_hilo : Memoria → ℕ → ℕ → RegistrosCpu → List (List ℕ) → Memoria
crear_hilo m pid tid r instrucciones = record m {
  list_hilos_recibidos =
      m.list_hilos_recibidos
      ++ record {
        pid_asociado = pid;
        tid = tid;
        registros = registros_en_cero r;
        lista_instrucciones = instrucciones;
        maximo_pc = sub32 (length instrucciones) 1;
      }
        ∷ [];
}

abbrev pub es_hilo_buscado : ℕ → ℕ → Hilo → Bool
es_hilo_buscado pid tid h = (h.pid_asociado == pid) && (h.tid == tid)

unfoldable pub buscar_hilo : ℕ → ℕ → List Hilo → Option Hilo
buscar_hilo pid tid [] = none
buscar_hilo pid tid (h ∷ hs) = if es_hilo_buscado pid tid h then some h else buscar_hilo pid tid hs

-- A change through the pointer that `buscar_hilo` gives.
unfoldable pub actualizar_hilo : ℕ → ℕ → (Hilo → Hilo) → List Hilo → List Hilo
actualizar_hilo pid tid f [] = []
actualizar_hilo pid tid f (h ∷ hs) =
    if es_hilo_buscado pid tid h then f h ∷ hs else h ∷ actualizar_hilo pid tid f hs

-- `list_remove_element` of the pointer that `buscar_hilo` gives.
unfoldable pub remover_hilo : ℕ → ℕ → List Hilo → List Hilo
remover_hilo pid tid [] = []
remover_hilo pid tid (h ∷ hs) =
    if es_hilo_buscado pid tid h then hs else h ∷ remover_hilo pid tid hs

unfoldable pub actualizar_contexto_hilo : Contexto → Hilo → Hilo
actualizar_contexto_hilo c h = record h {
  registros = record (h.registros) {
    pc = c.r_cpu.pc;
    ax = c.r_cpu.ax;
    bx = c.r_cpu.bx;
    cx = c.r_cpu.cx;
    dx = c.r_cpu.dx;
    ex = c.r_cpu.ex;
    fx = c.r_cpu.fx;
    gx = c.r_cpu.gx;
    hx = c.r_cpu.hx;
  };
}

-- `none` is the NULL of an index out of range.
unfoldable pub obtener_instruccion_por_indice : Hilo → ℕ → Option (List ℕ)
obtener_instruccion_por_indice h indice =
    if ltb indice (length h.lista_instrucciones)
    then get_elem? h.lista_instrucciones indice
    else none

unfoldable pub atender_creacion_hilo :
    (List ℕ → List (List ℕ)) → Memoria → ℕ → ℕ → RegistrosCpu → List ℕ → Memoria × Respuesta
atender_creacion_hilo leer_archivo m pid tid r archivo =
    if existe_proceso pid m.lista_procesos_recibidos
    then (crear_hilo m pid tid r (leer_archivo archivo), ok)
    else (m, error)

unfoldable pub atender_finalizacion_hilo : Memoria → ℕ → ℕ → Memoria × Respuesta
atender_finalizacion_hilo m pid tid = elim (buscar_hilo pid tid m.list_hilos_recibidos) [
  | none ↦ (m, error)
  | some h ↦ (record m { list_hilos_recibidos = remover_hilo pid tid m.list_hilos_recibidos }, ok)
]

-- The context that is sent; `none` is the answer "ERROR". `c` is what `malloc` gives: `verificador`
-- is not set, and not sent.
unfoldable pub atender_peticion_contexto : Memoria → ℕ → ℕ → Contexto → Option Contexto
atender_peticion_contexto m pid tid c = do
  un_hilo ← buscar_hilo pid tid m.list_hilos_recibidos
  un_proceso ← buscar_proceso pid m.lista_procesos_recibidos
  some (
      cargar_registros_al_contexto
        (record c {
          pid = un_hilo.pid_asociado;
          tid = un_hilo.tid;
          maximo_pc = un_hilo.maximo_pc;
          r_cpu = record (c.r_cpu) { base = un_proceso.base; limite = un_proceso.limite };
        })
        un_hilo.registros)

-- The context is the received one.
unfoldable pub atender_actualizacion_contexto : Memoria → Contexto → Memoria × Respuesta
atender_actualizacion_contexto m c = elim (buscar_hilo c.pid c.tid m.list_hilos_recibidos) [
  | none ↦ (m, error)
  | some h ↦ (
    record m {
      list_hilos_recibidos =
          actualizar_hilo c.pid c.tid (actualizar_contexto_hilo c) m.list_hilos_recibidos;
    },
    ok,
  )
]

-- The answer to the CPU: the answer "ERROR", or the line that is sent; `none` inside is the NULL of
-- an index out of range, which `enviar_instruccion` reads.
unfoldable pub atender_peticion_instruccion : Memoria → ℕ → ℕ → ℕ → Option (Option (List ℕ))
atender_peticion_instruccion m pid tid program_counter = do
  un_hilo ← buscar_hilo pid tid m.list_hilos_recibidos
  some (obtener_instruccion_por_indice un_hilo program_counter)
