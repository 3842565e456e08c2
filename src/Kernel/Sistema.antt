-- ===== src/Kernel/Sistema.antt =====
-- The global variables of the kernel (kernel/src/k_gestor.h), the threads that it has launched, and
-- the memory module as the kernel sees it (kernel/src/kernel_memoria.c). `none` is an access through
-- NULL, or `exit`.
use tp_2024_2c_nachi_y_los_o.Comun.{ℕ, ◌≡◌, Bool, true, Option, some, List, [], ◌∷◌, ◌++◌, ◌>>=◌}
use tp_2024_2c_nachi_y_los_o.Kernel.Estado.{HiloId, Tcb, MutexPcb, Kernel}
use tp_2024_2c_nachi_y_los_o.Kernel.Mutex.{obtener_mutex}
use tp_2024_2c_nachi_y_los_o.Kernel.Hilos.{◌<|>◌}
use tp_2024_2c_nachi_y_los_o.Kernel.Procesos.{
  Pcb, buscar_pcb_por_pid_en, modificar_pcb_en, modificar_mutex_en,
}

-- The requests to the memory module: each one waits for the answer, which is here whether it is
-- "OK". The end of a process may not be answered.
pub record PedidosMemoria (S : Type 0) : Type 0 where
  pub creacion_proceso : S → ℕ → ℕ → S × Bool
  pub creacion_hilo : S → ℕ → ℕ → List ℕ → S × Bool
  pub finalizacion_hilo : S → ℕ → ℕ → S × Bool
  pub finalizacion_proceso : S → ℕ → Option (S × Bool)
  pub dump_memory : S → ℕ → ℕ → Option (S × Bool)

-- What the kernel relies on: a memory that has accepted a process knows it, and accepts the threads
-- of a process that it knows.
pub record LeyesMemoria {S : Type 0} (mem : PedidosMemoria S) : Type 0 where
  pub conoce : S → ℕ → Bool
  pub conoce-creacion :
      (m : S) (pid tamanio : ℕ)
      → (mem.creacion_proceso m pid tamanio).1 ≡ true
      → conoce (mem.creacion_proceso m pid tamanio).0 pid ≡ true
  pub creacion_hilo-conoce :
      (m : S) (pid tid : ℕ) (archivo : List ℕ)
      → conoce m pid ≡ true
      → (mem.creacion_hilo m pid tid archivo).1 ≡ true

-- The detached threads, each at the section that it runs next: the short-term scheduler,
-- `finalizar_proceso`; `atender_io` at its start, where it blocks the thread and where it tests the
-- size of the list; `manejar_sleep` in `usleep`, where it wakes the thread, where it looks at the
-- list and where it goes on with the next thread; `atender_dump_memory` and its request.
pub data Tarea : Type 0 where
  planificar : Tarea
  finalizar : ℕ → Tarea
  pedir_io : HiloId → ℕ → Tarea
  bloquear_io : HiloId → ℕ → Tarea
  probar_io : HiloId → ℕ → Tarea
  dormir : HiloId → ℕ → Tarea
  despertar_io : HiloId → Tarea
  mirar_io : Tarea
  seguir_io : HiloId → ℕ → Tarea
  volcar : HiloId → Tarea
  pedir_volcado : HiloId → Tarea

pub record Sistema (S : Type 0) : Type 0 where
  pub kernel : Kernel
  pub lista_tcb_exit : List Tcb
  pub process_id : ℕ
  pub lista_pcb_new : List Pcb
  pub lista_pcb_en_memoria : List Pcb
  pub lista_pcb_exit : List Pcb
  pub lista_en_espera_de_io : List (HiloId × ℕ)
  pub hilos : List Tarea
  pub memoria : S
  pub mensajes_a_cpu : List (ℕ × List ℕ)

module _ {S : Type 0} where
  unfoldable pub lanzar : Tarea → Sistema S → Sistema S
  lanzar t s = record s { hilos = s.hilos ++ t ∷ [] }

  unfoldable pub enviar_mensaje_a_cpu : ℕ → List ℕ → Sistema S → Sistema S
  enviar_mensaje_a_cpu codigo mensaje s = record s {
    mensajes_a_cpu = s.mensajes_a_cpu ++ (codigo, mensaje) ∷ [];
  }

  unfoldable pub buscar_pcb_por_pid : ℕ → Sistema S → Option Pcb
  unfolding buscar_pcb_por_pid_en
  buscar_pcb_por_pid pid s =
      buscar_pcb_por_pid_en pid s.lista_pcb_new
      <|> buscar_pcb_por_pid_en pid s.lista_pcb_en_memoria
      <|> buscar_pcb_por_pid_en pid s.lista_pcb_exit

  unfoldable pub modificar_pcb : ℕ → (Pcb → Pcb) → Sistema S → Sistema S
  unfolding modificar_pcb_en
  modificar_pcb pid f s = record s {
    lista_pcb_new = modificar_pcb_en pid f s.lista_pcb_new;
    lista_pcb_en_memoria = modificar_pcb_en pid f s.lista_pcb_en_memoria;
    lista_pcb_exit = modificar_pcb_en pid f s.lista_pcb_exit;
  }

  unfoldable pub modificar_mutex : ℕ → List ℕ → (MutexPcb → MutexPcb) → Sistema S → Sistema S
  unfolding modificar_pcb modificar_mutex_en
  modificar_mutex pid nombre f s =
      modificar_pcb pid (λ p. record p { lista_mutex = modificar_mutex_en nombre f p.lista_mutex })
        s

  -- The mutex behind a pointer that a thread of the process holds.
  unfoldable pub mutex_de : ℕ → List ℕ → Sistema S → Option MutexPcb
  unfolding buscar_pcb_por_pid obtener_mutex
  mutex_de pid nombre s = buscar_pcb_por_pid pid s >>= λ p. obtener_mutex nombre p.lista_mutex

-- An operation of the scheduler on the lists of threads.
abbrev pub con_kernel : {S : Type 0} → Sistema S → Option Kernel → Option (Sistema S)
con_kernel s o = o >>= λ k. some (record s { kernel = k })
