-- ===== src/Kernel/Mutex.antt =====
-- The mutexes of a process: kernel/src/mutex.c, and the case MUTEX_LOCK of
-- kernel/src/kernel_cpu_dispatch.c. `none` is an access through NULL; -1 is `menos_uno`.
pub mod Exclusion
use tp_2024_2c_nachi_y_los_o.Comun.{
  ℕ, ◌≡◌, Bool, true, false, ◌&&◌, not, Option, none, some, List, [], ◌∷◌, ◌++◌, ◌==◌,
  if◌then◌else◌, ◌>>=◌, menos_uno,
}
use tp_2024_2c_nachi_y_los_o.Utils.Instrucciones.{strcmp_eq}
use tp_2024_2c_nachi_y_los_o.Kernel.Estado.{
  HiloId, Tcb, ColaMultinivel, MutexPcb, Kernel, es_hilo, MaximoTcb, MaximoCola,
}
use tp_2024_2c_nachi_y_los_o.Kernel.Planificacion.{bloquear_hilo_en_ejecucion}

-- The list of mutexes of the process.
unfoldable pub crear_mutex : List ℕ → List MutexPcb → List MutexPcb
crear_mutex nombre ms =
    ms
    ++ record {
      nombre_recurso = nombre;
      lista_bloqueados = [];
      id_hilo_asignado = record { tid = menos_uno; pid_asociado = menos_uno };
    }
      ∷ []

unfoldable pub obtener_mutex : List ℕ → List MutexPcb → Option MutexPcb
obtener_mutex nombre [] = none
obtener_mutex nombre (m ∷ ms) =
    if strcmp_eq m.nombre_recurso nombre then some m else obtener_mutex nombre ms

abbrev pub esta_tomado_por : MutexPcb → ℕ → ℕ → Bool
esta_tomado_por m tid pid =
    (m.id_hilo_asignado.tid == tid) && (m.id_hilo_asignado.pid_asociado == pid)

abbrev pub esta_tomado : MutexPcb → Bool
esta_tomado m = not (esta_tomado_por m menos_uno menos_uno)

unfoldable pub asignar_mutex : MutexPcb → ℕ → ℕ → MutexPcb
asignar_mutex m tid pid = record m { id_hilo_asignado = record { tid = tid; pid_asociado = pid } }

unfoldable pub liberar_mutex : MutexPcb → MutexPcb
liberar_mutex m = record m {
  id_hilo_asignado = record { tid = menos_uno; pid_asociado = menos_uno };
}

-- `list_remove_by_condition`.
unfoldable pub remover_id_hilo_de_lista : ℕ → ℕ → List HiloId → List HiloId
remover_id_hilo_de_lista tid pid [] = []
remover_id_hilo_de_lista tid pid (h ∷ hs) =
    if es_hilo tid pid h then hs else h ∷ remover_id_hilo_de_lista tid pid hs

unfoldable pub remover_hilo_de_mutex : MutexPcb → HiloId → MutexPcb
unfolding remover_id_hilo_de_lista
remover_hilo_de_mutex m h = record m {
  lista_bloqueados = remover_id_hilo_de_lista h.tid h.pid_asociado m.lista_bloqueados;
}

-- A change through the pointer to the first thread found in a list.
unfoldable pub modificar_en : ℕ → ℕ → (Tcb → Tcb) → List Tcb → List Tcb
modificar_en tid pid f [] = []
modificar_en tid pid f (t ∷ ts) =
    if es_hilo tid pid t.id_hilo then f t ∷ ts else t ∷ modificar_en tid pid f ts

-- The answer to MUTEX_LOCK: "OK" or "DESALOJO".
pub data RtaMutexLock : Type 0 where
  ok desalojo : RtaMutexLock

-- The branch of MUTEX_LOCK for a mutex that exists; the thread is the one that executes.
unfoldable pub atender_mutex_lock :
    MaximoTcb → MaximoCola → Kernel → MutexPcb → ℕ → ℕ → Option (Kernel × MutexPcb × RtaMutexLock)
unfolding modificar_en asignar_mutex
atender_mutex_lock mt mc k m tid pid =
    if esta_tomado m
    then (bloquear_hilo_en_ejecucion mt mc k tid pid >>= λ k'. some (
      k',
      record m {
        lista_bloqueados = m.lista_bloqueados ++ record { tid = tid; pid_asociado = pid } ∷ [];
      },
      desalojo,
    ))
    else some (
      record k {
        lista_tcb_exec =
            modificar_en tid pid
              (λ t. record t {
                lista_mutex_asignados = t.lista_mutex_asignados ++ m.nombre_recurso ∷ [];
              })
              k.lista_tcb_exec;
      },
      asignar_mutex m tid pid,
      ok,
    )

-- What `protocolo_liberacion_recurso` makes of the mutex: the first thread that waits gets it, or
-- nobody. `desbloquear_hilo` wakes that thread.
unfoldable pub ceder : MutexPcb → List HiloId → MutexPcb
unfolding asignar_mutex liberar_mutex
ceder m [] = liberar_mutex m
ceder m (h ∷ hs) = asignar_mutex (record m { lista_bloqueados = hs }) h.tid h.pid_asociado
