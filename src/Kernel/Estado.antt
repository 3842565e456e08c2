-- ===== src/Kernel/Estado.antt =====
-- The data of the kernel module: kernel/src/k_gestor.h. An `int` is its 32-bit pattern.
use tp_2024_2c_nachi_y_los_o.Comun.{
  ℕ, ◌≡◌, Bool, false, ◌&&◌, Option, some, List, ◌∷◌, ◌==◌, get_elem?, lt_int, if◌then◌else◌, All,
}

-- `t_algoritmo`.
pub data Algoritmo : Type 0 where
  fifo prioridades cmn : Algoritmo

-- `estado_tcb`.
pub data EstadoTcb : Type 0 where
  ready exec blocked exit : EstadoTcb

-- `t_hilo_id`.
pub record HiloId : Type 0 where
  pub tid : ℕ
  pub pid_asociado : ℕ

-- `t_tcb`; of a mutex that is assigned to it, the name of its resource.
pub record Tcb : Type 0 where
  pub id_hilo : HiloId
  pub prioridad : ℕ
  pub verificador : ℕ
  pub estado : EstadoTcb
  pub tids_en_espera_por_join : List HiloId
  pub lista_mutex_asignados : List (List ℕ)
  pub flag_cancelar_quantum : Bool

-- `t_cola_multinivel`.
pub record ColaMultinivel : Type 0 where
  pub prioridad_lista : ℕ
  pub lista_ready : List Tcb

-- `t_mutex_pcb`.
pub record MutexPcb : Type 0 where
  pub nombre_recurso : List ℕ
  pub lista_bloqueados : List HiloId
  pub id_hilo_asignado : HiloId

-- The global variables of the short-term scheduler, and what it has sent to the CPU: the pid, the
-- tid and the verificador of each thread.
pub record Kernel : Type 0 where
  pub algoritmo_planificacion : Algoritmo
  pub lista_tcb_ready : List Tcb
  pub lista_tcb_exec : List Tcb
  pub lista_tcb_blocked : List Tcb
  pub lista_cola_multinivel : List ColaMultinivel
  pub var_verificador : ℕ
  pub a_cpu : List (ℕ × ℕ × ℕ)

abbrev pub es_hilo : ℕ → ℕ → HiloId → Bool
es_hilo tid pid h = (h.tid == tid) && (h.pid_asociado == pid)

-- The comparator of both priorities: the smaller number wins, the first of two equal ones.
abbrev pub elegir : {A : Type 0} → (A → ℕ) → A → A → A
elegir clave a b = if lt_int (clave b) (clave a) then b else a

-- `list_get_maximum` of so-commons-library, with the comparator of a key: the position of the
-- element that it gives.
pub record Maximo (A : Type 0) (clave : A → ℕ) : Type 0 where
  pub list_get_maximum : (A → A → A) → List A → Option ℕ
  pub maximo_elegir :
      (x : A) (xs : List A)
      → (i : ℕ) × (z : A) × (list_get_maximum (elegir clave) (x ∷ xs) ≡ some i)
        × (get_elem? (x ∷ xs) i ≡ some z)
        × All (λ y. lt_int (clave y) (clave z) ≡ false) (x ∷ xs)

-- The key of a thread and the key of a queue.
abbrev pub MaximoTcb : Type 0
MaximoTcb = Maximo Tcb (λ t. t.prioridad)

abbrev pub MaximoCola : Type 0
MaximoCola = Maximo ColaMultinivel (λ c. c.prioridad_lista)
