-- ===== src/Kernel/Procesos.antt =====
-- The process control blocks: kernel/src/pcb.c and the types of kernel/src/k_gestor.h. `none` stands
-- for NULL.
use tp_2024_2c_nachi_y_los_o.Comun.{
  ℕ, Bool, false, Option, none, some, List, [], ◌∷◌, map, ◌==◌, if◌then◌else◌,
}
use tp_2024_2c_nachi_y_los_o.Utils.Instrucciones.{strcmp_eq}
use tp_2024_2c_nachi_y_los_o.Kernel.Estado.{HiloId, MutexPcb}

-- `estado_pcb`.
pub data EstadoPcb : Type 0 where
  new_pcb en_memoria_pcb exit_pcb : EstadoPcb

-- `t_pcb`.
pub record Pcb : Type 0 where
  pub pid : ℕ
  pub lista_id_hilo : List HiloId
  pub siguiente_tid : ℕ
  pub lista_mutex : List MutexPcb
  pub tamanio : ℕ
  pub estado : EstadoPcb
  pub archivo_instrucciones : List ℕ
  pub prioridad_tid0 : ℕ
  pub flag_proceso_finalizado : Bool

-- What `crear_pcb` puts into the list NEW.
unfoldable pub nuevo_pcb : ℕ → List ℕ → ℕ → ℕ → Pcb
nuevo_pcb pid archivo tamanio prioridad = record {
  pid = pid;
  lista_id_hilo = record { tid = 0; pid_asociado = pid } ∷ [];
  siguiente_tid = 0;
  lista_mutex = [];
  tamanio = tamanio;
  estado = new_pcb;
  archivo_instrucciones = archivo;
  prioridad_tid0 = prioridad;
  flag_proceso_finalizado = false;
}

unfoldable pub buscar_pcb_por_pid_en : ℕ → List Pcb → Option Pcb
buscar_pcb_por_pid_en pid [] = none
buscar_pcb_por_pid_en pid (p ∷ ps) = if p.pid == pid then some p else buscar_pcb_por_pid_en pid ps

-- `list_remove_element` of the block that the search gives.
unfoldable pub remover_pcb : ℕ → List Pcb → List Pcb
remover_pcb pid [] = []
remover_pcb pid (p ∷ ps) = if p.pid == pid then ps else p ∷ remover_pcb pid ps

-- A change through a pointer to a block: in whichever list it stands.
unfoldable pub modificar_pcb_en : ℕ → (Pcb → Pcb) → List Pcb → List Pcb
modificar_pcb_en pid f ps = map (λ p. if p.pid == pid then f p else p) ps

-- A change through the pointer that `obtener_mutex` gives.
unfoldable pub modificar_mutex_en : List ℕ → (MutexPcb → MutexPcb) → List MutexPcb → List MutexPcb
modificar_mutex_en nombre f [] = []
modificar_mutex_en nombre f (m ∷ ms) =
    if strcmp_eq m.nombre_recurso nombre then f m ∷ ms else m ∷ modificar_mutex_en nombre f ms
