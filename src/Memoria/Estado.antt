-- ===== src/Memoria/Estado.antt =====
-- The data of the memory module: memoria/src/m_gestor.h. An `int` is its 32-bit pattern. A pointer
-- to an element of a list is the element's position, or the key by which the code looks it up.
use tp_2024_2c_nachi_y_los_o.Comun.{ℕ, Bool, Option, List}
use tp_2024_2c_nachi_y_los_o.Utils.Contexto.{RegistrosCpu}

-- `t_algoritmo_busqueda`.
pub data AlgoritmoBusqueda : Type 0 where
  first best worst : AlgoritmoBusqueda

-- `t_esquema`.
pub data Esquema : Type 0 where
  fijas dinamicas : Esquema

-- `t_proceso`.
pub record Proceso : Type 0 where
  pub pid : ℕ
  pub base : ℕ
  pub limite : ℕ
  pub particion_asignada_id : ℕ
  pub mayor_direccion_fisica_escrita : ℕ

-- `t_particion`; of the process that it holds, the pid, which is all that is read through it.
pub record Particion : Type 0 where
  pub tamanio : ℕ
  pub particion_id : ℕ
  pub esta_ocupada : Bool
  pub base : ℕ
  pub limite : ℕ
  pub proceso_en_particion : Option ℕ

-- `t_hilo`; the name of its file is not read again.
pub record Hilo : Type 0 where
  pub pid_asociado : ℕ
  pub tid : ℕ
  pub registros : RegistrosCpu
  pub lista_instrucciones : List (List ℕ)
  pub maximo_pc : ℕ

-- The global variables of the module.
pub record Memoria : Type 0 where
  pub esquema : Esquema
  pub algoritmo_busqueda : AlgoritmoBusqueda
  pub tam_memoria : ℕ
  pub particion_id : ℕ
  pub lista_particiones : List Particion
  pub lista_procesos_recibidos : List Proceso
  pub list_hilos_recibidos : List Hilo
  pub espacio_usuario : List ℕ
