-- ===== src/Memoria/Proceso.antt =====
-- Processes in memory: memoria/src/proceso.c, and the requests of the kernel about them in
-- memoria/src/memoria_kernel.c.
pub mod Geometria
pub mod Pedidos
pub mod Finalizacion
use tp_2024_2c_nachi_y_los_o.Comun.{
  ◌&&◌, ℕ, suc, ◌+◌, ◌≡◌, Bool, true, false, Option, none, some, List, [], ◌∷◌, ◌++◌, ◌==◌,
  if◌then◌else◌, ◌>>=◌, set, menos_uno, add32, sub32, lt_int,
}
use tp_2024_2c_nachi_y_los_o.Memoria.Estado.{Esquema, fijas, dinamicas, Proceso, Particion, Memoria}
use tp_2024_2c_nachi_y_los_o.Memoria.Particion.{
  Commons, Puntero, buscar_particion_por_id, obtener_particion_a_asignar,
  unificar_particiones_libres_contiguas,
}

-- The process that both schemes create, with the last address that they give it.
abbrev pub nuevo_proceso : ℕ → ℕ → Particion → Proceso
nuevo_proceso pid limite p = record {
  pid = pid;
  base = p.base;
  limite = limite;
  particion_asignada_id = p.particion_id;
  mayor_direccion_fisica_escrita = menos_uno;
}

unfoldable pub crear_proceso_esquema_fijo : Memoria → ℕ → Puntero → Memoria
crear_proceso_esquema_fijo m pid (i, p) = record m {
  lista_procesos_recibidos =
      m.lista_procesos_recibidos ++ nuevo_proceso pid (sub32 (add32 p.base p.tamanio) 1) p ∷ [];
  lista_particiones =
      set m.lista_particiones i (record p { proceso_en_particion = some pid; esta_ocupada = true });
}

-- The rest of a partition that is larger than the process.
abbrev pub sobrante : ℕ → ℕ → ℕ → Particion → Particion
sobrante id limite tamanio p = record {
  tamanio = sub32 p.tamanio tamanio;
  particion_id = id;
  esta_ocupada = false;
  base = add32 limite 1;
  limite = p.limite;
  proceso_en_particion = none;
}

unfoldable pub crear_proceso_esquema_dinamico : Memoria → ℕ → Puntero → ℕ → Memoria
crear_proceso_esquema_dinamico m pid (i, p) tamanio =
    let limite = sub32 (add32 p.base tamanio) 1 in
    let procesos = m.lista_procesos_recibidos ++ nuevo_proceso pid limite p ∷ [] in
    if lt_int tamanio p.tamanio
    then record m {
      lista_procesos_recibidos = procesos;
      particion_id = add32 m.particion_id 1;
      lista_particiones =
          set m.lista_particiones i (record p {
            limite = limite;
            tamanio = tamanio;
            proceso_en_particion = some pid;
            esta_ocupada = true;
          })
          ++ sobrante m.particion_id limite tamanio p ∷ [];
    }
    else record m {
      lista_procesos_recibidos = procesos;
      lista_particiones =
          set m.lista_particiones i
            (record p { proceso_en_particion = some pid; esta_ocupada = true });
    }

-- `puntero != NULL`.
abbrev pub no_es_null : {A : Type 0} → Option A → Bool
no_es_null none = false
no_es_null (some x) = true

-- The answer to a request: "OK" or "ERROR".
pub data Respuesta : Type 0 where
  ok error : Respuesta

-- The two tests of `ESQUEMA`.
unfoldable pub crear_segun : Esquema → Memoria → ℕ → Puntero → ℕ → Memoria
crear_segun fijas m pid p tamanio = crear_proceso_esquema_fijo m pid p
crear_segun dinamicas m pid p tamanio = crear_proceso_esquema_dinamico m pid p tamanio

unfoldable pub atender_creacion_proceso : Memoria → ℕ → ℕ → Memoria × Respuesta
atender_creacion_proceso m pid tamanio =
    elim (obtener_particion_a_asignar m.algoritmo_busqueda tamanio m.lista_particiones) [
      | none ↦ (m, error)
      | some p ↦ (crear_segun m.esquema m pid p tamanio, ok)
    ]

-- `list_find` of the first process with the pid.
unfoldable pub buscar_proceso : ℕ → List Proceso → Option Proceso
buscar_proceso pid [] = none
buscar_proceso pid (p ∷ ps) = if p.pid == pid then some p else buscar_proceso pid ps

unfoldable pub existe_proceso : ℕ → List Proceso → Bool
existe_proceso pid ps = elim (buscar_proceso pid ps) [ none ↦ false | some p ↦ true ]

-- `list_remove_and_destroy_by_condition`: the first process with the pid goes.
unfoldable pub remover_proceso : ℕ → List Proceso → List Proceso
remover_proceso pid [] = []
remover_proceso pid (p ∷ ps) = if p.pid == pid then ps else p ∷ remover_proceso pid ps

-- Neither pointer is NULL where it is called.
unfoldable pub finalizar_proceso : Memoria → Puntero → Proceso → Memoria
finalizar_proceso m (i, p) proceso = record m {
  lista_particiones =
      set m.lista_particiones i (record p { esta_ocupada = false; proceso_en_particion = none });
  lista_procesos_recibidos = remover_proceso proceso.pid m.lista_procesos_recibidos;
}

-- `if(ESQUEMA == DINAMICAS) unificar_particiones_libres_contiguas()`.
unfoldable pub unificar_segun : Esquema → Commons → Memoria → Option Memoria
unificar_segun fijas c m = some m
unificar_segun dinamicas c m = unificar_particiones_libres_contiguas c m.lista_particiones >>= λ ps.
    some (record m { lista_particiones = ps })

-- The pointers are those of the two searches: `none` is NULL, and each step with `←` is a read through
-- one of them.
unfoldable pub atender_finalizacion_proceso : Commons → Memoria → ℕ → Option (Memoria × Respuesta)
atender_finalizacion_proceso c m pid = do
  let un_proceso = buscar_proceso pid m.lista_procesos_recibidos
  proceso ← un_proceso
  let una_particion = buscar_particion_por_id proceso.particion_asignada_id m.lista_particiones
  particion ← una_particion
  if no_es_null un_proceso && no_es_null una_particion
      then (unificar_segun m.esquema c (finalizar_proceso m particion proceso) >>= λ m'.
          some (m', ok))
      else some (m, error)
