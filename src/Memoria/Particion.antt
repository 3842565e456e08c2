-- ===== src/Memoria/Particion.antt =====
-- Partitions: memoria/src/particion.c, and `iniciar_particiones` of memoria/src/inicializar_memoria.c.
pub mod Busqueda
pub mod Cobertura
pub mod Rondas
pub mod Union
use tp_2024_2c_nachi_y_los_o.Comun.{
  ℕ, zero, suc, ◌+◌, ◌≡◌, Bool, true, false, not, ◌&&◌, ◌||◌, Option, none, some, List, [], ◌∷◌,
  ◌++◌, ◌==◌, if◌then◌else◌, ◌>>=◌, length, add32, sub32, lt_int,
}
use mathlib.Core.List.{Perm}
use tp_2024_2c_nachi_y_los_o.Memoria.Estado.{
  AlgoritmoBusqueda, first, best, worst, Esquema, fijas, dinamicas, Particion,
}

-- A pointer into `lista_particiones`: the position, and the partition that stands there.
abbrev pub Puntero : Type 0
Puntero = ℕ × Particion

-- The loops below walk the rest of the list; `i` is the position of its head.
buscar_id_desde : ℕ → ℕ → List Particion → Option Puntero
buscar_id_desde i particion_id [] = none
buscar_id_desde i particion_id (p ∷ ps) =
    if p.particion_id == particion_id then some (i, p) else buscar_id_desde (suc i) particion_id ps

unfoldable pub buscar_particion_por_id : ℕ → List Particion → Option Puntero
unfolding buscar_id_desde
buscar_particion_por_id particion_id ps = buscar_id_desde 0 particion_id ps

buscar_base_y_limite_desde : ℕ → ℕ → ℕ → List Particion → Option Puntero
buscar_base_y_limite_desde i base limite [] = none
buscar_base_y_limite_desde i base limite (p ∷ ps) =
    if (p.base == base) && (p.limite == limite)
    then some (i, p)
    else buscar_base_y_limite_desde (suc i) base limite ps

unfoldable pub buscar_particion_por_base_y_limite : ℕ → ℕ → List Particion → Option Puntero
unfolding buscar_base_y_limite_desde
buscar_particion_por_base_y_limite base limite ps = buscar_base_y_limite_desde 0 base limite ps

-- `!particion->esta_ocupada && particion->tamanio >= tamanio_solicitado`.
abbrev pub apta : ℕ → Particion → Bool
apta tamanio_solicitado p = not p.esta_ocupada && not (lt_int p.tamanio tamanio_solicitado)

primera_desde : ℕ → ℕ → List Particion → Option Puntero
primera_desde t i [] = none
primera_desde t i (p ∷ ps) = if apta t p then some (i, p) else primera_desde t (suc i) ps

unfoldable pub obtener_primera_particion_libre : ℕ → List Particion → Option Puntero
unfolding primera_desde
obtener_primera_particion_libre t ps = primera_desde t 0 ps

-- `elegida == NULL || gana particion elegida`.
abbrev pub gana_a : (Particion → Particion → Bool) → Particion → Option Puntero → Bool
gana_a gana p none = true
gana_a gana p (some (j, q)) = gana p q

-- `particion->tamanio > peor_particion->tamanio`.
abbrev pub mayor_que : Particion → Particion → Bool
mayor_que p q = lt_int q.tamanio p.tamanio

peor_desde : ℕ → ℕ → List Particion → Option Puntero → Option Puntero
peor_desde t i [] peor = peor
peor_desde t i (p ∷ ps) peor =
    peor_desde t (suc i) ps (if apta t p && gana_a mayor_que p peor then some (i, p) else peor)

unfoldable pub obtener_peor_particion_libre : ℕ → List Particion → Option Puntero
unfolding peor_desde
obtener_peor_particion_libre t ps = peor_desde t 0 ps none

-- `particion->tamanio < mejor_particion->tamanio`.
abbrev pub menor_que : Particion → Particion → Bool
menor_que p q = lt_int p.tamanio q.tamanio

mejor_desde : ℕ → ℕ → List Particion → Option Puntero → Option Puntero
mejor_desde t i [] mejor = mejor
mejor_desde t i (p ∷ ps) mejor =
    mejor_desde t (suc i) ps (if apta t p && gana_a menor_que p mejor then some (i, p) else mejor)

unfoldable pub obtener_mejor_particion_libre : ℕ → List Particion → Option Puntero
unfolding mejor_desde
obtener_mejor_particion_libre t ps = mejor_desde t 0 ps none

unfoldable pub obtener_particion_a_asignar : AlgoritmoBusqueda → ℕ → List Particion → Option Puntero
obtener_particion_a_asignar first t ps = obtener_primera_particion_libre t ps
obtener_particion_a_asignar worst t ps = obtener_peor_particion_libre t ps
obtener_particion_a_asignar best t ps = obtener_mejor_particion_libre t ps

-- `list_sort` of the commons library, as far as the program relies on it: a list is only
-- rearranged, and where the comparator is the order of a key the result is in that order.
pub data Ordenada (clave : Particion → ℕ) : List Particion → Type 0 where
  nada : Ordenada clave []
  una : (p : Particion) → Ordenada clave (p ∷ [])
  mas :
      (p q : Particion) (ps : List Particion)
      → lt_int (clave q) (clave p) ≡ false
      → Ordenada clave (q ∷ ps)
      → Ordenada clave (p ∷ q ∷ ps)

pub record Commons : Type 0 where
  pub list_sort : (Particion → Particion → Bool) → List Particion → List Particion
  pub list_sort_perm :
      (antes : Particion → Particion → Bool) (ps : List Particion) → Perm (list_sort antes ps) ps
  pub list_sort_ordena :
      (clave : Particion → ℕ) (ps : List Particion)
      → Ordenada clave (list_sort (λ p q. lt_int (clave p) (clave q)) ps)

-- One round of the `do` loop: the first two free neighbours that touch become one. `none` is
-- `hubo_cambios == false`.
unfoldable pub pasada : List Particion → Option (List Particion)
pasada [] = none
pasada (p ∷ []) = none
pasada (p ∷ q ∷ ps) =
    if not p.esta_ocupada && (not q.esta_ocupada && (add32 p.limite 1 == q.base))
    then some (record p { tamanio = add32 p.tamanio q.tamanio; limite = q.limite } ∷ ps)
    else (pasada (q ∷ ps) >>= λ rs. some (p ∷ rs))

-- The `do` loop on fuel; `none` means that the fuel ran out.
unfoldable pub unir : ℕ → List Particion → Option (List Particion)
unir zero ps = none
unir (suc f) ps = elim (pasada ps) [ none ↦ some ps | some rs ↦ unir f rs ]

module _ (c : Commons) where
  unfoldable pub ordenar_particiones_por_base : List Particion → List Particion
  ordenar_particiones_por_base ps = c.list_sort (λ p q. lt_int p.base q.base) ps

  -- `mostrarParticiones` sorts the list before it prints it, here and at the end.
  unfoldable pub unificar_particiones_libres_contiguas : List Particion → Option (List Particion)
  unfolding ordenar_particiones_por_base
  unificar_particiones_libres_contiguas ps = do
    let ordenadas = ordenar_particiones_por_base ps
    unidas ← unir (suc (length ordenadas)) ordenadas
    some (ordenar_particiones_por_base unidas)

-- The loop over PARTICIONES with the sizes that are left: `i` and `suma_limite`.
iniciar_fijas : ℕ → ℕ → List ℕ → List Particion
iniciar_fijas i suma_limite [] = []
iniciar_fijas i suma_limite (tamanio ∷ tamanios) =
    record {
      tamanio = tamanio;
      particion_id = i;
      esta_ocupada = false;
      base = suma_limite;
      limite = sub32 (add32 suma_limite tamanio) 1;
      proceso_en_particion = none;
    }
    ∷ iniciar_fijas (i + 1) (add32 suma_limite tamanio) tamanios

unfoldable pub iniciar_particiones : Esquema → ℕ → List ℕ → List Particion
unfolding iniciar_fijas
iniciar_particiones fijas tam_memoria tamanios = iniciar_fijas 0 0 tamanios
iniciar_particiones dinamicas tam_memoria tamanios =
    record {
      tamanio = tam_memoria;
      particion_id = 0;
      esta_ocupada = false;
      base = 0;
      limite = sub32 (add32 0 tam_memoria) 1;
      proceso_en_particion = none;
    }
    ∷ []
