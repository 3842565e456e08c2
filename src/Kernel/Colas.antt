-- ===== src/Kernel/Colas.antt =====
-- The lists of threads: kernel/src/tcb.c, kernel/src/cola_multinivel.c and the list of ready
-- threads of kernel/src/servicios_kernel.c. `none` stands for NULL, or an access through it.
use tp_2024_2c_nachi_y_los_o.Comun.{
  ℕ, zero, suc, Bool, true, false, Option, none, some, List, [], ◌∷◌, ◌++◌, ◌==◌, if◌then◌else◌,
  ◌>>=◌,
}
use tp_2024_2c_nachi_y_los_o.Kernel.Estado.{
  Algoritmo, fifo, prioridades, cmn, ready, Tcb, ColaMultinivel, Kernel, es_hilo, elegir,
  MaximoCola,
}

unfoldable pub buscar_tcb_por_tid_de : ℕ → ℕ → List Tcb → Option Tcb
buscar_tcb_por_tid_de tid pid [] = none
buscar_tcb_por_tid_de tid pid (t ∷ ts) =
    if es_hilo tid pid t.id_hilo then some t else buscar_tcb_por_tid_de tid pid ts

-- `list_remove_element` of the thread that the search gives.
unfoldable pub remover_tcb_de_lista : ℕ → ℕ → List Tcb → List Tcb
remover_tcb_de_lista tid pid [] = []
remover_tcb_de_lista tid pid (t ∷ ts) =
    if es_hilo tid pid t.id_hilo then ts else t ∷ remover_tcb_de_lista tid pid ts

unfoldable pub buscar_y_remover_tcb_por_tid_de : ℕ → ℕ → List Tcb → Option (Tcb × List Tcb)
unfolding buscar_tcb_por_tid_de remover_tcb_de_lista
buscar_y_remover_tcb_por_tid_de tid pid ts =
    buscar_tcb_por_tid_de tid pid ts >>= λ t. some (t, remover_tcb_de_lista tid pid ts)

unfoldable pub obtener_cola_por_prioridad : ℕ → List ColaMultinivel → Option ColaMultinivel
obtener_cola_por_prioridad prioridad [] = none
obtener_cola_por_prioridad prioridad (c ∷ cs) =
    if c.prioridad_lista == prioridad then some c else obtener_cola_por_prioridad prioridad cs

unfoldable pub existe_cola_con_esa_prioridad : ℕ → List ColaMultinivel → Bool
existe_cola_con_esa_prioridad prioridad cs = elim (obtener_cola_por_prioridad prioridad cs) [
  | none ↦ false
  | some c ↦ true
]

unfoldable pub crear_colamultinivel : ℕ → List ColaMultinivel → List ColaMultinivel
crear_colamultinivel prioridad cs =
    if existe_cola_con_esa_prioridad prioridad cs
    then cs
    else cs ++ record { prioridad_lista = prioridad; lista_ready = [] } ∷ []

-- `list_add` to the queue that `obtener_cola_por_prioridad` gives.
unfoldable pub agregar_a_cola : Tcb → List ColaMultinivel → Option (List ColaMultinivel)
agregar_a_cola t [] = none
agregar_a_cola t (c ∷ cs) =
    let resto = agregar_a_cola t cs in
    if c.prioridad_lista == t.prioridad
    then some (record c { lista_ready = c.lista_ready ++ t ∷ [] } ∷ cs)
    else (resto >>= λ cs'. some (c ∷ cs'))

unfoldable pub agregar_segun : Algoritmo → Kernel → Tcb → Option Kernel
agregar_segun fifo k t = some (record k { lista_tcb_ready = k.lista_tcb_ready ++ t ∷ [] })
agregar_segun prioridades k t = some (record k { lista_tcb_ready = k.lista_tcb_ready ++ t ∷ [] })
agregar_segun cmn k t = agregar_a_cola t k.lista_cola_multinivel >>= λ cs.
    some (record k { lista_cola_multinivel = cs })

-- The thread gets the state READY.
unfoldable pub agregar_hilo_a_lista_ready : Kernel → Tcb → Option Kernel
agregar_hilo_a_lista_ready k t =
    agregar_segun k.algoritmo_planificacion k (record t { estado = ready })

abbrev pub vacia : {A : Type 0} → List A → Bool
vacia [] = true
vacia (x ∷ xs) = false

unfoldable pub todas_las_colas_estan_vacias : List ColaMultinivel → Bool
todas_las_colas_estan_vacias [] = true
todas_las_colas_estan_vacias (c ∷ cs) =
    if vacia c.lista_ready then todas_las_colas_estan_vacias cs else false

-- `list_filter(lista_cola_multinivel, tiene_hilos_ready)`.
unfoldable pub colas_con_elementos : List ColaMultinivel → List ColaMultinivel
colas_con_elementos [] = []
colas_con_elementos (c ∷ cs) =
    let resto = colas_con_elementos cs in if vacia c.lista_ready then resto else c ∷ resto

-- The head of the queue `c`, whose threads are given, where it is the one sought; else the search
-- goes on.
unfoldable pub sacar_cabeza :
    (ℕ → Option (Tcb × List ColaMultinivel))
    → ℕ
    → ColaMultinivel
    → List Tcb
    → List ColaMultinivel
    → Option (Tcb × List ColaMultinivel)
sacar_cabeza sigue i c [] cs = sigue i >>= λ (t, cs'). some (t, c ∷ cs')
sacar_cabeza sigue zero c (t ∷ ts) cs = some (t, record c { lista_ready = ts } ∷ cs)
sacar_cabeza sigue (suc i) c (t ∷ ts) cs = sigue i >>= λ (t', cs'). some (t', c ∷ cs')

-- `list_remove(…, 0)` from the queue at a position among those with threads.
unfoldable pub sacar_de_cola : ℕ → List ColaMultinivel → Option (Tcb × List ColaMultinivel)
unfolding sacar_cabeza
sacar_de_cola i [] = none
sacar_de_cola i (c ∷ cs) = sacar_cabeza (λ j. sacar_de_cola j cs) i c c.lista_ready cs

unfoldable pub obtener_siguiente_tcb_a_ejecutar_en_cmn :
    MaximoCola → List ColaMultinivel → Option (Tcb × List ColaMultinivel)
unfolding colas_con_elementos sacar_de_cola
obtener_siguiente_tcb_a_ejecutar_en_cmn mc cs =
    mc.list_get_maximum (elegir (λ c. c.prioridad_lista)) (colas_con_elementos cs) >>= λ i.
    sacar_de_cola i cs
