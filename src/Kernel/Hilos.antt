-- ===== src/Kernel/Hilos.antt =====
-- The threads over all the lists: kernel/src/tcb.c and the searches of kernel/src/cola_multinivel.c.
-- `none` stands for NULL.
pub mod Busqueda
use tp_2024_2c_nachi_y_los_o.Comun.{
  ℕ, zero, suc, ◌+◌, ◌-◌, ◌*◌, ◌/◌, ◌%◌, ◌^◌, ◌≤◌, ◌<◌, ◌≡◌, refl, sym, ap, ◌∙◌, ◌≢◌, ◌↔◌, ◌⊎◌, inl,
  inr, Bool, true, false, not, ◌&&◌, ◌||◌, Option, none, some, List, [], ◌∷◌, ◌++◌, map, arith, ltb,
  leb, ◌==◌, if◌then◌else◌, ltb→lt, leb→le, ==_iff, Bool-cases, Option-cases, ◌>>=◌, >>=-eq-some,
  if_si, if_no, codes, copiar_en, copiar_de, byte_en, tras_copia, cabe-copiar, copiar_en-total,
  length-copiar, copiado, byte_ajeno, get_or-take, get_or-drop, length-take, length-drop, length,
  get_elem?, get_or, set, take, drop, All, length-append, take-append, drop-append, length-set,
  get_elem?-set_self, get_elem?-set_ne, All-append, All-set, All-get_elem?, mod32, menos_uno, add32,
  sub32, lt_int, menor_length,
}
use tp_2024_2c_nachi_y_los_o.Kernel.Estado.{
  Algoritmo, fifo, prioridades, cmn, Tcb, ColaMultinivel, Kernel, es_hilo,
}
use tp_2024_2c_nachi_y_los_o.Kernel.Colas.{buscar_tcb_por_tid_de, buscar_y_remover_tcb_por_tid_de}
use tp_2024_2c_nachi_y_los_o.Kernel.Mutex.{modificar_en}

-- The second search runs where the first one gives NULL.
infixr 4 ◌<|>◌
abbrev pub ◌<|>◌ : {A : Type 0} → Option A → Option A → Option A
none <|> o = o
some a <|> o = some a

unfoldable pub buscar_tcb_en_cola_multinivel : ℕ → ℕ → List ColaMultinivel → Option Tcb
buscar_tcb_en_cola_multinivel tid pid [] = none
buscar_tcb_en_cola_multinivel tid pid (c ∷ cs) =
    buscar_tcb_por_tid_de tid pid c.lista_ready <|> buscar_tcb_en_cola_multinivel tid pid cs

-- What a removal gives, with what it leaves.
abbrev pub dejando : {L M : Type 0} → Option (Tcb × L) → (L → M) → Option (Tcb × M)
dejando o poner = o >>= λ (t, l). some (t, poner l)

-- What is found is taken out of the queue.
unfoldable pub buscar_y_remover_tcb_de_cola_multinivel :
    ℕ → ℕ → List ColaMultinivel → Option (Tcb × List ColaMultinivel)
buscar_y_remover_tcb_de_cola_multinivel tid pid [] = none
buscar_y_remover_tcb_de_cola_multinivel tid pid (c ∷ cs) =
    dejando (buscar_y_remover_tcb_por_tid_de tid pid c.lista_ready)
      (λ ts. record c { lista_ready = ts } ∷ cs)
    <|> dejando (buscar_y_remover_tcb_de_cola_multinivel tid pid cs) (λ cs'. c ∷ cs')

-- The ready threads, in the lists that the algorithm uses.
unfoldable pub buscar_listo : Algoritmo → ℕ → ℕ → Kernel → Option Tcb
unfolding buscar_tcb_en_cola_multinivel
buscar_listo fifo tid pid k = buscar_tcb_por_tid_de tid pid k.lista_tcb_ready
buscar_listo prioridades tid pid k = buscar_tcb_por_tid_de tid pid k.lista_tcb_ready
buscar_listo cmn tid pid k = buscar_tcb_en_cola_multinivel tid pid k.lista_cola_multinivel

unfoldable pub buscar_tcb_por_tid : ℕ → ℕ → Kernel → Option Tcb
unfolding buscar_listo
buscar_tcb_por_tid tid pid k =
    buscar_listo k.algoritmo_planificacion tid pid k
    <|> buscar_tcb_por_tid_de tid pid k.lista_tcb_exec
    <|> buscar_tcb_por_tid_de tid pid k.lista_tcb_blocked

unfoldable pub existe_hilo : ℕ → ℕ → Kernel → Bool
unfolding buscar_tcb_por_tid
existe_hilo tid pid k = elim (buscar_tcb_por_tid tid pid k) [ none ↦ false | some t ↦ true ]

unfoldable pub remover_listo : Algoritmo → ℕ → ℕ → Kernel → Option (Tcb × Kernel)
unfolding buscar_y_remover_tcb_de_cola_multinivel
remover_listo fifo tid pid k =
    dejando (buscar_y_remover_tcb_por_tid_de tid pid k.lista_tcb_ready)
      (λ ts. record k { lista_tcb_ready = ts })
remover_listo prioridades tid pid k =
    dejando (buscar_y_remover_tcb_por_tid_de tid pid k.lista_tcb_ready)
      (λ ts. record k { lista_tcb_ready = ts })
remover_listo cmn tid pid k =
    dejando (buscar_y_remover_tcb_de_cola_multinivel tid pid k.lista_cola_multinivel)
      (λ cs. record k { lista_cola_multinivel = cs })

unfoldable pub buscar_y_remover_tcb_por_tid : ℕ → ℕ → Kernel → Option (Tcb × Kernel)
unfolding remover_listo
buscar_y_remover_tcb_por_tid tid pid k =
    remover_listo k.algoritmo_planificacion tid pid k
    <|> dejando (buscar_y_remover_tcb_por_tid_de tid pid k.lista_tcb_exec)
        (λ ts. record k { lista_tcb_exec = ts })
    <|> dejando (buscar_y_remover_tcb_por_tid_de tid pid k.lista_tcb_blocked)
        (λ ts. record k { lista_tcb_blocked = ts })

-- The thread that executes gets the verificador that the CPU sends.
unfoldable pub obtener_hilo_desalojado : ℕ → ℕ → ℕ → Kernel → Option (Tcb × Kernel)
unfolding modificar_en
obtener_hilo_desalojado pid tid verificador k =
    buscar_tcb_por_tid_de tid pid k.lista_tcb_exec >>= λ t. some (
      record t { verificador = verificador },
      record k {
        lista_tcb_exec =
            modificar_en tid pid (λ t. record t { verificador = verificador }) k.lista_tcb_exec;
      },
    )

-- A change through a pointer to a thread: in whichever list it stands.
unfoldable pub modificar_todos : ℕ → ℕ → (Tcb → Tcb) → List Tcb → List Tcb
modificar_todos tid pid f ts = map (λ t. if es_hilo tid pid t.id_hilo then f t else t) ts

unfoldable pub modificar_en_cola : ℕ → ℕ → (Tcb → Tcb) → ColaMultinivel → ColaMultinivel
unfolding modificar_todos
modificar_en_cola tid pid f c = record c { lista_ready = modificar_todos tid pid f c.lista_ready }

unfoldable pub modificar_tcb : ℕ → ℕ → (Tcb → Tcb) → Kernel → Kernel
unfolding modificar_en_cola
modificar_tcb tid pid f k = record k {
  lista_tcb_ready = modificar_todos tid pid f k.lista_tcb_ready;
  lista_tcb_exec = modificar_todos tid pid f k.lista_tcb_exec;
  lista_tcb_blocked = modificar_todos tid pid f k.lista_tcb_blocked;
  lista_cola_multinivel = map (modificar_en_cola tid pid f) k.lista_cola_multinivel;
}
