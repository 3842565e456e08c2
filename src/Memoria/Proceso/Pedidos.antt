-- ===== src/Memoria/Proceso/Pedidos.antt =====
-- The kernel's request to create a process (memoria/src/memoria_kernel.c).
use tp_2024_2c_nachi_y_los_o.Comun.{
  ℕ, ◌≤◌, ◌<◌, ◌≡◌, refl, ◌⊎◌, inl, inr, true, false, Option, none, some, [], ◌∷◌, ◌++◌, arith,
  Bool-cases, get_elem?, All, get_elem?-set_self, All-get_elem?, add32, sub32, lt_int, menor_length,
}
use tp_2024_2c_nachi_y_los_o.Memoria.Estado.{Esquema, fijas, dinamicas, Proceso, Particion, Memoria}
use tp_2024_2c_nachi_y_los_o.Memoria.Particion.{Puntero, apta, obtener_particion_a_asignar}
use tp_2024_2c_nachi_y_los_o.Memoria.Particion.Busqueda.{
  Elegida, get_elem?-append, obtener_particion_a_asignar-Elegida,
}
use tp_2024_2c_nachi_y_los_o.Memoria.Particion.Cobertura.{EsBuena, EsMosaico}
use tp_2024_2c_nachi_y_los_o.Memoria.Proceso.{
  ok, error, nuevo_proceso, crear_segun, crear_proceso_esquema_fijo, crear_proceso_esquema_dinamico,
  atender_creacion_proceso,
}
use tp_2024_2c_nachi_y_los_o.Memoria.Proceso.Geometria.{crear_segun-EsMosaico}

alcanza :
    (m : Memoria) (tamanio i : ℕ) (p : Particion)
    → m.tam_memoria < 2147483648
    → tamanio < 2147483648
    → EsMosaico m.tam_memoria m.lista_particiones
    → get_elem? m.lista_particiones i ≡ some p
    → apta tamanio p ≡ true
    → tamanio ≤ p.tamanio
alcanza m tamanio i p h t k g s =
    ground (arith, All-get_elem? (EsBuena m.tam_memoria) m.lista_particiones i p k.buenas g)

-- A request to create a process, in either scheme and by any search algorithm, leaves every address
-- of the memory in exactly one partition if it was so before. Memory and size are positive `int`.
pub atender_creacion_proceso-EsMosaico :
    (m : Memoria) (pid tamanio : ℕ)
    → m.tam_memoria < 2147483648
    → tamanio < 2147483648
    → EsMosaico m.tam_memoria m.lista_particiones
    → EsMosaico m.tam_memoria (atender_creacion_proceso m pid tamanio).0.lista_particiones
unfolding atender_creacion_proceso
atender_creacion_proceso-EsMosaico m pid tamanio h t k =
    go (obtener_particion_a_asignar m.algoritmo_busqueda tamanio m.lista_particiones) refl
      (obtener_particion_a_asignar-Elegida m.algoritmo_busqueda tamanio m.lista_particiones)
  where
    go :
        (r : Option Puntero)
        → obtener_particion_a_asignar m.algoritmo_busqueda tamanio m.lista_particiones ≡ r
        → Elegida m.algoritmo_busqueda tamanio m.lista_particiones r
        → EsMosaico m.tam_memoria (atender_creacion_proceso m pid tamanio).0.lista_particiones
    go none e s = rw (e, atender_creacion_proceso) k
    go (some (i, p)) e (g, s, _) =
        rw (e, atender_creacion_proceso)
          (crear_segun-EsMosaico m.esquema m pid i p tamanio h k g
            (alcanza m tamanio i p h t k g s))

-- The process that a request registers, and the partition that it gets, before and after.
pub record EsCreado (m m' : Memoria) (pid tamanio i : ℕ) (r q : Particion) (p : Proceso)
    : Type 0 where
  pub antes : get_elem? m.lista_particiones i ≡ some r
  pub libre_antes : r.esta_ocupada ≡ false
  pub base_antes : q.base ≡ r.base
  pub en_lista : get_elem? m'.lista_particiones i ≡ some q
  pub ocupada : q.esta_ocupada ≡ true
  pub de : q.proceso_en_particion ≡ some pid
  pub registrado : m'.lista_procesos_recibidos ≡ m.lista_procesos_recibidos ++ p ∷ []
  pub pid_dado : p.pid ≡ pid
  pub asignada : p.particion_asignada_id ≡ q.particion_id
  pub misma_base : p.base ≡ q.base
  pub mismo_limite : p.limite ≡ q.limite
  pub alcanza_tamanio : tamanio ≤ q.tamanio
  pub exacta : m.esquema ≡ dinamicas → q.tamanio ≡ tamanio

abbrev pub Creado : Memoria → Memoria → ℕ → ℕ → Type 0
Creado m m' pid tamanio =
    (i : ℕ) × (r : Particion) × (q : Particion) × (p : Proceso) × EsCreado m m' pid tamanio i r q p

fijo-Creado :
    (m : Memoria) (pid tamanio i : ℕ) (p : Particion)
    → m.tam_memoria < 2147483648
    → m.esquema ≡ fijas
    → EsBuena m.tam_memoria p
    → get_elem? m.lista_particiones i ≡ some p
    → tamanio ≤ p.tamanio
    → p.esta_ocupada ≡ false
    → Creado m (crear_proceso_esquema_fijo m pid (i, p)) pid tamanio
unfolding crear_proceso_esquema_fijo
fijo-Creado m pid tamanio i p h f b g l o = (
  i,
  p,
  record p { proceso_en_particion = some pid; esta_ocupada = true },
  nuevo_proceso pid (sub32 (add32 p.base p.tamanio) 1) p,
  record {
    antes = g;
    libre_antes = o;
    base_antes = refl;
    en_lista = get_elem?-set_self m.lista_particiones i _ (menor_length m.lista_particiones i p g);
    ocupada = refl;
    de = refl;
    registrado = refl;
    pid_dado = refl;
    asignada = refl;
    misma_base = refl;
    mismo_limite = omega (arith, b);
    alcanza_tamanio = l;
    exacta = λ e. cc;
  },
)

dinamico-Creado :
    (m : Memoria) (pid tamanio i : ℕ) (p : Particion)
    → m.tam_memoria < 2147483648
    → EsBuena m.tam_memoria p
    → get_elem? m.lista_particiones i ≡ some p
    → tamanio ≤ p.tamanio
    → p.esta_ocupada ≡ false
    → Creado m (crear_proceso_esquema_dinamico m pid (i, p) tamanio) pid tamanio
unfolding crear_proceso_esquema_dinamico
dinamico-Creado m pid tamanio i p h b g l o = elim (Bool-cases (lt_int tamanio p.tamanio)) [
  | inl t ↦ (
    i,
    p,
    record p {
      limite = sub32 (add32 p.base tamanio) 1;
      tamanio = tamanio;
      proceso_en_particion = some pid;
      esta_ocupada = true;
    },
    nuevo_proceso pid (sub32 (add32 p.base tamanio) 1) p,
    rw t (record {
      antes = g;
      libre_antes = o;
      base_antes = refl;
      en_lista =
          get_elem?-append _ _ i _
            (get_elem?-set_self m.lista_particiones i _ (menor_length m.lista_particiones i p g));
      ocupada = refl;
      de = refl;
      registrado = refl;
      pid_dado = refl;
      asignada = refl;
      misma_base = refl;
      mismo_limite = refl;
      alcanza_tamanio = omega arith;
      exacta = λ e. refl;
    }),
  )
  | inr t ↦ (
    i,
    p,
    record p { proceso_en_particion = some pid; esta_ocupada = true },
    nuevo_proceso pid (sub32 (add32 p.base tamanio) 1) p,
    rw t (record {
      antes = g;
      libre_antes = o;
      base_antes = refl;
      en_lista =
          get_elem?-set_self m.lista_particiones i _ (menor_length m.lista_particiones i p g);
      ocupada = refl;
      de = refl;
      registrado = refl;
      pid_dado = refl;
      asignada = refl;
      misma_base = refl;
      mismo_limite = ground arith;
      alcanza_tamanio = l;
      exacta = λ e. ground arith;
    }),
  )
]

crear_segun-Creado :
    (e : Esquema) (m : Memoria) (pid tamanio i : ℕ) (p : Particion)
    → m.esquema ≡ e
    → m.tam_memoria < 2147483648
    → EsBuena m.tam_memoria p
    → get_elem? m.lista_particiones i ≡ some p
    → tamanio ≤ p.tamanio
    → p.esta_ocupada ≡ false
    → Creado m (crear_segun e m pid (i, p) tamanio) pid tamanio
unfolding crear_segun
crear_segun-Creado fijas m pid tamanio i p q h b g l o = fijo-Creado m pid tamanio i p h q b g l o
crear_segun-Creado dinamicas m pid tamanio i p q h b g l o =
    dinamico-Creado m pid tamanio i p h b g l o

apta-libre : (tamanio : ℕ) (p : Particion) → apta tamanio p ≡ true → p.esta_ocupada ≡ false
apta-libre tamanio p s = ground arith

-- A request to create a process is either answered "ERROR" and changes nothing, and then no partition
-- is free and large enough. Or it is answered "OK", and the process that it registers has the base and
-- the limit of a partition of the list that was free before, now marked as taken by that pid, and no
-- smaller than the size asked for; with dynamic partitions it has exactly that size. The partitions
-- share out the memory before, and memory and size are positive `int`.
pub atender_creacion_proceso-Creado :
    (m : Memoria) (pid tamanio : ℕ)
    → m.tam_memoria < 2147483648
    → tamanio < 2147483648
    → EsMosaico m.tam_memoria m.lista_particiones
    → (All (λ q. apta tamanio q ≡ false) m.lista_particiones
        × (atender_creacion_proceso m pid tamanio ≡ (m, error)))
      ⊎ (((atender_creacion_proceso m pid tamanio).1 ≡ ok)
          × Creado m (atender_creacion_proceso m pid tamanio).0 pid tamanio)
unfolding atender_creacion_proceso
atender_creacion_proceso-Creado m pid tamanio h t k =
    go (obtener_particion_a_asignar m.algoritmo_busqueda tamanio m.lista_particiones) refl
      (obtener_particion_a_asignar-Elegida m.algoritmo_busqueda tamanio m.lista_particiones)
  where
    go :
        (r : Option Puntero)
        → obtener_particion_a_asignar m.algoritmo_busqueda tamanio m.lista_particiones ≡ r
        → Elegida m.algoritmo_busqueda tamanio m.lista_particiones r
        → (All (λ q. apta tamanio q ≡ false) m.lista_particiones
            × (atender_creacion_proceso m pid tamanio ≡ (m, error)))
          ⊎ (((atender_creacion_proceso m pid tamanio).1 ≡ ok)
              × Creado m (atender_creacion_proceso m pid tamanio).0 pid tamanio)
    go none e s = inl (s, rw (e, atender_creacion_proceso))
    go (some (i, p)) e (g, s, _) =
        let b : EsBuena m.tam_memoria p =
          All-get_elem? (EsBuena m.tam_memoria) m.lista_particiones i p k.buenas g in
        inr (
          rw (e, atender_creacion_proceso),
          rw (e, atender_creacion_proceso)
              (crear_segun-Creado m.esquema m pid tamanio i p refl h b g
                (alcanza m tamanio i p h t k g s) (apta-libre tamanio p s)),
        )
