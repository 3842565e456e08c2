-- ===== src/Memoria/Proceso/Finalizacion.antt =====
-- The kernel's request to finish a process (memoria/src/memoria_kernel.c).
use tp_2024_2c_nachi_y_los_o.Comun.{
  List, ◌+◌, sym, ap, ◌==◌, ==_iff, some-injective, if_si, if_no, Option-cases, ℕ, ◌<◌, ◌≡◌, refl,
  ◌∙◌, ◌≢◌, ◌⊎◌, inl, inr, false, none, some, [], ◌∷◌, ◌++◌, arith, Bool-cases, get_elem?, All,
}
use tp_2024_2c_nachi_y_los_o.Memoria.Estado.{Esquema, fijas, dinamicas, Proceso, Particion, Memoria}
use tp_2024_2c_nachi_y_los_o.Memoria.Particion.{Commons, buscar_particion_por_id}
use tp_2024_2c_nachi_y_los_o.Memoria.Particion.Busqueda.{buscar_particion_por_id-get_elem?}
use tp_2024_2c_nachi_y_los_o.Memoria.Particion.Cobertura.{
  EsMosaico, contiene, contiene_libre, cubre_libre, cubre_libre-set,
}
use tp_2024_2c_nachi_y_los_o.Memoria.Particion.Union.{unificar-EsMosaico}
use tp_2024_2c_nachi_y_los_o.Memoria.Proceso.{
  ok, unificar_segun, buscar_proceso, finalizar_proceso, remover_proceso,
  atender_finalizacion_proceso,
}
use tp_2024_2c_nachi_y_los_o.Memoria.Proceso.Geometria.{finalizar_proceso-EsMosaico}

unificar_segun-EsMosaico :
    (e : Esquema) (c : Commons) (m : Memoria) (tam : ℕ)
    → tam < 2147483648
    → EsMosaico tam m.lista_particiones
    → (m' : Memoria) × (unificar_segun e c m ≡ some m')
      × (m'.lista_procesos_recibidos ≡ m.lista_procesos_recibidos)
      × ((a : ℕ) → cubre_libre a m'.lista_particiones ≡ cubre_libre a m.lista_particiones)
      × EsMosaico tam m'.lista_particiones
unfolding unificar_segun
unificar_segun-EsMosaico fijas c m tam h k = (m, refl, refl, λ a. refl, k)
unificar_segun-EsMosaico dinamicas c m tam h k =
    let (qs, rs, u, n, d, _, _, _) = unificar-EsMosaico c tam m.lista_particiones h k in
    (record m { lista_particiones = qs }, rw u refl, refl, d, n)

-- The process found is the first one with the pid, and only it is removed.
buscado-removido :
    (pid : ℕ) (l : List Proceso) (x : Proceso)
    → buscar_proceso pid l ≡ some x
    → (x.pid ≡ pid)
      × ((ps : List Proceso) × (qs : List Proceso) × (l ≡ ps ++ x ∷ qs)
          × (remover_proceso pid l ≡ ps ++ qs)
          × All (λ y. y.pid ≢ pid) ps)
unfolding buscar_proceso remover_proceso
buscado-removido pid [] x e = cc
buscado-removido pid (y ∷ l) x e = elim (Bool-cases (y.pid == pid)) [
  | inl t ↦
      (let q : y ≡ x = some-injective _ _ (sym (if_si _ _ _ t) ∙ e) in
        (ap (λ z. z.pid) (sym q) ∙ (==_iff y.pid pid).0 t, ([], l, rw q refl, if_si _ _ _ t, tt)))
  | inr t ↦
      (let (a, (ps, qs, f, g, n)) = buscado-removido pid l x (sym (if_no _ _ _ t) ∙ e) in
        (
          a,
          (
            y ∷ ps,
            qs,
            ap (λ z. y ∷ z) f,
            if_no _ _ _ t ∙ ap (λ z. y ∷ z) g,
            (λ z. absurd (ground (arith, (==_iff y.pid pid).1 z)), n),
          ),
        ))
]

finalizado :
    (m : Memoria) (i : ℕ) (p : Particion) (proceso : Proceso)
    → get_elem? m.lista_particiones i ≡ some p
    → ((finalizar_proceso m (i, p) proceso).lista_procesos_recibidos
        ≡ remover_proceso proceso.pid m.lista_procesos_recibidos)
      × ((a : ℕ)
          → cubre_libre a (finalizar_proceso m (i, p) proceso).lista_particiones
              + contiene_libre a p
            ≡ cubre_libre a m.lista_particiones + contiene a p)
unfolding finalizar_proceso contiene
finalizado m i p proceso e = (
  refl,
  λ a.
      cubre_libre-set a m.lista_particiones i p
        (record p { esta_ocupada = false; proceso_en_particion = none }) e,
)

-- What a request to finish a process leaves: the first process with the pid is gone from the list, the
-- others stand in their order; the addresses of its partition are free, and besides them those that
-- were free before; every address is in exactly one partition.
pub record EsFinalizado (m m' : Memoria) (pid : ℕ) (proceso : Proceso) (p : Particion)
    : Type 0 where
  pub sin_proceso :
      (ps : List Proceso) × (qs : List Proceso) × (m.lista_procesos_recibidos ≡ ps ++ proceso ∷ qs)
      × (m'.lista_procesos_recibidos ≡ ps ++ qs)
      × All (λ y. y.pid ≢ pid) ps
  pub liberada :
      (a : ℕ)
      → cubre_libre a m'.lista_particiones + contiene_libre a p
        ≡ cubre_libre a m.lista_particiones + contiene a p
  pub mosaico : EsMosaico m.tam_memoria m'.lista_particiones

-- The request to finish a process that memory knows, and whose partition is in the list, is always
-- answered, and answered "OK". Only the first process with the pid is gone from the list; the addresses
-- of its partition are free, and besides them exactly those that were free before; every address of
-- the memory is still in exactly one partition. The memory is below 2 ^ 31 bytes, and shared out
-- before.
pub atender_finalizacion_proceso-EsMosaico :
    (c : Commons) (m : Memoria) (pid i : ℕ) (proceso : Proceso) (p : Particion)
    → m.tam_memoria < 2147483648
    → EsMosaico m.tam_memoria m.lista_particiones
    → buscar_proceso pid m.lista_procesos_recibidos ≡ some proceso
    → buscar_particion_por_id proceso.particion_asignada_id m.lista_particiones ≡ some (i, p)
    → (m' : Memoria) × (atender_finalizacion_proceso c m pid ≡ some (m', ok))
      × EsFinalizado m m' pid proceso p
unfolding atender_finalizacion_proceso
atender_finalizacion_proceso-EsMosaico c m pid i proceso p h k b d =
    let m' = finalizar_proceso m (i, p) proceso in
    let g =
      buscar_particion_por_id-get_elem? proceso.particion_asignada_id i p m.lista_particiones d in
    let (m'', u, r, l, n) =
      unificar_segun-EsMosaico m.esquema c m' m.tam_memoria h
        (finalizar_proceso-EsMosaico m i p proceso k g.0) in
    let (x, y) = finalizado m i p proceso g.0 in
    let (q, (ps, qs, f, j, w)) = buscado-removido pid m.lista_procesos_recibidos proceso b in
    let z = ap (λ t. remover_proceso t m.lista_procesos_recibidos) q in
    (
      m'',
      rw (b, d, u, atender_finalizacion_proceso) refl,
      record {
        sin_proceso = (ps, qs, f, r ∙ (x ∙ (z ∙ j)), w);
        liberada = λ a. ap (λ t. t + contiene_libre a p) (l a) ∙ y a;
        mosaico = n;
      },
    )

-- A request to finish a process is answered "OK", or it is not answered at all: then memory does not
-- know the process, or not its partition. It is never answered "ERROR", since the test for NULL stands
-- behind the reads through the two pointers. The memory is below 2 ^ 31 bytes, and shared out.
pub atender_finalizacion_proceso-nulo :
    (c : Commons) (m : Memoria) (pid : ℕ)
    → m.tam_memoria < 2147483648
    → EsMosaico m.tam_memoria m.lista_particiones
    → ((m' : Memoria) × (atender_finalizacion_proceso c m pid ≡ some (m', ok)))
      ⊎ ((atender_finalizacion_proceso c m pid ≡ none)
          × ((buscar_proceso pid m.lista_procesos_recibidos ≡ none)
              ⊎ ((proceso : Proceso) × (buscar_proceso pid m.lista_procesos_recibidos
                    ≡ some proceso)
                  × (buscar_particion_por_id proceso.particion_asignada_id m.lista_particiones
                      ≡ none))))
unfolding atender_finalizacion_proceso
atender_finalizacion_proceso-nulo c m pid h k =
    elim (Option-cases (buscar_proceso pid m.lista_procesos_recibidos)) [
      | inl e ↦ inr (rw (e, atender_finalizacion_proceso) refl, inl e)
      | inr (x, e) ↦
          elim (Option-cases
            (buscar_particion_por_id x.particion_asignada_id m.lista_particiones)) [
              | inl f ↦ inr (rw (e, f, atender_finalizacion_proceso) refl, inr (x, e, f))
              | inr ((i, p), f) ↦
                  let (m', g, _) = atender_finalizacion_proceso-EsMosaico c m pid i x p h k e f in
                  inl (m', g)
            ]
    ]
