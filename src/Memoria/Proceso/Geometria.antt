-- ===== src/Memoria/Proceso/Geometria.antt =====
-- What creating and finishing a process does to the partitions (memoria/src/proceso.c).
use tp_2024_2c_nachi_y_los_o.Comun.{
  ℕ, ◌+◌, ◌≤◌, ◌<◌, ◌≡◌, refl, inl, inr, true, some, List, [], ◌∷◌, ◌++◌, arith, Bool-cases,
  get_elem?, set, All-append, All-set, All-get_elem?, add32, sub32, lt_int,
}
use tp_2024_2c_nachi_y_los_o.Memoria.Estado.{Esquema, fijas, dinamicas, Proceso, Particion, Memoria}
use tp_2024_2c_nachi_y_los_o.Memoria.Particion.Cobertura.{
  contiene, cubre, cubre-append, cubre-set, EsBuena, EsMosaico,
}
use tp_2024_2c_nachi_y_los_o.Memoria.Proceso.{
  sobrante, crear_proceso_esquema_fijo, crear_proceso_esquema_dinamico, crear_segun,
  finalizar_proceso,
}

-- Writing over a partition one with the same place.
set-EsMosaico :
    (tam i : ℕ) (ps : List Particion) (p q : Particion)
    → EsMosaico tam ps
    → get_elem? ps i ≡ some p
    → q.base ≡ p.base
    → q.tamanio ≡ p.tamanio
    → q.limite ≡ p.limite
    → EsMosaico tam (set ps i q)
unfolding contiene
set-EsMosaico tam i ps p q m e b t l = record {
  cubre_una = λ a. ground (arith, cubre-set a ps i p q e, m.cubre_una a);
  buenas =
      All-set (EsBuena tam) ps i q m.buenas
        (ground (arith, All-get_elem? (EsBuena tam) ps i p m.buenas e));
}

-- Writing over a partition its first part, and adding the rest at the end.
partir-EsMosaico :
    (tam i : ℕ) (ps : List Particion) (p q r : Particion)
    → EsMosaico tam ps
    → get_elem? ps i ≡ some p
    → ((a : ℕ) → contiene a q + contiene a r ≡ contiene a p)
    → EsBuena tam q
    → EsBuena tam r
    → EsMosaico tam (set ps i q ++ r ∷ [])
unfolding cubre
partir-EsMosaico tam i ps p q r m e c h k = record {
  cubre_una = λ a.
      omega
        (arith, cubre-append a (set ps i q) (r ∷ []), cubre-set a ps i p q e, m.cubre_una a, c a);
  buenas =
      All-append (EsBuena tam) (set ps i q) (r ∷ []) (All-set (EsBuena tam) ps i q m.buenas h)
        (k, tt);
}

partes_contienen :
    (tam a pid id tamanio : ℕ) (p : Particion)
    → tam < 2147483648
    → EsBuena tam p
    → tamanio < p.tamanio
    → let limite = sub32 (add32 p.base tamanio) 1 in
      contiene a (record p {
        limite = limite;
        tamanio = tamanio;
        proceso_en_particion = some pid;
        esta_ocupada = true;
      })
        + contiene a (sobrante id limite tamanio p)
      ≡ contiene a p
unfolding contiene
partes_contienen tam a pid id tamanio p h b l = ground arith

pub dinamico-EsMosaico :
    (m : Memoria) (pid i : ℕ) (p : Particion) (tamanio : ℕ)
    → m.tam_memoria < 2147483648
    → EsMosaico m.tam_memoria m.lista_particiones
    → get_elem? m.lista_particiones i ≡ some p
    → tamanio ≤ p.tamanio
    → EsMosaico m.tam_memoria
        (crear_proceso_esquema_dinamico m pid (i, p) tamanio).lista_particiones
unfolding crear_proceso_esquema_dinamico
dinamico-EsMosaico m pid i p tamanio h k e l =
    let b : EsBuena m.tam_memoria p =
      All-get_elem? (EsBuena m.tam_memoria) m.lista_particiones i p k.buenas e in
    elim (Bool-cases (lt_int tamanio p.tamanio)) [
      | inl t ↦ rw t (
          partir-EsMosaico m.tam_memoria i m.lista_particiones p _ _ k e
            (λ a. partes_contienen m.tam_memoria a pid m.particion_id tamanio p h b (ground arith))
            (omega arith) (ground arith))
      | inr t ↦ rw t (set-EsMosaico m.tam_memoria i m.lista_particiones p _ k e refl refl refl)
    ]

pub fijo-EsMosaico :
    (m : Memoria) (pid i : ℕ) (p : Particion)
    → EsMosaico m.tam_memoria m.lista_particiones
    → get_elem? m.lista_particiones i ≡ some p
    → EsMosaico m.tam_memoria (crear_proceso_esquema_fijo m pid (i, p)).lista_particiones
unfolding crear_proceso_esquema_fijo
fijo-EsMosaico m pid i p k e =
    set-EsMosaico m.tam_memoria i m.lista_particiones p _ k e refl refl refl

pub finalizar_proceso-EsMosaico :
    (m : Memoria) (i : ℕ) (p : Particion) (proceso : Proceso)
    → EsMosaico m.tam_memoria m.lista_particiones
    → get_elem? m.lista_particiones i ≡ some p
    → EsMosaico m.tam_memoria (finalizar_proceso m (i, p) proceso).lista_particiones
unfolding finalizar_proceso
finalizar_proceso-EsMosaico m i p proceso k e =
    set-EsMosaico m.tam_memoria i m.lista_particiones p _ k e refl refl refl

pub crear_segun-EsMosaico :
    (e : Esquema) (m : Memoria) (pid i : ℕ) (p : Particion) (tamanio : ℕ)
    → m.tam_memoria < 2147483648
    → EsMosaico m.tam_memoria m.lista_particiones
    → get_elem? m.lista_particiones i ≡ some p
    → tamanio ≤ p.tamanio
    → EsMosaico m.tam_memoria (crear_segun e m pid (i, p) tamanio).lista_particiones
unfolding crear_segun
crear_segun-EsMosaico fijas m pid i p tamanio h k e l = fijo-EsMosaico m pid i p k e
crear_segun-EsMosaico dinamicas m pid i p tamanio h k e l =
    dinamico-EsMosaico m pid i p tamanio h k e l
