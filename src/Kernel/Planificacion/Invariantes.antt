-- ===== src/Kernel/Planificacion/Invariantes.antt =====
-- What the short-term scheduler keeps (kernel/src/planificador_corto_plazo.c).
use tp_2024_2c_nachi_y_los_o.Comun.{
  ℕ, ◌+◌, ◌≤◌, ◌≡◌, refl, sym, ap, ◌∙◌, ◌⊎◌, inl, inr, Bool, true, false, not, ◌&&◌, Option, none,
  some, List, [], ◌∷◌, arith, ◌==◌, Bool-cases, ◌>>=◌, if_si, if_no, length, All, add32, lt_int,
}
use tp_2024_2c_nachi_y_los_o.Kernel.Estado.{
  Algoritmo, fifo, prioridades, cmn, exec, Tcb, ColaMultinivel, Kernel, MaximoTcb, MaximoCola,
}
use tp_2024_2c_nachi_y_los_o.Kernel.Colas.{
  vacia, todas_las_colas_estan_vacias, colas_con_elementos, obtener_siguiente_tcb_a_ejecutar_en_cmn,
}
use tp_2024_2c_nachi_y_los_o.Kernel.Planificacion.{
  despachar, quitar, mas_prioritario, atender_fifo, atender_prioridades, atender_cmn,
  planificar_segun, pcp_planificador_corto_plazo,
}
use tp_2024_2c_nachi_y_los_o.Kernel.Planificacion.Veces.{
  Estable, peso, peso_en_colas, peso_total, prioridades_de, quitar-peso, quitar-total, sacar-peso,
  sacar-total, sacar-prioridades,
}

-- No thread is ready, in the lists that the algorithm uses.
unfoldable pub sin_listos : Algoritmo → Kernel → Bool
sin_listos fifo k = vacia k.lista_tcb_ready
sin_listos prioridades k = vacia k.lista_tcb_ready
sin_listos cmn k = todas_las_colas_estan_vacias k.lista_cola_multinivel

-- A round of the scheduler `a` from `k` to `k'`: each thread stands in the kernel as often as before,
-- the CPU has one thread at most, and it has one where a thread was ready.
pub record EsPlanificacion (a : Algoritmo) (k k' : Kernel) : Type 0 where
  pub conserva : (w : Tcb → ℕ) → Estable w → peso_total w k' ≡ peso_total w k
  pub mismo_algoritmo : k'.algoritmo_planificacion ≡ k.algoritmo_planificacion
  pub mismas_colas :
      prioridades_de k'.lista_cola_multinivel ≡ prioridades_de k.lista_cola_multinivel
  pub a_lo_sumo_uno : length k'.lista_tcb_exec ≤ 1
  pub ocupada : (length k'.lista_tcb_exec ≡ 1) ⊎ (sin_listos a k ≡ true)

-- The kernel after a thread has been taken from the ready ones.
despachar-EsPlanificacion :
    (a : Algoritmo) (k : Kernel) (ts : List Tcb) (t : Tcb)
    → k.lista_tcb_exec ≡ []
    → ((w : Tcb → ℕ) → peso w k.lista_tcb_ready ≡ w t + peso w ts)
    → EsPlanificacion a k (despachar (record k { lista_tcb_ready = ts }) t)
unfolding despachar peso_total peso
despachar-EsPlanificacion a k ts t e f = record {
  conserva = λ w s. rw e (omega (arith, f w, s (record t { estado = exec }) t refl refl));
  mismo_algoritmo = refl;
  mismas_colas = refl;
  a_lo_sumo_uno = rw e (omega arith);
  ocupada = inl (rw e refl);
}

sin_cambios :
    (a : Algoritmo) (k : Kernel)
    → length k.lista_tcb_exec ≤ 1
    → (length k.lista_tcb_exec ≡ 1) ⊎ (sin_listos a k ≡ true)
    → EsPlanificacion a k k
sin_cambios a k h o = record {
  conserva = λ w s. refl;
  mismo_algoritmo = refl;
  mismas_colas = refl;
  a_lo_sumo_uno = h;
  ocupada = o;
}

-- The CPU is idle, or it is not.
ejecuta :
    (ts : List Tcb)
    → length ts ≤ 1
    → ((vacia ts ≡ true) × (ts ≡ [])) ⊎ ((vacia ts ≡ false) × (length ts ≡ 1))
ejecuta [] h = inl (refl, refl)
ejecuta (t ∷ ts) h = inr (refl, omega arith)

listos :
    (ts : List Tcb)
    → (vacia ts ≡ true) ⊎ ((vacia ts ≡ false) × (t : Tcb) × (rs : List Tcb) × (ts ≡ t ∷ rs))
listos [] = inl refl
listos (t ∷ ts) = inr (refl, t, ts, refl)

-- What both schedulers do with the thread that they take.
despacho : Kernel → Option (Tcb × List Tcb) → Kernel
despacho k none = k
despacho k (some x) = despachar (record k { lista_tcb_ready = x.1 }) x.0

igual :
    (k : Kernel) (o : Option (Tcb × List Tcb))
    → (elim o [ none ↦ k | some (t, ts) ↦ despachar (record k { lista_tcb_ready = ts }) t ])
      ≡ despacho k o
unfolding despacho
igual k none = refl
igual k (some x) = refl

fifo-despacho :
    (k : Kernel)
    → vacia k.lista_tcb_exec ≡ true
    → atender_fifo k ≡ despacho k (quitar 0 k.lista_tcb_ready)
unfolding atender_fifo
fifo-despacho k t = if_si _ _ _ t ∙ igual k (quitar 0 k.lista_tcb_ready)

prioridades-despacho :
    (mt : MaximoTcb) (k : Kernel)
    → vacia k.lista_tcb_exec ≡ true
    → vacia k.lista_tcb_ready ≡ false
    → atender_prioridades mt k
      ≡ despacho k (mas_prioritario mt k.lista_tcb_ready >>= λ i. quitar i k.lista_tcb_ready)
unfolding atender_prioridades
prioridades-despacho mt k t v =
    let c : (vacia k.lista_tcb_exec && not (vacia k.lista_tcb_ready)) ≡ true = rw (t, v) refl in
    if_si _ _ _ c
    ∙ igual k (mas_prioritario mt k.lista_tcb_ready >>= λ i. quitar i k.lista_tcb_ready)

despacho-EsPlanificacion :
    (a : Algoritmo) (k : Kernel) (i : ℕ) (t : Tcb) (rs : List Tcb)
    → k.lista_tcb_exec ≡ []
    → quitar i k.lista_tcb_ready ≡ some (t, rs)
    → EsPlanificacion a k (despacho k (some (t, rs)))
unfolding despacho
despacho-EsPlanificacion a k i t rs e f =
    despachar-EsPlanificacion a k rs t e (λ w. quitar-peso w i k.lista_tcb_ready rs t f)

fifo-ocupada : (k : Kernel) → vacia k.lista_tcb_exec ≡ false → atender_fifo k ≡ k
unfolding atender_fifo
fifo-ocupada k t = if_no _ _ _ t

prioridades-ocupada :
    (mt : MaximoTcb) (k : Kernel) → vacia k.lista_tcb_exec ≡ false → atender_prioridades mt k ≡ k
unfolding atender_prioridades
prioridades-ocupada mt k t =
    let c : (vacia k.lista_tcb_exec && not (vacia k.lista_tcb_ready)) ≡ false = rw t refl in
    if_no _ _ _ c

fifo-EsPlanificacion :
    (a : Algoritmo) (k : Kernel)
    → length k.lista_tcb_exec ≤ 1
    → vacia k.lista_tcb_ready ≡ false
    → EsPlanificacion a k (atender_fifo k)
fifo-EsPlanificacion a k h v = elim (ejecuta k.lista_tcb_exec h) [
  | inr (t, u) ↦ (rw (fifo-ocupada k t) (sin_cambios a k h (inl u)))
  | inl (t, e) ↦ elim (listos k.lista_tcb_ready) [
    | inl w ↦ cc
    | inr (w, x, rs, q) ↦
        (let f : quitar 0 k.lista_tcb_ready ≡ some (x, rs) = ap (quitar 0) q in
          rw (fifo-despacho k t, f) (despacho-EsPlanificacion a k 0 x rs e f))
  ]
]

-- The thread that PRIORIDADES takes: the position, the thread and the rest, and that no ready thread
-- has a smaller priority number.
prioritario :
    (mt : MaximoTcb) (ts : List Tcb)
    → vacia ts ≡ false
    → (i : ℕ) × (t : Tcb) × (rs : List Tcb) × (mas_prioritario mt ts ≡ some i)
      × (quitar i ts ≡ some (t, rs))
      × All (λ u. lt_int u.prioridad t.prioridad ≡ false) ts
unfolding mas_prioritario
prioritario mt [] v = cc
prioritario mt (t ∷ []) v = (0, t, [], refl, refl, (ground arith, tt))
prioritario mt (t ∷ u ∷ ts) v =
    let (i, z, e, g, m) = mt.maximo_elegir t (u ∷ ts) in
    let (rs, f) = quitar-total i (t ∷ u ∷ ts) z g in
    let n : (length (t ∷ u ∷ ts) == 1) ≡ false = ground arith in (i, z, rs, rw n e, f, m)

prioridades-EsPlanificacion :
    (a : Algoritmo) (mt : MaximoTcb) (k : Kernel)
    → length k.lista_tcb_exec ≤ 1
    → vacia k.lista_tcb_ready ≡ false
    → EsPlanificacion a k (atender_prioridades mt k)
prioridades-EsPlanificacion a mt k h v = elim (ejecuta k.lista_tcb_exec h) [
  | inr (t, u) ↦ (rw (prioridades-ocupada mt k t) (sin_cambios a k h (inl u)))
  | inl (t, e) ↦
      (let (i, x, rs, g, f, m) = prioritario mt k.lista_tcb_ready v in
        rw (prioridades-despacho mt k t v, g, f) (despacho-EsPlanificacion a k i x rs e f))
]

hay_cola :
    (cs : List ColaMultinivel)
    → todas_las_colas_estan_vacias cs ≡ false
    → (z : ColaMultinivel) × (zs : List ColaMultinivel) × (colas_con_elementos cs ≡ z ∷ zs)
unfolding todas_las_colas_estan_vacias colas_con_elementos
hay_cola [] v = cc
hay_cola (c ∷ cs) v = elim (Bool-cases (vacia c.lista_ready)) [
  | inl t ↦ (let (z, zs, e) = hay_cola cs (sym (if_si _ _ _ t) ∙ v) in (z, zs, rw t e))
  | inr t ↦ (c, colas_con_elementos cs, rw t refl)
]

-- The queue that CMN takes from has threads, and none with threads has a smaller priority number.
siguiente_cola :
    (mc : MaximoCola) (cs : List ColaMultinivel)
    → todas_las_colas_estan_vacias cs ≡ false
    → (t : Tcb) × (rs : List ColaMultinivel) × (obtener_siguiente_tcb_a_ejecutar_en_cmn mc cs
        ≡ some (t, rs))
      × ((w : Tcb → ℕ) → peso_en_colas w cs ≡ w t + peso_en_colas w rs)
      × (prioridades_de rs ≡ prioridades_de cs)
unfolding obtener_siguiente_tcb_a_ejecutar_en_cmn
siguiente_cola mc cs v =
    let (z, zs, e) = hay_cola cs v in
    let (i, y, f, g, m) = mc.maximo_elegir z zs in
    let (x, r) = sacar-total i cs y (rw e g) in
    (x.0, x.1, rw (e, f) r, λ w. sacar-peso w i cs x.1 x.0 r, sacar-prioridades i cs x.1 x.0 r)

cmn-EsPlanificacion :
    (mc : MaximoCola) (k : Kernel)
    → length k.lista_tcb_exec ≤ 1
    → todas_las_colas_estan_vacias k.lista_cola_multinivel ≡ false
    → (k' : Kernel) × (atender_cmn mc k ≡ some k') × EsPlanificacion cmn k k'
unfolding atender_cmn despachar peso_total peso
cmn-EsPlanificacion mc k h v = elim (ejecuta k.lista_tcb_exec h) [
  | inr (t, u) ↦ (k, if_no _ _ _ t, sin_cambios cmn k h (inl u))
  | inl (t, e) ↦
      (let (x, rs, f, c, p) = siguiente_cola mc k.lista_cola_multinivel v in
        (
          despachar
              (record k { lista_cola_multinivel = rs; var_verificador = add32 k.var_verificador 1 })
              (record x { verificador = add32 k.var_verificador 1; flag_cancelar_quantum = false }),
          if_si _ _ _ t ∙ rw f refl,
          record {
            conserva = λ w s. rw e (
                omega (
                  arith,
                  c w,
                  s
                      (record x {
                        verificador = add32 k.var_verificador 1;
                        flag_cancelar_quantum = false;
                        estado = exec;
                      })
                      x refl refl,
                ));
            mismo_algoritmo = refl;
            mismas_colas = p;
            a_lo_sumo_uno = rw e (omega arith);
            ocupada = inl (rw e refl);
          },
        ))
]

segun-EsPlanificacion :
    (mt : MaximoTcb) (mc : MaximoCola) (a : Algoritmo) (k : Kernel)
    → length k.lista_tcb_exec ≤ 1
    → (k' : Kernel) × (planificar_segun mt mc a k ≡ some k') × EsPlanificacion a k k'
unfolding planificar_segun sin_listos
segun-EsPlanificacion mt mc fifo k h = elim (Bool-cases (vacia k.lista_tcb_ready)) [
  | inl t ↦ (k, if_si _ _ _ t, sin_cambios fifo k h (inr t))
  | inr t ↦ (atender_fifo k, if_no _ _ _ t, fifo-EsPlanificacion fifo k h t)
]
segun-EsPlanificacion mt mc prioridades k h = elim (Bool-cases (vacia k.lista_tcb_ready)) [
  | inl t ↦ (k, if_si _ _ _ t, sin_cambios prioridades k h (inr t))
  | inr t ↦
      (atender_prioridades mt k, if_no _ _ _ t, prioridades-EsPlanificacion prioridades mt k h t)
]
segun-EsPlanificacion mt mc cmn k h =
    elim (Bool-cases (todas_las_colas_estan_vacias k.lista_cola_multinivel)) [
      | inl t ↦ (k, if_si _ _ _ t, sin_cambios cmn k h (inr t))
      | inr t ↦ (let (k', e, p) = cmn-EsPlanificacion mc k h t in (k', if_no _ _ _ t ∙ e, p))
    ]

-- The short-term scheduler, called while the CPU has one thread at most, returns; each thread then
-- stands in the kernel as often as before, the CPU has one thread at most, and it has one unless no
-- thread was ready.
pub pcp-EsPlanificacion :
    (mt : MaximoTcb) (mc : MaximoCola) (k : Kernel)
    → length k.lista_tcb_exec ≤ 1
    → (k' : Kernel) × (pcp_planificador_corto_plazo mt mc k ≡ some k')
      × EsPlanificacion k.algoritmo_planificacion k k'
unfolding pcp_planificador_corto_plazo
pcp-EsPlanificacion mt mc k h = segun-EsPlanificacion mt mc k.algoritmo_planificacion k h
