-- ===== src/Kernel/Transiciones.antt =====
-- What every operation of the scheduler keeps: the threads, the queues, one thread in the CPU at most
-- (kernel/src/planificador_corto_plazo.c, kernel_cpu_interrupt.c).
use tp_2024_2c_nachi_y_los_o.Comun.{
  ℕ, ◌+◌, ◌≤◌, ◌≡◌, refl, sym, ap, ◌∙◌, inl, inr, true, some, List, [], ◌∷◌, ◌++◌, arith,
  Bool-cases, Option-cases, if_si, if_no, length,
}
use tp_2024_2c_nachi_y_los_o.Kernel.Estado.{HiloId, Tcb, Kernel, es_hilo, MaximoTcb, MaximoCola}
use tp_2024_2c_nachi_y_los_o.Kernel.Colas.{
  buscar_tcb_por_tid_de, remover_tcb_de_lista, buscar_y_remover_tcb_por_tid_de,
}
use tp_2024_2c_nachi_y_los_o.Kernel.Planificacion.{
  pcp_planificador_corto_plazo, bloquear_hilo_en_ejecucion, desbloquear_hilo,
}
use tp_2024_2c_nachi_y_los_o.Kernel.Planificacion.Veces.{Estable, peso, peso_total, prioridades_de}
use tp_2024_2c_nachi_y_los_o.Kernel.Planificacion.Invariantes.{pcp-EsPlanificacion}
use tp_2024_2c_nachi_y_los_o.Kernel.Planificacion.Agregado.{
  hay, sin_cola, TieneCola, EsKernel, peso-append, agregar-total,
}
use tp_2024_2c_nachi_y_los_o.Kernel.Mutex.{modificar_en}
use tp_2024_2c_nachi_y_los_o.Kernel.Mutex.Exclusion.{length-remover}
use tp_2024_2c_nachi_y_los_o.Kernel.Hilos.{obtener_hilo_desalojado}
use tp_2024_2c_nachi_y_los_o.Kernel.Hilos.Busqueda.{buscar-remover}
use tp_2024_2c_nachi_y_los_o.Kernel.Desalojo.{atender_desalojo, atender_desalojo_hilo}

pub sin_cola-Estable : (ps : List ℕ) → Estable (sin_cola ps)
sin_cola-Estable ps t u e f = rw f refl

-- The threads are those of before, with the same priorities, and so are the queues.
pub record Conserva (k k' : Kernel) : Type 0 where
  pub pesa : (w : Tcb → ℕ) → Estable w → peso_total w k' ≡ peso_total w k
  pub mismo_algoritmo : k'.algoritmo_planificacion ≡ k.algoritmo_planificacion
  pub mismas_colas :
      prioridades_de k'.lista_cola_multinivel ≡ prioridades_de k.lista_cola_multinivel

pub Conserva-refl : (k : Kernel) → Conserva k k
Conserva-refl k = record { pesa = λ w s. refl; mismo_algoritmo = refl; mismas_colas = refl }

pub Conserva-trans : {k k' k'' : Kernel} → Conserva k k' → Conserva k' k'' → Conserva k k''
Conserva-trans c d = record {
  pesa = λ w s. d.pesa w s ∙ c.pesa w s;
  mismo_algoritmo = d.mismo_algoritmo ∙ c.mismo_algoritmo;
  mismas_colas = d.mismas_colas ∙ c.mismas_colas;
}

pub TieneCola-Conserva : (k k' : Kernel) (p : ℕ) → Conserva k k' → TieneCola k p → TieneCola k' p
TieneCola-Conserva k k' p c h = λ e. rw c.mismas_colas (h (sym c.mismo_algoritmo ∙ e))

pub EsKernel-Conserva :
    (k k' : Kernel) → EsKernel k → Conserva k k' → length k'.lista_tcb_exec ≤ 1 → EsKernel k'
EsKernel-Conserva k k' v c h = record {
  a_lo_sumo_uno = h;
  con_cola = λ e.
      ap (λ ps. peso_total (sin_cola ps) k') c.mismas_colas
      ∙ (c.pesa _ (sin_cola-Estable (prioridades_de k.lista_cola_multinivel))
          ∙ v.con_cola (sym c.mismo_algoritmo ∙ e));
}

sin_cola-cero : (ps : List ℕ) (t : Tcb) → sin_cola ps t ≡ 0 → hay ps t.prioridad ≡ true
sin_cola-cero ps t e = ground arith

-- A thread that weighs in a valid kernel has a queue.
pub EsKernel-TieneCola :
    (k : Kernel) (t : Tcb)
    → EsKernel k
    → ((w : Tcb → ℕ) → Estable w → (n : ℕ) × (peso_total w k ≡ w t + n))
    → TieneCola k t.prioridad
EsKernel-TieneCola k t v f e =
    let ps = prioridades_de k.lista_cola_multinivel in
    let (n, p) = f (sin_cola ps) (sin_cola-Estable ps) in
    sin_cola-cero ps t (omega (arith, p, v.con_cola e))

es_hilo-ids :
    (tid pid : ℕ) (h : HiloId) → es_hilo tid pid h ≡ true → (h.tid ≡ tid) × (h.pid_asociado ≡ pid)
es_hilo-ids tid pid h e = (ground arith, ground arith)

-- The thread that was changed is the one that is removed.
remover-modificar :
    (tid pid : ℕ) (f : Tcb → Tcb) (ts : List Tcb)
    → ((t : Tcb) → (f t).id_hilo ≡ t.id_hilo)
    → remover_tcb_de_lista tid pid (modificar_en tid pid f ts) ≡ remover_tcb_de_lista tid pid ts
unfolding remover_tcb_de_lista modificar_en
remover-modificar tid pid f [] h = refl
remover-modificar tid pid f (t ∷ ts) h = elim (Bool-cases (es_hilo tid pid t.id_hilo)) [
  | inl e ↦
      ap (remover_tcb_de_lista tid pid) (if_si _ _ _ e)
      ∙ (if_si _ _ _ (ap (es_hilo tid pid) (h t) ∙ e) ∙ sym (if_si _ _ _ e))
  | inr e ↦
      ap (remover_tcb_de_lista tid pid) (if_no _ _ _ e)
      ∙ (if_no _ _ _ e ∙ (ap (λ l. t ∷ l) (remover-modificar tid pid f ts h) ∙ sym (if_no _ _ _ e)))
]

remover-desalojado :
    (tid pid : ℕ) (h : HiloId) (f : Tcb → Tcb) (ts : List Tcb)
    → es_hilo tid pid h ≡ true
    → ((t : Tcb) → (f t).id_hilo ≡ t.id_hilo)
    → remover_tcb_de_lista h.tid h.pid_asociado (modificar_en tid pid f ts)
      ≡ remover_tcb_de_lista tid pid ts
remover-desalojado tid pid h f ts e g =
    let (q, r) = es_hilo-ids tid pid h e in rw (q, r) (remover-modificar tid pid f ts g)

module _ (mt : MaximoTcb) (mc : MaximoCola) where
  pub pcp-Conserva :
      (k : Kernel)
      → length k.lista_tcb_exec ≤ 1
      → (k' : Kernel) × (pcp_planificador_corto_plazo mt mc k ≡ some k')
        × Conserva k k'
        × (length k'.lista_tcb_exec ≤ 1)
  pcp-Conserva k h =
      let (k', e, p) = pcp-EsPlanificacion mt mc k h in
      (
        k',
        e,
        record {
          pesa = p.conserva;
          mismo_algoritmo = p.mismo_algoritmo;
          mismas_colas = p.mismas_colas;
        },
        p.a_lo_sumo_uno,
      )

  pub bloquear-Conserva :
      (k : Kernel) (tid pid : ℕ)
      → length k.lista_tcb_exec ≤ 1
      → (k' : Kernel) × (bloquear_hilo_en_ejecucion mt mc k tid pid ≡ some k')
        × Conserva k k'
        × (length k'.lista_tcb_exec ≤ 1)
  unfolding bloquear_hilo_en_ejecucion buscar_y_remover_tcb_por_tid_de peso_total peso
  bloquear-Conserva k tid pid h =
      elim (Option-cases (buscar_tcb_por_tid_de tid pid k.lista_tcb_exec)) [
        | inl e ↦ (k, rw (e, bloquear_hilo_en_ejecucion) refl, Conserva-refl k, h)
        | inr (t, e) ↦
            (let u : Tcb = record t { flag_cancelar_quantum = true } in
              let k1 : Kernel = record k {
                lista_tcb_exec = remover_tcb_de_lista tid pid k.lista_tcb_exec;
                lista_tcb_blocked = k.lista_tcb_blocked ++ u ∷ [];
              } in
              let r = length-remover tid pid k.lista_tcb_exec in
              let c : Conserva k k1 = record {
                pesa = λ w s. omega (
                  arith,
                  (buscar-remover w tid pid k.lista_tcb_exec t e).1,
                  peso-append w k.lista_tcb_blocked (u ∷ []),
                  s u t refl refl,
                );
                mismo_algoritmo = refl;
                mismas_colas = refl;
              } in
              let (k', f, d, g) = pcp-Conserva k1 (omega (arith, r, h)) in
              (k', rw (e, bloquear_hilo_en_ejecucion) f, Conserva-trans c d, g))
      ]

  -- A blocked thread that is woken.
  pub desbloquear-Conserva :
      (k : Kernel) (h : HiloId)
      → EsKernel k
      → (k' : Kernel) × (desbloquear_hilo mt mc k h ≡ some k')
        × Conserva k k'
        × (length k'.lista_tcb_exec ≤ 1)
  unfolding desbloquear_hilo buscar_y_remover_tcb_por_tid_de peso_total
  desbloquear-Conserva k h v =
      elim (Option-cases (buscar_tcb_por_tid_de h.tid h.pid_asociado k.lista_tcb_blocked)) [
        | inl e ↦ (k, rw (e, desbloquear_hilo) refl, Conserva-refl k, v.a_lo_sumo_uno)
        | inr (t, e) ↦
            (let ts = remover_tcb_de_lista h.tid h.pid_asociado k.lista_tcb_blocked in
              let k1 : Kernel = record k { lista_tcb_blocked = ts } in
              let p : (w : Tcb → ℕ) → peso_total w k ≡ w t + peso_total w k1 = λ w.
                omega (arith, (buscar-remover w h.tid h.pid_asociado k.lista_tcb_blocked t e).1) in
              let c = EsKernel-TieneCola k t v (λ w s. (peso_total w k1, p w)) in
              let (k2, f, a) = agregar-total k1 t c in
              let d : Conserva k k2 = record {
                pesa = λ w s. a.pesa w s ∙ sym (p w);
                mismo_algoritmo = a.mismo_algoritmo;
                mismas_colas = a.mismas_colas;
              } in
              let (k3, g, d', l) = pcp-Conserva k2 (rw a.mismo_exec v.a_lo_sumo_uno) in
              (k3, rw (e, desbloquear_hilo) (rw f g), Conserva-trans d d', l))
      ]

  -- ATENDER_DESALOJO_HILO_CPU always returns: each thread stays in the kernel as often as before, and
  -- every queue; the CPU has one thread at most, and with CMN every thread still has its queue.
  pub atender_desalojo_hilo-Conserva :
      (k : Kernel) (pid tid verificador : ℕ)
      → EsKernel k
      → (k' : Kernel) × (atender_desalojo_hilo mt mc k pid tid verificador ≡ some k')
        × Conserva k k'
        × EsKernel k'
  unfolding atender_desalojo_hilo atender_desalojo obtener_hilo_desalojado peso_total
  atender_desalojo_hilo-Conserva k pid tid verificador v =
      elim (Option-cases (buscar_tcb_por_tid_de tid pid k.lista_tcb_exec)) [
        | inl e ↦ (k, rw (e, atender_desalojo_hilo) refl, Conserva-refl k, v)
        | inr (t, e) ↦
            (let f : Tcb → Tcb = λ t. record t { verificador = verificador } in
              let (b, _) = buscar-remover (λ x. 0) tid pid k.lista_tcb_exec t e in
              let q = remover-desalojado tid pid t.id_hilo f k.lista_tcb_exec b (λ t. refl) in
              let ts = remover_tcb_de_lista tid pid k.lista_tcb_exec in
              let u : Tcb = record t { verificador = verificador; flag_cancelar_quantum = true } in
              let k1 : Kernel = record k { lista_tcb_exec = ts } in
              let p : (w : Tcb → ℕ) → peso_total w k ≡ w t + peso_total w k1 =
                λ w. omega (arith, (buscar-remover w tid pid k.lista_tcb_exec t e).1) in
              let c = EsKernel-TieneCola k t v (λ w s. (peso_total w k1, p w)) in
              let (k2, g, a) = agregar-total k1 u c in
              let d : Conserva k k2 = record {
                pesa = λ w s. a.pesa w s ∙ omega (arith, p w, s u t refl refl);
                mismo_algoritmo = a.mismo_algoritmo;
                mismas_colas = a.mismas_colas;
              } in
              let l = length-remover tid pid k.lista_tcb_exec in
              let (k3, m, d', n) =
                pcp-Conserva k2 (rw a.mismo_exec (omega (arith, l, v.a_lo_sumo_uno))) in
              let z = Conserva-trans d d' in
              (k3, rw (e, atender_desalojo_hilo) (rw (q, g) m), z, EsKernel-Conserva k k3 v z n))
      ]
