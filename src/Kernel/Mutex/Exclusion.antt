-- ===== src/Kernel/Mutex/Exclusion.antt =====
-- Who has a mutex and who waits for it (kernel/src/mutex.c).
use tp_2024_2c_nachi_y_los_o.Comun.{
  ℕ, ◌≤◌, ◌<◌, ◌≡◌, refl, ◌∙◌, ◌⊎◌, inl, inr, true, false, some, List, [], ◌∷◌, ◌++◌, arith,
  Bool-cases, if_si, if_no, length, All, All-append, menos_uno,
}
use tp_2024_2c_nachi_y_los_o.Kernel.Estado.{
  HiloId, Tcb, MutexPcb, Kernel, es_hilo, MaximoTcb, MaximoCola,
}
use tp_2024_2c_nachi_y_los_o.Kernel.Colas.{
  buscar_y_remover_tcb_por_tid_de, buscar_tcb_por_tid_de, remover_tcb_de_lista,
}
use tp_2024_2c_nachi_y_los_o.Kernel.Planificacion.{bloquear_hilo_en_ejecucion}
use tp_2024_2c_nachi_y_los_o.Kernel.Planificacion.Invariantes.{pcp-EsPlanificacion}
use tp_2024_2c_nachi_y_los_o.Kernel.Planificacion.Bloqueados.{pcp-bloqueados}
use tp_2024_2c_nachi_y_los_o.Kernel.Mutex.{
  esta_tomado_por, esta_tomado, asignar_mutex, RtaMutexLock, ok, desalojo, atender_mutex_lock,
  modificar_en,
}

-- No identification of a thread is -1, and a mutex that nobody has is waited for by nobody.
abbrev pub Identificado : HiloId → Type 0
Identificado h = h.pid_asociado < menos_uno

pub record EsValido (m : MutexPcb) : Type 0 where
  pub esperan : All Identificado m.lista_bloqueados
  pub nadie_espera_libre : (esta_tomado m ≡ true) ⊎ (m.lista_bloqueados ≡ [])

pub length-remover :
    (tid pid : ℕ) (ts : List Tcb) → length (remover_tcb_de_lista tid pid ts) ≤ length ts
unfolding remover_tcb_de_lista
length-remover tid pid [] = omega arith
length-remover tid pid (t ∷ ts) = elim (Bool-cases (es_hilo tid pid t.id_hilo)) [
  | inl e ↦ rw e (omega arith)
  | inr e ↦ rw e (omega (arith, length-remover tid pid ts))
]

length-modificar :
    (tid pid : ℕ) (f : Tcb → Tcb) (ts : List Tcb) → length (modificar_en tid pid f ts) ≡ length ts
unfolding modificar_en
length-modificar tid pid f [] = refl
length-modificar tid pid f (t ∷ ts) = elim (Bool-cases (es_hilo tid pid t.id_hilo)) [
  | inl e ↦ rw e refl
  | inr e ↦ rw e (omega (arith, length-modificar tid pid f ts))
]

-- A thread that is blocked.
abbrev pub bloqueado : Tcb → Tcb
bloqueado t = record t { flag_cancelar_quantum = true }

-- Blocking the running thread ends, puts it behind the blocked ones, and leaves the CPU one thread at
-- most.
bloquear-total :
    (mt : MaximoTcb) (mc : MaximoCola) (k : Kernel) (tid pid : ℕ) (t : Tcb)
    → length k.lista_tcb_exec ≤ 1
    → buscar_tcb_por_tid_de tid pid k.lista_tcb_exec ≡ some t
    → (k' : Kernel) × (bloquear_hilo_en_ejecucion mt mc k tid pid ≡ some k')
      × (length k'.lista_tcb_exec ≤ 1)
      × (k'.lista_tcb_blocked ≡ k.lista_tcb_blocked ++ bloqueado t ∷ [])
unfolding bloquear_hilo_en_ejecucion buscar_y_remover_tcb_por_tid_de
bloquear-total mt mc k tid pid t h e =
    let l = length-remover tid pid k.lista_tcb_exec in
    let k1 : Kernel = record k {
      lista_tcb_exec = remover_tcb_de_lista tid pid k.lista_tcb_exec;
      lista_tcb_blocked = k.lista_tcb_blocked ++ bloqueado t ∷ [];
    } in
    let (k', f, p) = pcp-EsPlanificacion mt mc k1 (omega (arith, l)) in
    (k', rw (e, bloquear_hilo_en_ejecucion) f, p.a_lo_sumo_uno, pcp-bloqueados mt mc k1 k' f)

-- MUTEX_LOCK by the thread that executes returns. The mutex stays valid, and the CPU has one thread at
-- most, as before. A free mutex goes to the thread, with answer OK, and no thread is blocked. For a
-- taken one the thread waits behind the others, the holder stays, the answer is DESALOJO, and the
-- thread is the last of the blocked ones, with its quantum cancelled.
pub atender_mutex_lock-EsValido :
    (mt : MaximoTcb) (mc : MaximoCola) (k : Kernel) (m : MutexPcb) (tid pid : ℕ) (t : Tcb)
    → length k.lista_tcb_exec ≤ 1
    → buscar_tcb_por_tid_de tid pid k.lista_tcb_exec ≡ some t
    → pid < menos_uno
    → EsValido m
    → (k' : Kernel) × (m' : MutexPcb) × (r : RtaMutexLock) × (atender_mutex_lock mt mc k m tid pid
        ≡ some (k', m', r))
      × EsValido m'
      × (length k'.lista_tcb_exec ≤ 1)
      × (((esta_tomado m ≡ false)
            × (r ≡ ok)
            × (esta_tomado_por m' tid pid ≡ true)
            × (k'.lista_tcb_blocked ≡ k.lista_tcb_blocked))
          ⊎ ((esta_tomado m ≡ true)
              × (r ≡ desalojo)
              × (m'.id_hilo_asignado ≡ m.id_hilo_asignado)
              × (m'.lista_bloqueados
                  ≡ m.lista_bloqueados ++ record { tid = tid; pid_asociado = pid } ∷ [])
              × (k'.lista_tcb_blocked ≡ k.lista_tcb_blocked ++ bloqueado t ∷ [])))
unfolding atender_mutex_lock asignar_mutex
atender_mutex_lock-EsValido mt mc k m tid pid t h b p v = elim (Bool-cases (esta_tomado m)) [
  | inl x ↦
      (let (k', e, l, n) = bloquear-total mt mc k tid pid t h b in
        let nuevo : HiloId = record { tid = tid; pid_asociado = pid } in
        (
          k',
          record m { lista_bloqueados = m.lista_bloqueados ++ nuevo ∷ [] },
          desalojo,
          if_si _ _ _ x ∙ rw e refl,
          record {
            esperan = All-append Identificado m.lista_bloqueados (nuevo ∷ []) v.esperan (p, tt);
            nadie_espera_libre = inl x;
          },
          l,
          inr (x, refl, refl, refl, n),
        ))
  | inr x ↦ (
    _,
    asignar_mutex m tid pid,
    ok,
    if_no _ _ _ x,
    record { esperan = v.esperan; nadie_espera_libre = inl (ground arith) },
    omega (
      arith,
      length-modificar tid pid
          (λ u. record u {
            lista_mutex_asignados = u.lista_mutex_asignados ++ m.nombre_recurso ∷ [];
          })
          k.lista_tcb_exec,
    ),
    inl (x, refl, ground arith, refl),
  )
]
