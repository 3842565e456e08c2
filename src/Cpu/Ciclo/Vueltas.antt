-- ===== src/Cpu/Ciclo/Vueltas.antt =====
-- The turns of a thread in the CPU (cpu/src/cpu_kernel_dispatch.c), up to the end of its loop.
use tp_2024_2c_nachi_y_los_o.Comun.{
  ℕ, ◌≡◌, refl, sym, ap, ◌∙◌, ◌⊎◌, inl, inr, true, false, ◌&&◌, none, some, List, ◌==◌,
  if◌then◌else◌, Bool-cases, >>=-eq-some, if_si, if_no, codes, some-injective, some_par,
}
use tp_2024_2c_nachi_y_los_o.Utils.Instrucciones.{
  Nombre, set, read_mem, write_mem, sum, sub, jnz, log, dump_memory, io, process_create,
  thread_create, thread_cancel, thread_join, mutex_create, mutex_lock, mutex_unlock, thread_exit,
  process_exit, strcmp_eq, convertir_instruccion_a_enum,
}
use tp_2024_2c_nachi_y_los_o.Utils.Paquete.{Buffer, recibir_int_del_buffer}
use tp_2024_2c_nachi_y_los_o.Utils.Contexto.{Contexto}
use tp_2024_2c_nachi_y_los_o.Memoria.Estado.{Memoria}
use tp_2024_2c_nachi_y_los_o.Memoria.Proceso.{Respuesta, ok, error}
use tp_2024_2c_nachi_y_los_o.Memoria.Hilo.{atender_actualizacion_contexto}
use tp_2024_2c_nachi_y_los_o.Cpu.Ejecucion.{actualizar_contexto, execute, hay_bloqueo, hay_syscall}
use tp_2024_2c_nachi_y_los_o.Cpu.Ciclo.{
  Ciclo, manejar_interrupcion, confirmar, recibir_respuesta, fetch, decode, ciclo_de_instruccion,
  vuelta, termina, Corre, ultima, otra, antes, despues,
}

-- The thread of the CPU neither waits for a mutex nor for another thread.
pub record SinEspera (c : Ciclo) : Type 0 where
  pub sin_mutex : c.instancia_ocupada ≡ false
  pub sin_join : c.existe_hilo_a_joinear ≡ false

-- The memory has just stored the context.
abbrev pub Guardado : Contexto → Memoria → Type 0
Guardado x m = (m₀ : Memoria) × (atender_actualizacion_contexto m₀ x ≡ (m, ok))

-- The context is stored, or an interrupt is pending and the last instruction is no system call.
abbrev pub Pendiente : Ciclo → Memoria → Type 0
Pendiente c m =
    Guardado c.cpu.un_contexto m ⊎ ((c.cpu.interrupt_flag ≡ true) × (hay_syscall c.nombre ≡ false))

confirmada : (rta : List ℕ) (c c' : Ciclo) → confirmar rta c ≡ some c' → c ≡ c'
confirmada rta c c' e = elim (Bool-cases (strcmp_eq rta (codes "OK"))) [
  | inl h ↦ some-injective _ _ (sym (if_si _ _ _ h) ∙ e)
  | inr h ↦ (let q : none ≡ some c' = sym (if_no _ _ _ h) ∙ e in cc)
]

-- The name of the instruction survives an answer with which the thread leaves.
con_desalojo :
    (rta : List ℕ) (c d c' : Ciclo)
    → d.nombre ≡ c.nombre
    → (if strcmp_eq rta (codes "OK")
        then some c
        else if strcmp_eq rta (codes "DESALOJO")
        then some d
        else none)
      ≡ some c'
    → c'.nombre ≡ c.nombre
con_desalojo rta c d c' n e = elim (Bool-cases (strcmp_eq rta (codes "OK"))) [
  | inl h ↦ sym (ap (λ z. z.nombre) (some-injective _ _ (sym (if_si _ _ _ h) ∙ e)))
  | inr h ↦ elim (Bool-cases (strcmp_eq rta (codes "DESALOJO"))) [
    | inl k ↦
        (let q : some d ≡ some c' = sym (if_si _ _ _ k) ∙ (sym (if_no _ _ _ h) ∙ e) in
          sym (ap (λ z. z.nombre) (some-injective _ _ q)) ∙ n)
    | inr k ↦ (let q : none ≡ some c' = sym (if_no _ _ _ k) ∙ (sym (if_no _ _ _ h) ∙ e) in cc)
  ]
]

igual :
    (n : Nombre) (c c' : Ciclo)
    → c ≡ c'
    → (c'.nombre ≡ c.nombre) × ((hay_syscall n ≡ false) → c ≡ c')
igual n c c' q = (sym (ap (λ z. z.nombre) q), λ h. q)

-- An answer keeps the name of the instruction, and one that is no system call changes nothing.
respuesta-nombre :
    (n : Nombre) (rta : List ℕ) (c c' : Ciclo)
    → recibir_respuesta n rta c ≡ some c'
    → (c'.nombre ≡ c.nombre) × ((hay_syscall n ≡ false) → c ≡ c')
unfolding recibir_respuesta hay_syscall
respuesta-nombre set rta c c' e = igual set c c' (some-injective _ _ e)
respuesta-nombre read_mem rta c c' e = igual read_mem c c' (some-injective _ _ e)
respuesta-nombre write_mem rta c c' e = igual write_mem c c' (some-injective _ _ e)
respuesta-nombre sum rta c c' e = igual sum c c' (some-injective _ _ e)
respuesta-nombre sub rta c c' e = igual sub c c' (some-injective _ _ e)
respuesta-nombre jnz rta c c' e = igual jnz c c' (some-injective _ _ e)
respuesta-nombre log rta c c' e = igual log c c' (some-injective _ _ e)
respuesta-nombre dump_memory rta c c' e = igual dump_memory c c' (some-injective _ _ e)
respuesta-nombre io rta c c' e = igual io c c' (some-injective _ _ e)
respuesta-nombre process_create rta c c' e = igual process_create c c' (confirmada rta c c' e)
respuesta-nombre thread_create rta c c' e = igual thread_create c c' (confirmada rta c c' e)
respuesta-nombre thread_cancel rta c c' e = igual thread_cancel c c' (confirmada rta c c' e)
respuesta-nombre thread_join rta c c' e = (
  con_desalojo rta c (record c { existe_hilo_a_joinear = true }) c' refl e,
  λ h. (let q : true ≡ false = h in cc),
)
respuesta-nombre mutex_create rta c c' e = igual mutex_create c c' (confirmada rta c c' e)
respuesta-nombre mutex_lock rta c c' e = (
  con_desalojo rta c (record c { instancia_ocupada = true }) c' refl e,
  λ h. (let q : true ≡ false = h in cc),
)
respuesta-nombre mutex_unlock rta c c' e = igual mutex_unlock c c' (confirmada rta c c' e)
respuesta-nombre thread_exit rta c c' e = igual thread_exit c c' (some-injective _ _ e)
respuesta-nombre process_exit rta c c' e = igual process_exit c c' (some-injective _ _ e)

bloqueo-llamada : (n : Nombre) → hay_syscall n ≡ false → hay_bloqueo n ≡ false
unfolding hay_bloqueo hay_syscall
bloqueo-llamada set h = refl
bloqueo-llamada read_mem h = refl
bloqueo-llamada write_mem h = refl
bloqueo-llamada sum h = refl
bloqueo-llamada sub h = refl
bloqueo-llamada jnz h = refl
bloqueo-llamada log h = refl
bloqueo-llamada dump_memory h = (let q : true ≡ false = h in cc)
bloqueo-llamada io h = (let q : true ≡ false = h in cc)
bloqueo-llamada process_create h = refl
bloqueo-llamada thread_create h = refl
bloqueo-llamada thread_cancel h = refl
bloqueo-llamada thread_join h = refl
bloqueo-llamada mutex_create h = refl
bloqueo-llamada mutex_lock h = refl
bloqueo-llamada mutex_unlock h = refl
bloqueo-llamada thread_exit h = refl
bloqueo-llamada process_exit h = refl

guardado_si_ok :
    (x : Memoria × Respuesta) (m' : Memoria)
    → (elim x.1 [ ok ↦ some x.0 | error ↦ none ]) ≡ some m'
    → x ≡ (m', ok)
guardado_si_ok (m, ok) m' e = ap (λ z. (z, ok)) (some-injective _ _ e)
guardado_si_ok (m, error) m' e = cc

actualizar-Guardado :
    (c : Ciclo) (m m' : Memoria)
    → actualizar_contexto c.cpu m ≡ some m'
    → Guardado c.cpu.un_contexto m'
unfolding actualizar_contexto
actualizar-Guardado c m m' e =
    (m, guardado_si_ok (atender_actualizacion_contexto m c.cpu.un_contexto) m' e)

module _ (atoi : List ℕ → ℕ) (string_split : List ℕ → List (List ℕ)) where
  -- An instruction that is no system call leaves the waits of the thread alone.
  ciclo-SinEspera :
      (rta : List ℕ) (c c' : Ciclo) (m m' : Memoria)
      → ciclo_de_instruccion atoi string_split rta c m ≡ some (c', m')
      → hay_syscall c'.nombre ≡ false
      → SinEspera c
      → SinEspera c'
  unfolding ciclo_de_instruccion
  ciclo-SinEspera rta c c' m m' e h s =
      let (split, e₁, f₁) = >>=-eq-some (fetch atoi string_split c m) _ e in
      let (header, e₂, f₂) = >>=-eq-some (decode atoi string_split split) _ f₁ in
      let (x, e₃, f₃) = >>=-eq-some (execute atoi split c.cpu m) _ f₂ in
      let n = convertir_instruccion_a_enum header in
      let d : Ciclo = record c { cpu = x.0; nombre = n } in
      let (y, e₄, f₄) = >>=-eq-some (recibir_respuesta n rta d) _ f₃ in
      let q : y ≡ c' = (some_par _ _ f₄).0 in
      let (i, j) = respuesta-nombre n rta d y e₄ in
      let k : d ≡ c' = j (sym (ap hay_syscall (sym (ap (λ z. z.nombre) q) ∙ i)) ∙ h) ∙ q in
      record {
        sin_mutex = sym (ap (λ z. z.instancia_ocupada) k) ∙ s.sin_mutex;
        sin_join = sym (ap (λ z. z.existe_hilo_a_joinear) k) ∙ s.sin_join;
      }

  termina-interrumpida :
      (c : Ciclo)
      → SinEspera c
      → hay_syscall c.nombre ≡ false
      → termina c ≡ true
      → c.cpu.hay_exit ≡ false
      → c.cpu.interrupt_flag ≡ true
  unfolding termina
  termina-interrumpida c s h t x =
      let b : hay_bloqueo c.nombre ≡ false = bloqueo-llamada c.nombre h in
      let w = rw (x, s.sin_mutex, s.sin_join, b) at t in w

  vuelta-Pendiente :
      (rta : List ℕ) (c c' : Ciclo) (m m' : Memoria)
      → SinEspera c
      → vuelta atoi string_split rta c m ≡ some (c', m')
      → termina c' ≡ true
      → c'.cpu.hay_exit ≡ false
      → Pendiente c' m'
  unfolding vuelta
  vuelta-Pendiente rta c c' m m' s e t x =
      let (y, e₁, f₁) = >>=-eq-some (ciclo_de_instruccion atoi string_split rta c m) _ e in
      let (z, e₂, f₂) =
        >>=-eq-some (if hay_syscall y.0.nombre then actualizar_contexto y.0.cpu y.1 else some y.1) _
          f₁ in
      let (q, r) = some_par _ _ f₂ in
      elim (Bool-cases (hay_syscall c'.nombre)) [
        | inl h ↦
            (let h' = ap (λ d. hay_syscall d.nombre) q ∙ h in
              let g : actualizar_contexto y.0.cpu y.1 ≡ some z = sym (if_si _ _ _ h') ∙ e₂ in
              inl (rw (← q, ← r) (actualizar-Guardado y.0 y.1 z g)))
        | inr h ↦
            (let h' = ap (λ d. hay_syscall d.nombre) q ∙ h in
              let s' : SinEspera c' = rw (← q) (ciclo-SinEspera rta c y.0 m y.1 e₁ h' s) in
              inr (termina-interrumpida c' s' h t x, h))
      ]

sin_termina : (c : Ciclo) → termina c ≡ false → SinEspera c
unfolding termina
sin_termina c t = elim (Bool-cases c.cpu.hay_exit) [
  | inl h ↦ (let w = rw h at t in cc)
  | inr h ↦ elim (Bool-cases c.instancia_ocupada) [
    | inl i ↦ (let w = rw (h, i) at t in cc)
    | inr i ↦ elim (Bool-cases c.existe_hilo_a_joinear) [
      | inl j ↦ (let w = rw (h, i, j) at t in cc)
      | inr j ↦ record { sin_mutex = i; sin_join = j }
    ]
  ]
]

-- What an interrupt changes, taken or rejected.
pub record Interrumpido (c c' : Ciclo) : Type 0 where
  pub mismo_contexto : c'.cpu.un_contexto ≡ c.cpu.un_contexto
  pub mismo_exit : c'.cpu.hay_exit ≡ c.cpu.hay_exit
  pub mismo_nombre : c'.nombre ≡ c.nombre
  pub mismo_mutex : c'.instancia_ocupada ≡ c.instancia_ocupada
  pub mismo_join : c'.existe_hilo_a_joinear ≡ c.existe_hilo_a_joinear
  pub sigue : c.cpu.interrupt_flag ≡ true → c'.cpu.interrupt_flag ≡ true

interrupcion-Interrumpido :
    (b : Buffer) (c c' : Ciclo) → manejar_interrupcion b c ≡ some c' → Interrumpido c c'
unfolding manejar_interrupcion
interrupcion-Interrumpido b c c' e =
    let (x, e₁, f₁) = >>=-eq-some (recibir_int_del_buffer b) _ e in
    let (y, e₂, f₂) = >>=-eq-some (recibir_int_del_buffer x.1) _ f₁ in
    let propio = (x.0 == c.cpu.un_contexto.pid) && (y.0 == c.cpu.un_contexto.tid) in
    elim (Bool-cases propio) [
      | inl h ↦
          (let f₃ = sym (if_si propio _ _ h) ∙ f₂ in
            let (z, e₄, f₄) = >>=-eq-some (recibir_int_del_buffer y.1) _ f₃ in
            let q = some-injective _ _ f₄ in
            rw (← q) (record {
              mismo_contexto = refl;
              mismo_exit = refl;
              mismo_nombre = refl;
              mismo_mutex = refl;
              mismo_join = refl;
              sigue = λ h. refl;
            }))
      | inr h ↦
          (let q = some-injective _ _ (sym (if_no propio _ _ h) ∙ f₂) in
            rw (← q) (record {
              mismo_contexto = refl;
              mismo_exit = refl;
              mismo_nombre = refl;
              mismo_mutex = refl;
              mismo_join = refl;
              sigue = λ h. h;
            }))
    ]

module _ (atoi : List ℕ → ℕ) (string_split : List ℕ → List (List ℕ)) where
  pub Corre-Pendiente :
      {c c' : Ciclo} {m m' : Memoria}
      → Corre atoi string_split c m c' m'
      → SinEspera c
      → c'.cpu.hay_exit ≡ false
      → Pendiente c' m'
  Corre-Pendiente {c} {c'} {m} {m'} (ultima rta e t) s x =
      vuelta-Pendiente atoi string_split rta c c' m m' s e t x
  Corre-Pendiente (otra {c' = d} rta e t r) s x = Corre-Pendiente r (sin_termina d t) x
  Corre-Pendiente {c} (antes {c' = d} b e r) s x =
      let i = interrupcion-Interrumpido b c d e in
      Corre-Pendiente r
        (record { sin_mutex = i.mismo_mutex ∙ s.sin_mutex; sin_join = i.mismo_join ∙ s.sin_join }) x
  Corre-Pendiente {c' = c''} {m' = m'} (despues {c' = d} b r e) s x =
      let i = interrupcion-Interrumpido b d c'' e in
      elim (Corre-Pendiente r s (sym i.mismo_exit ∙ x)) [
        | inl g ↦ inl (rw i.mismo_contexto g)
        | inr (f, h) ↦ inr (i.sigue f, ap hay_syscall i.mismo_nombre ∙ h)
      ]
