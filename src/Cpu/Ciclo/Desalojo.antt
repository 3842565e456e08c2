-- ===== src/Cpu/Ciclo/Desalojo.antt =====
-- A thread that leaves the CPU (cpu/src/cpu_kernel_dispatch.c): what the memory keeps of it, and
-- what the kernel and the next thread find.
use tp_2024_2c_nachi_y_los_o.Comun.{
  ℕ, ◌≡◌, refl, sym, ap, ◌∙◌, inl, inr, true, false, none, some, List, [], ◌∷◌, ◌++◌, if◌then◌else◌,
  Bool-cases, Option-cases, if_si, if_no,
}
use mathlib.Core.List.{append-nil}
use tp_2024_2c_nachi_y_los_o.Utils.Paquete.{Paquete}
use tp_2024_2c_nachi_y_los_o.Utils.Contexto.{Contexto}
use tp_2024_2c_nachi_y_los_o.Memoria.Estado.{Proceso, Hilo, Memoria}
use tp_2024_2c_nachi_y_los_o.Memoria.Proceso.{Respuesta, ok, error, buscar_proceso}
use tp_2024_2c_nachi_y_los_o.Memoria.Hilo.{
  buscar_hilo, atender_actualizacion_contexto, atender_peticion_contexto,
}
use tp_2024_2c_nachi_y_los_o.Memoria.Hilo.Pedidos.{
  actualizacion-ok, peticion-actualizacion_contexto,
}
use tp_2024_2c_nachi_y_los_o.Cpu.Ejecucion.{actualizar_contexto, nada, hay_syscall}
use tp_2024_2c_nachi_y_los_o.Cpu.Ciclo.{
  Ciclo, paquete_de_desalojo, enviar_hilo_a_kernel, limpiar, desalojar, Corre,
}
use tp_2024_2c_nachi_y_los_o.Cpu.Ciclo.Vueltas.{SinEspera, Guardado, Corre-Pendiente}

-- Nothing of a thread is left for the next one.
pub record Limpio (c : Ciclo) : Type 0 where
  pub sin_exit : c.cpu.hay_exit ≡ false
  pub sin_interrupcion : c.cpu.interrupt_flag ≡ false
  pub sin_tipo : c.cpu.tipo_exit ≡ nada
  pub sin_espera : SinEspera c

-- What the kernel is sent by a thread that leaves without an exit.
abbrev pub avisos : Ciclo → List Paquete
avisos c =
    if c.cpu.interrupt_flag
    then paquete_de_desalojo c.cpu.un_contexto 11 nada c.hubo_quantum ∷ []
    else []

mismos_procesos :
    (m : Memoria) (x : Contexto)
    → (atender_actualizacion_contexto m x).0.lista_procesos_recibidos ≡ m.lista_procesos_recibidos
unfolding atender_actualizacion_contexto
mismos_procesos m x = elim (Option-cases (buscar_hilo x.pid x.tid m.list_hilos_recibidos)) [
  | inl e ↦ rw (e, atender_actualizacion_contexto) refl
  | inr (h, e) ↦ rw (e, atender_actualizacion_contexto) refl
]

si_ok :
    (x : Memoria × Respuesta)
    → x.1 ≡ ok
    → (x ≡ (x.0, ok)) × ((elim x.1 [ ok ↦ some x.0 | error ↦ none ]) ≡ some x.0)
si_ok (m, ok) e = (refl, refl)
si_ok (m, error) e = cc

actualizar-encontrado :
    (c : Ciclo) (m : Memoria) (h : Hilo)
    → buscar_hilo c.cpu.un_contexto.pid c.cpu.un_contexto.tid m.list_hilos_recibidos ≡ some h
    → (atender_actualizacion_contexto m c.cpu.un_contexto
        ≡ ((atender_actualizacion_contexto m c.cpu.un_contexto).0, ok))
      × (actualizar_contexto c.cpu m ≡ some (atender_actualizacion_contexto m c.cpu.un_contexto).0)
unfolding actualizar_contexto
actualizar-encontrado c m h e =
    si_ok (atender_actualizacion_contexto m c.cpu.un_contexto)
      (actualizacion-ok m c.cpu.un_contexto h e)

-- The memory answers the stored registers.
abbrev pub Devuelve : Contexto → Contexto → Proceso → Memoria → Type 0
Devuelve x c₀ p m =
    (maximo : ℕ) × (atender_peticion_contexto m x.pid x.tid c₀
      ≡ some (record {
        pid = x.pid;
        tid = x.tid;
        verificador = c₀.verificador;
        maximo_pc = maximo;
        r_cpu = record (x.r_cpu) { base = p.base; limite = p.limite };
      }))

Guardado-Devuelve :
    (x c₀ : Contexto) (p : Proceso) (m : Memoria)
    → Guardado x m
    → buscar_proceso x.pid m.lista_procesos_recibidos ≡ some p
    → Devuelve x c₀ p m
unfolding atender_actualizacion_contexto
Guardado-Devuelve x c₀ p m (m₀, e) k =
    elim (Option-cases (buscar_hilo x.pid x.tid m₀.list_hilos_recibidos)) [
      | inl f ↦
          (let g = rw (f, atender_actualizacion_contexto) at e in
            let q : error ≡ ok = ap (λ z. z.1) g in cc)
      | inr (h, f) ↦
          (let i : m₀.lista_procesos_recibidos ≡ m.lista_procesos_recibidos =
              sym (mismos_procesos m₀ x) ∙ ap (λ z. z.0.lista_procesos_recibidos) e in
            let j = ap (λ l. buscar_proceso x.pid l) i ∙ k in
            (
              h.maximo_pc,
              ap (λ z. atender_peticion_contexto z.0 x.pid x.tid c₀) (sym e)
                  ∙ peticion-actualizacion_contexto m₀ x c₀ h p f j,
            ))
    ]

-- What `desalojar` gives in each case.
module _ (c : Ciclo) (m : Memoria) (x : c.cpu.hay_exit ≡ false) where
  sin_aviso : c.cpu.interrupt_flag ≡ false → desalojar c m ≡ some (limpiar c, m)
  unfolding desalojar
  sin_aviso f = rw (x, f) refl

  con_aviso :
      (m' : Memoria)
      → c.cpu.interrupt_flag ≡ true
      → (if hay_syscall c.nombre then some m else actualizar_contexto c.cpu m) ≡ some m'
      → desalojar c m ≡ some (limpiar (enviar_hilo_a_kernel 11 nada c), m')
  unfolding desalojar enviar_hilo_a_kernel
  con_aviso m' f e = rw (x, f, e) refl

-- A thread that leaves the CPU: the state of the CPU and of the memory afterwards.
abbrev pub Deja : Ciclo → Memoria → Contexto → Proceso → Type 0
Deja c m c₀ p =
    (c' : Ciclo) × (m' : Memoria) × (desalojar c m ≡ some (c', m'))
    × Limpio c'
    × (c'.cpu.al_kernel ≡ c.cpu.al_kernel ++ avisos c)
    × (c'.hubo_quantum ≡ (if c.cpu.interrupt_flag then false else c.hubo_quantum))
    × (c'.cpu.un_contexto ≡ c.cpu.un_contexto)
    × Devuelve c.cpu.un_contexto c₀ p m'

module _ (c : Ciclo) (m : Memoria) (c₀ : Contexto) (p : Proceso) where
  Deja-con_aviso :
      (m' : Memoria)
      → c.cpu.hay_exit ≡ false
      → c.cpu.interrupt_flag ≡ true
      → (if hay_syscall c.nombre then some m else actualizar_contexto c.cpu m) ≡ some m'
      → Devuelve c.cpu.un_contexto c₀ p m'
      → Deja c m c₀ p
  unfolding enviar_hilo_a_kernel
  Deja-con_aviso m' x f e d = (
    limpiar (enviar_hilo_a_kernel 11 nada c),
    m',
    con_aviso c m x m' f e,
    record {
      sin_exit = refl;
      sin_interrupcion = refl;
      sin_tipo = refl;
      sin_espera = record { sin_mutex = refl; sin_join = refl };
    },
    rw f refl,
    rw f refl,
    refl,
    d,
  )

  Deja-sin_aviso :
      c.cpu.hay_exit ≡ false
      → c.cpu.interrupt_flag ≡ false
      → Devuelve c.cpu.un_contexto c₀ p m
      → Deja c m c₀ p
  Deja-sin_aviso x f d = (
    limpiar c,
    m,
    sin_aviso c m x f,
    record {
      sin_exit = refl;
      sin_interrupcion = refl;
      sin_tipo = refl;
      sin_espera = record { sin_mutex = refl; sin_join = refl };
    },
    rw f (sym (append-nil c.cpu.al_kernel)),
    rw f refl,
    refl,
    d,
  )

-- A thread that leaves without an exit leaves a clean CPU, and its context in the memory.
pub desalojar-contexto :
    (atoi : List ℕ → ℕ) (string_split : List ℕ → List (List ℕ)) (c c' : Ciclo) (m m' : Memoria)
    (c₀ : Contexto) (h : Hilo) (p : Proceso)
    → SinEspera c
    → Corre atoi string_split c m c' m'
    → c'.cpu.hay_exit ≡ false
    → buscar_hilo c'.cpu.un_contexto.pid c'.cpu.un_contexto.tid m'.list_hilos_recibidos ≡ some h
    → buscar_proceso c'.cpu.un_contexto.pid m'.lista_procesos_recibidos ≡ some p
    → Deja c' m' c₀ p
desalojar-contexto atoi string_split c c' m m' c₀ h p s r x e k =
    let ctx = c'.cpu.un_contexto in
    elim (Corre-Pendiente atoi string_split r s x) [
      | inl g ↦ elim (Bool-cases c'.cpu.interrupt_flag) [
        | inl f ↦ elim (Bool-cases (hay_syscall c'.nombre)) [
          | inl y ↦
              Deja-con_aviso c' m' c₀ p m' x f (if_si _ _ _ y) (Guardado-Devuelve ctx c₀ p m' g k)
          | inr y ↦ guardar f y
        ]
        | inr f ↦ Deja-sin_aviso c' m' c₀ p x f (Guardado-Devuelve ctx c₀ p m' g k)
      ]
      | inr (f, y) ↦ guardar f y
    ]
  where
    guardar : c'.cpu.interrupt_flag ≡ true → hay_syscall c'.nombre ≡ false → Deja c' m' c₀ p
    guardar f y =
        let x' = c'.cpu.un_contexto in
        let m₂ = (atender_actualizacion_contexto m' x').0 in
        let (a, b) = actualizar-encontrado c' m' h e in
        Deja-con_aviso c' m' c₀ p m₂ x f (if_no _ _ _ y ∙ b) (
          Guardado-Devuelve x' c₀ p m₂ (m', a)
            (ap (λ l. buscar_proceso x'.pid l) (mismos_procesos m' x') ∙ k))
