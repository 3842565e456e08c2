-- ===== src/Kernel/Pasos/Marco.antt =====
-- What the operations of the kernel leave alone (kernel/src/planificador_largo_plazo.c, pcb.c, tcb.c).
use tp_2024_2c_nachi_y_los_o.Comun.{ℕ, ◌≡◌, sym, Option, some, List, >>=-eq-some, some-injective}
use tp_2024_2c_nachi_y_los_o.Kernel.Estado.{MutexPcb, Kernel}
use tp_2024_2c_nachi_y_los_o.Kernel.Sistema.{
  Tarea, Sistema, lanzar, enviar_mensaje_a_cpu, modificar_pcb, modificar_mutex, con_kernel,
}
use tp_2024_2c_nachi_y_los_o.Kernel.Procesos.{Pcb}
use tp_2024_2c_nachi_y_los_o.Kernel.Planificacion.Agregado.{EsKernel}

module _ {S : Type 0} where
  -- The kernel stays valid.
  pub record Sigue (s s' : Sistema S) : Type 0 where
    pub valido : EsKernel s.kernel → EsKernel s'.kernel

  pub Sigue-refl : (s : Sistema S) → Sigue s s
  Sigue-refl s = record { valido = λ v. v }

  pub Sigue-trans : {s s' s'' : Sistema S} → Sigue s s' → Sigue s' s'' → Sigue s s''
  Sigue-trans p q = record { valido = λ v. q.valido (p.valido v) }

  pub Sigue-de : (s s' s'' : Sistema S) → some s' ≡ some s'' → Sigue s s' → Sigue s s''
  Sigue-de s s' s'' e p = rw (sym (some-injective _ _ e)) p

  -- An operation of the scheduler.
  pub con_kernel-Sigue :
      (s s' : Sistema S) (o : Option Kernel)
      → con_kernel s o ≡ some s'
      → ((k : Kernel) → o ≡ some k → EsKernel s.kernel → EsKernel k)
      → Sigue s s'
  con_kernel-Sigue s s' o e f =
      let (k, g, h) = >>=-eq-some o _ e in
      Sigue-de s (record s { kernel = k }) s' h (record { valido = f k g })

pub lanzar-Sigue : {S : Type 0} (t : Tarea) (s : Sistema S) → Sigue s (lanzar t s)
unfolding lanzar
lanzar-Sigue t s = record { valido = λ v. v }

pub modificar_pcb-Sigue :
    {S : Type 0} (pid : ℕ) (f : Pcb → Pcb) (s : Sistema S) → Sigue s (modificar_pcb pid f s)
unfolding modificar_pcb
modificar_pcb-Sigue pid f s = record { valido = λ v. v }

pub modificar_mutex-Sigue :
    {S : Type 0} (pid : ℕ) (n : List ℕ) (f : MutexPcb → MutexPcb) (s : Sistema S)
    → Sigue s (modificar_mutex pid n f s)
unfolding modificar_mutex
modificar_mutex-Sigue pid n f s = modificar_pcb-Sigue pid _ s

pub mensaje-Sigue :
    {S : Type 0} (c : ℕ) (m : List ℕ) (s : Sistema S) → Sigue s (enviar_mensaje_a_cpu c m s)
unfolding enviar_mensaje_a_cpu
mensaje-Sigue c m s = record { valido = λ v. v }
