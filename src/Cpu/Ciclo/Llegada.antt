-- ===== src/Cpu/Ciclo/Llegada.antt =====
-- A thread that arrives at the CPU: the start of atender_hilo_kernel (cpu/src/cpu_kernel_dispatch.c),
-- and the arrival of its context (cpu/src/cpu_memoria.c).
use tp_2024_2c_nachi_y_los_o.Comun.{
  if◌then◌else◌, ℕ, ◌++◌, ◌<◌, ◌≡◌, ap, ◌∙◌, true, false, Option, none, some, List, [], ◌>>=◌,
  mod32,
}
use mathlib.Core.List.{append_assoc, append-nil}
use tp_2024_2c_nachi_y_los_o.Utils.Paquete.{Buffer, recibir_int_del_buffer}
use tp_2024_2c_nachi_y_los_o.Utils.Paquete.Bytes.{bytes_int}
use tp_2024_2c_nachi_y_los_o.Utils.Paquete.IdaYVuelta.{
  con, crear_buffer-con, cargar_int-con, recibir_int-con,
}
use tp_2024_2c_nachi_y_los_o.Utils.Contexto.{Contexto}
use tp_2024_2c_nachi_y_los_o.Memoria.Estado.{Proceso, Hilo, Memoria}
use tp_2024_2c_nachi_y_los_o.Memoria.Proceso.{buscar_proceso}
use tp_2024_2c_nachi_y_los_o.Memoria.Hilo.{buscar_hilo, atender_peticion_contexto}
use tp_2024_2c_nachi_y_los_o.Cpu.Ejecucion.{thread}
use tp_2024_2c_nachi_y_los_o.Cpu.Ciclo.{Ciclo, desalojar, Corre}
use tp_2024_2c_nachi_y_los_o.Cpu.Ciclo.Vueltas.{SinEspera}
use tp_2024_2c_nachi_y_los_o.Cpu.Ciclo.Desalojo.{Limpio, avisos, desalojar-contexto}
use tp_2024_2c_nachi_y_los_o.Kernel.Envio.{paquete_de_tcb}

-- The answer of the memory: "ERROR", or the context, which gets the verificador.
unfoldable pub llegada_de_contexto : ℕ → Option Contexto → Ciclo → Ciclo
llegada_de_contexto verificador none c = record c {
  cpu = record (c.cpu) { hay_exit = true; tipo_exit = thread };
}
llegada_de_contexto verificador (some x) c = record c {
  cpu = record (c.cpu) { un_contexto = record x { verificador = verificador } };
}

-- Up to `sem_wait(&llego_contexto)`.
unfoldable pub recibir_hilo : Buffer → Ciclo → Memoria → Option Ciclo
unfolding llegada_de_contexto
recibir_hilo b₀ c m = do
  (pid, b₁) ← recibir_int_del_buffer b₀
  (tid, b₂) ← recibir_int_del_buffer b₁
  (verificador, b₃) ← recibir_int_del_buffer b₂
  let x = record (c.cpu.un_contexto) { verificador = verificador }
  let c₁ : Ciclo = record c { cpu = record (c.cpu) { un_contexto = x } }
  some (llegada_de_contexto verificador (atender_peticion_contexto m pid tid x) c₁)

tcb-con :
    (pid tid v : ℕ)
    → (paquete_de_tcb pid tid v).buffer
      ≡ con (bytes_int pid ++ (bytes_int tid ++ (bytes_int v ++ [])))
unfolding paquete_de_tcb
tcb-con pid tid v = simp (crear_buffer-con, cargar_int-con, append_assoc, append-nil)

-- The CPU with a context.
abbrev pub con_contexto : Contexto → Ciclo → Ciclo
con_contexto x c = record c { cpu = record (c.cpu) { un_contexto = x } }

recibir_hilo-tcb :
    (pid tid v : ℕ) (c : Ciclo) (m : Memoria) (y : Contexto)
    → pid < mod32
    → tid < mod32
    → v < mod32
    → atender_peticion_contexto m pid tid (record (c.cpu.un_contexto) { verificador = v }) ≡ some y
    → recibir_hilo (paquete_de_tcb pid tid v).buffer c m
      ≡ some (con_contexto (record y { verificador = v }) c)
unfolding recibir_hilo llegada_de_contexto
recibir_hilo-tcb pid tid v c m y p t w e =
    rw (tcb-con pid tid v)
      (simp (recibir_int-con pid _ p, recibir_int-con tid _ t, recibir_int-con v _ w, e))

-- A thread runs its turns in the CPU from a state where it does not wait, with any answers of the
-- kernel and any interrupts, and its loop ends without an exit. Then, if the memory has the thread and
-- its process, the flags of exit, interrupt and waiting are clear for the next thread. The kernel is
-- sent the notice of the interrupt exactly if there was one; the flag of the quantum is false after
-- the notice, and else as it was. When the kernel sends the thread again, with the memory as the
-- thread left it, the CPU gets the registers that it had, with the base and the limit of the process
-- and the new verificador. The numbers are below 2 ^ 32.
pub recibir_hilo-desalojar :
    (atoi : List ℕ → ℕ) (string_split : List ℕ → List (List ℕ)) (c c' : Ciclo) (m m' : Memoria)
    (v : ℕ) (h : Hilo) (p : Proceso)
    → SinEspera c
    → Corre atoi string_split c m c' m'
    → c'.cpu.hay_exit ≡ false
    → buscar_hilo c'.cpu.un_contexto.pid c'.cpu.un_contexto.tid m'.list_hilos_recibidos ≡ some h
    → buscar_proceso c'.cpu.un_contexto.pid m'.lista_procesos_recibidos ≡ some p
    → c'.cpu.un_contexto.pid < mod32
    → c'.cpu.un_contexto.tid < mod32
    → v < mod32
    → (c₁ : Ciclo) × (m₁ : Memoria) × (maximo : ℕ) × (desalojar c' m' ≡ some (c₁, m₁))
      × Limpio c₁
      × (c₁.cpu.al_kernel ≡ c'.cpu.al_kernel ++ avisos c')
      × (c₁.hubo_quantum ≡ (if c'.cpu.interrupt_flag then false else c'.hubo_quantum))
      × (recibir_hilo (paquete_de_tcb c'.cpu.un_contexto.pid c'.cpu.un_contexto.tid v).buffer c₁ m₁
          ≡ some (
              con_contexto
                (record (c'.cpu.un_contexto) {
                  verificador = v;
                  maximo_pc = maximo;
                  r_cpu = record (c'.cpu.un_contexto.r_cpu) { base = p.base; limite = p.limite };
                })
                c₁))
recibir_hilo-desalojar atoi string_split c c' m m' v h p s r x e k a b w =
    let ctx = c'.cpu.un_contexto in
    let (c₁, m₁, d, l, g, n, q, (maximo, i)) =
      desalojar-contexto atoi string_split c c' m m' (record ctx { verificador = v }) h p s r x e
        k in
    let j =
      ap (λ y. atender_peticion_contexto m₁ ctx.pid ctx.tid (record y { verificador = v })) q ∙ i in
    (c₁, m₁, maximo, d, l, g, n, recibir_hilo-tcb ctx.pid ctx.tid v c₁ m₁ _ a b w j)
