-- ===== src/Kernel/Avisos.antt =====
-- How the kernel receives a thread that leaves the CPU (kernel/src/kernel_cpu_dispatch.c,
-- enviar_hilo_a_kernel of cpu/src/servicios_cpu.c).
use tp_2024_2c_nachi_y_los_o.Comun.{
  ℕ, ◌<◌, ◌≡◌, refl, ap, ◌∙◌, Bool, true, false, not, ◌==◌, Option, some, List, [], ◌++◌, arith,
  ◌>>=◌, mod32,
}
use mathlib.Core.List.{append_assoc, append-nil}
use tp_2024_2c_nachi_y_los_o.Utils.Instrucciones.{Nombre, thread_exit, process_exit}
use tp_2024_2c_nachi_y_los_o.Utils.Paquete.Bytes.{bytes_int}
use tp_2024_2c_nachi_y_los_o.Utils.Paquete.{Buffer, recibir_int_del_buffer}
use tp_2024_2c_nachi_y_los_o.Utils.Paquete.IdaYVuelta.{
  con, crear_buffer-con, cargar_int-con, recibir_int-con,
}
use tp_2024_2c_nachi_y_los_o.Utils.Contexto.{Contexto, recibir_mochila, recibir_parametros}
use tp_2024_2c_nachi_y_los_o.Cpu.Ejecucion.{thread, process, nada, codigo, cargar_hilo_a_paquete}
use tp_2024_2c_nachi_y_los_o.Cpu.Ciclo.{como_int, paquete_de_desalojo}
use tp_2024_2c_nachi_y_los_o.Kernel.Recepcion.{Llamada, recibir_llamada}

-- A thread that was interrupted.
pub record Aviso : Type 0 where
  pub pid : ℕ
  pub tid : ℕ
  pub verificador : ℕ
  pub hubo_quantum : Bool

-- The case `ATENDER_DESALOJO_HILO_CPU`, up to `destruir_buffer`.
unfoldable pub recibir_desalojo : Buffer → Option Aviso
recibir_desalojo b₀ = do
  (pid, b₁) ← recibir_int_del_buffer b₀
  (tid, b₂) ← recibir_int_del_buffer b₁
  (verificador, b₃) ← recibir_int_del_buffer b₂
  (hubo, b₄) ← recibir_int_del_buffer b₃
  some (record { pid = pid; tid = tid; verificador = verificador; hubo_quantum = not (hubo == 0) })

-- A call without parameters.
abbrev pub salida : Contexto → Nombre → Llamada
salida c n = record {
  pid = c.pid;
  tid = c.tid;
  verificador = c.verificador;
  mochila = record {
    instruccion_asociada = codigo n;
    cantidad_parametros_inicial = 0;
    parametros = [];
  };
}

abbrev bytes_hilo : Contexto → List ℕ → List ℕ
bytes_hilo c bs = bytes_int c.pid ++ (bytes_int c.tid ++ (bytes_int c.verificador ++ bs))

interrumpido-con :
    (c : Contexto) (q : Bool)
    → (paquete_de_desalojo c 11 nada q).buffer ≡ con (bytes_hilo c (bytes_int (como_int q) ++ []))
unfolding paquete_de_desalojo cargar_hilo_a_paquete
interrumpido-con c q = simp (crear_buffer-con, cargar_int-con, append_assoc, append-nil)

salida-con :
    (c : Contexto) (q : Bool)
    → ((paquete_de_desalojo c 6 thread q).buffer
        ≡ con (
            bytes_hilo c
              (bytes_int (codigo thread_exit) ++ (bytes_int 0 ++ (bytes_int (como_int q) ++ [])))))
      × ((paquete_de_desalojo c 6 process q).buffer
          ≡ con (
              bytes_hilo c (
                bytes_int (codigo process_exit)
                ++ (bytes_int 0 ++ (bytes_int (como_int q) ++ [])))))
unfolding paquete_de_desalojo cargar_hilo_a_paquete
salida-con c q = (
  simp (crear_buffer-con, cargar_int-con, append_assoc, append-nil),
  simp (crear_buffer-con, cargar_int-con, append_assoc, append-nil),
)

como_int-cabe : (q : Bool) → (como_int q < mod32) × (not (como_int q == 0) ≡ q)
como_int-cabe true = (omega arith, refl)
como_int-cabe false = (omega arith, refl)

module _ (c : Contexto) (p : c.pid < mod32) (t : c.tid < mod32) (v : c.verificador < mod32) where
  desalojo-recibido :
      (q : Bool)
      → recibir_desalojo (con (bytes_hilo c (bytes_int (como_int q) ++ [])))
        ≡ some (record { pid = c.pid; tid = c.tid; verificador = c.verificador; hubo_quantum = q })
  unfolding recibir_desalojo
  desalojo-recibido q = simp (
    recibir_int-con c.pid _ p,
    recibir_int-con c.tid _ t,
    recibir_int-con c.verificador _ v,
    recibir_int-con (como_int q) _ (como_int-cabe q).0,
    (como_int-cabe q).1,
  )

  salida-recibida :
      (n : ℕ) (bs : List ℕ)
      → n < mod32
      → recibir_llamada (con (bytes_hilo c (bytes_int n ++ (bytes_int 0 ++ bs))))
        ≡ some (record {
          pid = c.pid;
          tid = c.tid;
          verificador = c.verificador;
          mochila = record {
            instruccion_asociada = n;
            cantidad_parametros_inicial = 0;
            parametros = [];
          };
        })
  unfolding recibir_llamada recibir_mochila recibir_parametros
  salida-recibida n bs m = simp (
    recibir_int-con c.pid _ p,
    recibir_int-con c.tid _ t,
    recibir_int-con c.verificador _ v,
    recibir_int-con n _ m,
    recibir_int-con 0 bs (omega arith),
  )

-- The kernel receives from the packet of a thread that leaves the CPU the thread with its
-- verificador: after an interrupt with the flag of the quantum, and after THREAD_EXIT or PROCESS_EXIT
-- as the system call of that name without parameters. The numbers are below 2 ^ 32.
pub recibir-paquete_de_desalojo :
    (c : Contexto) (q : Bool)
    → c.pid < mod32
    → c.tid < mod32
    → c.verificador < mod32
    → (recibir_desalojo (paquete_de_desalojo c 11 nada q).buffer
        ≡ some (record { pid = c.pid; tid = c.tid; verificador = c.verificador; hubo_quantum = q }))
      × (recibir_llamada (paquete_de_desalojo c 6 thread q).buffer ≡ some (salida c thread_exit))
      × (recibir_llamada (paquete_de_desalojo c 6 process q).buffer ≡ some (salida c process_exit))
recibir-paquete_de_desalojo c q p t v = (
  ap recibir_desalojo (interrumpido-con c q) ∙ desalojo-recibido c p t v q,
  ap recibir_llamada (salida-con c q).0 ∙ salida-recibida c p t v 16 _ (omega arith),
  ap recibir_llamada (salida-con c q).1 ∙ salida-recibida c p t v 17 _ (omega arith),
)
