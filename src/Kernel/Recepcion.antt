-- ===== src/Kernel/Recepcion.antt =====
-- How the kernel receives a system call of the CPU (kernel/src/kernel_cpu_dispatch.c).
use tp_2024_2c_nachi_y_los_o.Comun.{
  ℕ, ◌<◌, ◌≡◌, Option, some, List, [], ◌++◌, map, arith, ◌>>=◌, length, All, mod32,
}
use mathlib.Core.List.{append_assoc}
use tp_2024_2c_nachi_y_los_o.Utils.Instrucciones.{
  Nombre, set, read_mem, write_mem, sum, sub, jnz, log, dump_memory, io, process_create,
  thread_create, thread_cancel, thread_join, mutex_create, mutex_lock, mutex_unlock, thread_exit,
  process_exit,
}
use tp_2024_2c_nachi_y_los_o.Utils.Paquete.Bytes.{bytes_int}
use tp_2024_2c_nachi_y_los_o.Utils.Paquete.{Buffer, recibir_int_del_buffer}
use tp_2024_2c_nachi_y_los_o.Utils.Paquete.IdaYVuelta.{
  con, crear_buffer-con, cargar_int-con, recibir_int-con,
}
use tp_2024_2c_nachi_y_los_o.Utils.Contexto.{Contexto, Parametro, Mochila, recibir_mochila}
use tp_2024_2c_nachi_y_los_o.Utils.Contexto.Parametros.{
  Cabe, recibido, bytes_parametros, cargar_parametros-con, recibir_mochila-con,
}
use tp_2024_2c_nachi_y_los_o.Cpu.Ejecucion.{codigo, cargar_hilo_a_paquete, paquete_de_llamada}

-- The thread that calls, and its call.
pub record Llamada : Type 0 where
  pub pid : ℕ
  pub tid : ℕ
  pub verificador : ℕ
  pub mochila : Mochila

-- The case `ATENDER_INSTRUCCION_CPU`, up to `recibir_mochila`.
unfoldable pub recibir_llamada : Buffer → Option Llamada
recibir_llamada b₀ = do
  (pid, b₁) ← recibir_int_del_buffer b₀
  (tid, b₂) ← recibir_int_del_buffer b₁
  (verificador, b₃) ← recibir_int_del_buffer b₂
  (mochila, b₄) ← recibir_mochila b₃
  some (record { pid = pid; tid = tid; verificador = verificador; mochila = mochila })

menor_codigo : (n : Nombre) → codigo n < mod32
menor_codigo set = omega arith
menor_codigo read_mem = omega arith
menor_codigo write_mem = omega arith
menor_codigo sum = omega arith
menor_codigo sub = omega arith
menor_codigo jnz = omega arith
menor_codigo log = omega arith
menor_codigo dump_memory = omega arith
menor_codigo io = omega arith
menor_codigo process_create = omega arith
menor_codigo thread_create = omega arith
menor_codigo thread_cancel = omega arith
menor_codigo thread_join = omega arith
menor_codigo mutex_create = omega arith
menor_codigo mutex_lock = omega arith
menor_codigo mutex_unlock = omega arith
menor_codigo thread_exit = omega arith
menor_codigo process_exit = omega arith

bytes_llamada : Contexto → Nombre → List Parametro → List ℕ
bytes_llamada c n ps =
    bytes_int c.pid
    ++ (bytes_int c.tid
        ++ (bytes_int c.verificador
            ++ (bytes_int (codigo n) ++ (bytes_int (length ps) ++ bytes_parametros ps []))))

paquete-con :
    (c : Contexto) (n : Nombre) (ps : List Parametro)
    → (paquete_de_llamada c n ps).buffer ≡ con (bytes_llamada c n ps)
unfolding paquete_de_llamada cargar_hilo_a_paquete bytes_llamada
paquete-con c n ps = simp (crear_buffer-con, cargar_int-con, cargar_parametros-con, append_assoc)

-- The kernel receives from the packet of a system call the thread that called, the number of the
-- instruction and its parameters in order, each text with its NUL: where the numbers fit their C
-- types and there are fewer than 2 ^ 31 parameters.
pub recibir_llamada-paquete :
    (c : Contexto) (n : Nombre) (ps : List Parametro)
    → c.pid < mod32
    → c.tid < mod32
    → c.verificador < mod32
    → length ps < 2147483648
    → All Cabe ps
    → recibir_llamada ((paquete_de_llamada c n ps).buffer)
      ≡ some (record {
        pid = c.pid;
        tid = c.tid;
        verificador = c.verificador;
        mochila = record {
          instruccion_asociada = codigo n;
          cantidad_parametros_inicial = length ps;
          parametros = map recibido ps;
        };
      })
unfolding recibir_llamada bytes_llamada
recibir_llamada-paquete c n ps p t v k a = rw (paquete-con c n ps) (
    simp (
      recibir_int-con c.pid _ p,
      recibir_int-con c.tid _ t,
      recibir_int-con c.verificador _ v,
      recibir_mochila-con (codigo n) ps (menor_codigo n) k a,
    ))
