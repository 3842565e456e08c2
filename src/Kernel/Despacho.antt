-- ===== src/Kernel/Despacho.antt =====
-- The dispatcher of the kernel and the threads that it launches: kernel/src/kernel_cpu_dispatch.c.
-- `none` is an access through NULL. The locks are not modelled.
use tp_2024_2c_nachi_y_los_o.Comun.{
  ℕ, ◌%◌, Bool, true, ◌&&◌, ◌||◌, Option, none, some, List, [], ◌∷◌, ◌++◌, ◌==◌, if◌then◌else◌,
  ◌>>=◌, codes, opcion, mod32,
}
use tp_2024_2c_nachi_y_los_o.Kernel.Estado.{Tcb, Kernel, MaximoTcb, MaximoCola}
use tp_2024_2c_nachi_y_los_o.Kernel.Sistema.{
  PedidosMemoria, finalizar, pedir_io, volcar, Sistema, lanzar, enviar_mensaje_a_cpu,
  buscar_pcb_por_pid, modificar_pcb, modificar_mutex, con_kernel,
}
use tp_2024_2c_nachi_y_los_o.Kernel.Procesos.{buscar_pcb_por_pid_en}
use tp_2024_2c_nachi_y_los_o.Kernel.Hilos.{existe_hilo, obtener_hilo_desalojado, modificar_tcb}
use tp_2024_2c_nachi_y_los_o.Utils.Contexto.{
  Parametro, t_int, t_size_t, t_uint32, t_string, Mochila,
}
use tp_2024_2c_nachi_y_los_o.Kernel.Recepcion.{Llamada}
use tp_2024_2c_nachi_y_los_o.Kernel.Planificacion.{
  pcp_planificador_corto_plazo, bloquear_hilo_en_ejecucion,
}
use tp_2024_2c_nachi_y_los_o.Kernel.Mutex.{
  crear_mutex, obtener_mutex, esta_tomado_por, RtaMutexLock, ok, desalojo, atender_mutex_lock,
}
use tp_2024_2c_nachi_y_los_o.Kernel.Creacion.{crear_tcb, crear_proceso}
use tp_2024_2c_nachi_y_los_o.Kernel.Finalizacion.{atender_liberacion_de_recurso, finalizar_hilo}

-- A call with its parameters, as the cases of the switch take them out of the queue.
pub data Pedido : Type 0 where
  sys_process_create : List ℕ → ℕ → ℕ → Pedido
  sys_process_exit : Pedido
  sys_thread_create : List ℕ → ℕ → Pedido
  sys_thread_join : ℕ → Pedido
  sys_thread_cancel : ℕ → Pedido
  sys_thread_exit : Pedido
  sys_mutex_create : List ℕ → Pedido
  sys_mutex_lock : List ℕ → Pedido
  sys_mutex_unlock : List ℕ → Pedido
  sys_dump_memory : Pedido
  sys_io : ℕ → Pedido
  sys_no_reconocida : Pedido

-- `*(int*)` of a parameter.
abbrev pub leer_int : Parametro → Option ℕ
leer_int (t_int v) = some v
leer_int (t_size_t v) = some (v % mod32)
leer_int (t_uint32 v) = some v
leer_int (t_string s) = none

abbrev pub leer_texto : Parametro → Option (List ℕ)
leer_texto (t_string s) = some s
leer_texto p = none

-- `queue_pop`.
unfoldable pub con_int : List Parametro → (ℕ → Pedido) → Option Pedido
con_int [] f = none
con_int (p ∷ ps) f = leer_int p >>= λ v. some (f v)

unfoldable pub con_texto : List Parametro → (List ℕ → Pedido) → Option Pedido
con_texto [] f = none
con_texto (p ∷ ps) f = leer_texto p >>= λ v. some (f v)

unfoldable pub leer_creacion : List Parametro → Option Pedido
leer_creacion (a ∷ t ∷ p ∷ ps) = do
  archivo ← leer_texto a
  tamanio ← leer_int t
  prioridad ← leer_int p
  some (sys_process_create archivo tamanio prioridad)
leer_creacion ps = none

unfoldable pub leer_creacion_hilo : List Parametro → Option Pedido
leer_creacion_hilo (a ∷ p ∷ ps) = do
  archivo ← leer_texto a
  prioridad ← leer_int p
  some (sys_thread_create archivo prioridad)
leer_creacion_hilo ps = none

-- The labels of the switch.
unfoldable pub leer_pedido : Mochila → Option Pedido
unfolding con_int con_texto leer_creacion leer_creacion_hilo
leer_pedido m =
    let c = m.instruccion_asociada in
    let ps = m.parametros in
    if c == 7
    then some sys_dump_memory
    else if c == 8
    then con_int ps sys_io
    else if c == 9
    then leer_creacion ps
    else if c == 10
    then leer_creacion_hilo ps
    else if c == 11
    then con_int ps sys_thread_cancel
    else if c == 12
    then con_int ps sys_thread_join
    else if c == 13
    then con_texto ps sys_mutex_create
    else if c == 14
    then con_texto ps sys_mutex_lock
    else if c == 15
    then con_texto ps sys_mutex_unlock
    else if c == 16
    then some sys_thread_exit
    else if c == 17
    then some sys_process_exit
    else some sys_no_reconocida

abbrev pub texto_rta : RtaMutexLock → List ℕ
texto_rta ok = codes "OK"
texto_rta desalojo = codes "DESALOJO"

module _ {S : Type 0} where
  -- IO and DUMP_MEMORY write through the thread before the test for NULL.
  unfoldable pub sin_hilo : Sistema S → ℕ → Option (Sistema S)
  sin_hilo s instruccion = if (instruccion == 8) || (instruccion == 7) then none else some s

  unfoldable pub cancelar_quantum : ℕ → ℕ → Sistema S → Sistema S
  cancelar_quantum tid pid s = record s {
    kernel = modificar_tcb tid pid (λ t. record t { flag_cancelar_quantum = true }) s.kernel;
  }

module _ {S : Type 0} (mem : PedidosMemoria S) (basura : Bool) (mt : MaximoTcb)
    (mc : MaximoCola) where
  unfoldable pub atender_thread_create : Sistema S → ℕ → List ℕ → ℕ → Option (Sistema S)
  atender_thread_create s pid archivo prioridad =
      opcion (buscar_pcb_por_pid_en pid s.lista_pcb_en_memoria) (some s) (λ p.
        crear_tcb mem basura s p archivo prioridad >>= λ (s', p').
        some (enviar_mensaje_a_cpu 17 (codes "OK") (modificar_pcb pid (λ q. p') s')))

  unfoldable pub atender_thread_join : Sistema S → ℕ → ℕ → ℕ → Option (Sistema S)
  atender_thread_join s tid pid tid_a_esperar =
      if existe_hilo tid_a_esperar pid s.kernel
      then (bloquear_hilo_en_ejecucion mt mc s.kernel tid pid >>= λ k. some (
          enviar_mensaje_a_cpu 19 (codes "DESALOJO") (record s {
            kernel =
                modificar_tcb tid_a_esperar pid
                  (λ t. record t {
                    tids_en_espera_por_join =
                        t.tids_en_espera_por_join ++ record { tid = tid; pid_asociado = pid } ∷ [];
                  })
                  k;
          })))
      else some (enviar_mensaje_a_cpu 19 (codes "OK") s)

  unfoldable pub atender_thread_cancel : Sistema S → ℕ → ℕ → Option (Sistema S)
  atender_thread_cancel s pid tid_a_finalizar =
      (if existe_hilo tid_a_finalizar pid s.kernel
        then finalizar_hilo mem mt mc s (record { tid = tid_a_finalizar; pid_asociado = pid })
        else some s)
      >>= λ s'. some (enviar_mensaje_a_cpu 18 (codes "OK") s')

  -- A mutex that does not exist ends the thread.
  unfoldable pub atender_lock : Sistema S → ℕ → ℕ → List ℕ → Option (Sistema S)
  atender_lock s tid pid nombre = do
    p ← buscar_pcb_por_pid_en pid s.lista_pcb_en_memoria
    opcion (obtener_mutex nombre p.lista_mutex)
        (finalizar_hilo mem mt mc s (record { tid = tid; pid_asociado = pid }))
        (λ m. atender_mutex_lock mt mc s.kernel m tid pid >>= λ (k, m', r). some (
          enviar_mensaje_a_cpu 15 (texto_rta r)
            (modificar_mutex pid nombre (λ q. m') (record s { kernel = k }))))

  unfoldable pub atender_unlock : Sistema S → ℕ → ℕ → List ℕ → Option (Sistema S)
  atender_unlock s tid pid nombre = do
    p ← buscar_pcb_por_pid_en pid s.lista_pcb_en_memoria
    opcion (obtener_mutex nombre p.lista_mutex)
        (finalizar_hilo mem mt mc s (record { tid = tid; pid_asociado = pid }))
        (λ m.
          (if esta_tomado_por m tid pid
            then atender_liberacion_de_recurso mt mc s tid pid nombre
            else some s)
          >>= λ s'. some (enviar_mensaje_a_cpu 16 (codes "OK") s'))

  unfoldable pub atender_mutex_create : Sistema S → ℕ → List ℕ → Option (Sistema S)
  atender_mutex_create s pid nombre = do
    p ← buscar_pcb_por_pid_en pid s.lista_pcb_en_memoria
    some (
        enviar_mensaje_a_cpu 14 (codes "OK")
          (modificar_pcb pid (λ p. record p { lista_mutex = crear_mutex nombre p.lista_mutex }) s))

  -- The cases of the switch, for the thread `tid` of `pid`, which executes.
  unfoldable pub atender_pedido : Sistema S → ℕ → ℕ → Pedido → Option (Sistema S)
  unfolding atender_thread_create atender_thread_join atender_thread_cancel atender_lock
      atender_unlock atender_mutex_create
  atender_pedido s tid pid (sys_process_create archivo tamanio prioridad) =
      crear_proceso mem basura s archivo tamanio prioridad >>= λ s'.
      some (enviar_mensaje_a_cpu 20 (codes "OK") s')
  atender_pedido s tid pid sys_process_exit =
      some (if tid == 0 then lanzar (finalizar pid) s else s)
  atender_pedido s tid pid (sys_thread_create archivo prioridad) =
      atender_thread_create s pid archivo prioridad
  atender_pedido s tid pid (sys_thread_join tid_a_esperar) =
      atender_thread_join s tid pid tid_a_esperar
  atender_pedido s tid pid (sys_thread_cancel tid_a_finalizar) =
      atender_thread_cancel s pid tid_a_finalizar
  atender_pedido s tid pid sys_thread_exit =
      finalizar_hilo mem mt mc s (record { tid = tid; pid_asociado = pid })
  atender_pedido s tid pid (sys_mutex_create nombre) = atender_mutex_create s pid nombre
  atender_pedido s tid pid (sys_mutex_lock nombre) = atender_lock s tid pid nombre
  atender_pedido s tid pid (sys_mutex_unlock nombre) = atender_unlock s tid pid nombre
  atender_pedido s tid pid sys_dump_memory =
      con_kernel (lanzar (volcar (record { tid = tid; pid_asociado = pid })) s)
        (pcp_planificador_corto_plazo mt mc s.kernel)
  atender_pedido s tid pid (sys_io tiempo) =
      some (lanzar (pedir_io (record { tid = tid; pid_asociado = pid }) tiempo) s)
  atender_pedido s tid pid sys_no_reconocida = some s

  -- The thread that calls, where it executes.
  unfoldable pub segun_hilo : Option (Tcb × Kernel) → Sistema S → Llamada → Option (Sistema S)
  unfolding atender_pedido sin_hilo leer_pedido cancelar_quantum
  segun_hilo desalojado s l = opcion desalojado (sin_hilo s l.mochila.instruccion_asociada) (λ x.
      leer_pedido l.mochila >>= λ pedido.
      atender_pedido (cancelar_quantum l.tid l.pid s) l.tid l.pid pedido)

  -- The case ATENDER_INSTRUCCION_CPU, behind the reception of the call.
  unfoldable pub atender_instruccion : Sistema S → Llamada → Option (Sistema S)
  unfolding segun_hilo
  atender_instruccion s l =
      let desalojado = obtener_hilo_desalojado l.pid l.tid l.verificador s.kernel in
      let s1 : Sistema S = opcion desalojado s (λ (t, k). record s { kernel = k }) in
      buscar_pcb_por_pid l.pid s1 >>= λ p.
      if (l.mochila.instruccion_asociada == 17) && p.flag_proceso_finalizado
      then some s1
      else segun_hilo desalojado s1 l
