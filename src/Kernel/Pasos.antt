-- ===== src/Kernel/Pasos.antt =====
-- The threads that the dispatcher launches (kernel/src/kernel_cpu_dispatch.c), and the kernel as a
-- step relation: a message of the CPU is attended, or a thread that was launched runs its next
-- section.
pub mod Marco
pub mod Creaciones
pub mod Finales
pub mod Pedidos
pub mod Invariante
pub mod Io
use tp_2024_2c_nachi_y_los_o.Comun.{
  ℕ, zero, suc, ◌+◌, ◌-◌, ◌*◌, ◌/◌, ◌%◌, ◌^◌, ◌≤◌, ◌<◌, ◌≡◌, refl, sym, ap, ◌∙◌, ◌≢◌, ◌↔◌, ◌⊎◌, inl,
  inr, Bool, true, false, not, ◌&&◌, ◌||◌, Option, none, some, List, [], ◌∷◌, ◌++◌, map, arith, ltb,
  leb, ◌==◌, if◌then◌else◌, ltb→lt, leb→le, ==_iff, Bool-cases, Option-cases, ◌>>=◌, >>=-eq-some,
  if_si, if_no, codes, copiar_en, copiar_de, byte_en, tras_copia, cabe-copiar, copiar_en-total,
  length-copiar, copiado, byte_ajeno, get_or-take, get_or-drop, length-take, length-drop, opcion,
  opcion-cases, if-cases, some-injective, some_par, length, get_elem?, get_or, set, take, drop, All,
  length-append, take-append, drop-append, length-set, get_elem?-set_self, get_elem?-set_ne,
  All-append, All-set, All-get_elem?, mod32, menos_uno, add32, sub32, lt_int, menor_length,
}
use tp_2024_2c_nachi_y_los_o.Kernel.Estado.{
  Algoritmo, fifo, prioridades, cmn, ready, exec, HiloId, Tcb, MutexPcb, Kernel, MaximoTcb,
  MaximoCola,
}
use tp_2024_2c_nachi_y_los_o.Kernel.Sistema.{
  PedidosMemoria, Tarea, planificar, finalizar, pedir_io, bloquear_io, probar_io, dormir,
  despertar_io, mirar_io, seguir_io, volcar, pedir_volcado, Sistema, lanzar, enviar_mensaje_a_cpu,
  buscar_pcb_por_pid, modificar_pcb, modificar_mutex, mutex_de, con_kernel,
}
use tp_2024_2c_nachi_y_los_o.Kernel.Procesos.{
  en_memoria_pcb, exit_pcb, Pcb, nuevo_pcb, buscar_pcb_por_pid_en, remover_pcb,
}
use tp_2024_2c_nachi_y_los_o.Kernel.Hilos.{
  ◌<|>◌, buscar_tcb_por_tid, existe_hilo, buscar_y_remover_tcb_por_tid, obtener_hilo_desalojado,
  modificar_tcb,
}
use tp_2024_2c_nachi_y_los_o.Kernel.Recepcion.{Llamada}
use tp_2024_2c_nachi_y_los_o.Kernel.Planificacion.{
  quitar, pcp_planificador_corto_plazo, bloquear_hilo_en_ejecucion, desbloquear_hilo,
}
use tp_2024_2c_nachi_y_los_o.Kernel.Finalizacion.{finalizar_proceso}
use tp_2024_2c_nachi_y_los_o.Kernel.Desalojo.{atender_desalojo_hilo}
use tp_2024_2c_nachi_y_los_o.Kernel.Despacho.{atender_instruccion}

-- The sections of `atender_io` and `manejar_sleep`: between two of them the lock of the list is
-- free, and any other thread may run.
module _ {S : Type 0} (mt : MaximoTcb) (mc : MaximoCola) where
  unfoldable pub atender_io : Sistema S → HiloId → ℕ → Sistema S
  unfolding lanzar
  atender_io s h tiempo =
      lanzar (bloquear_io h tiempo)
        (record s { lista_en_espera_de_io = s.lista_en_espera_de_io ++ (h, tiempo) ∷ [] })

  unfoldable pub bloquear_por_io : Sistema S → HiloId → ℕ → Option (Sistema S)
  unfolding lanzar
  bloquear_por_io s h tiempo =
      con_kernel (lanzar (probar_io h tiempo) s)
        (bloquear_hilo_en_ejecucion mt mc s.kernel h.tid h.pid_asociado)

  unfoldable pub probar_lista_io : Sistema S → HiloId → ℕ → Sistema S
  unfolding lanzar
  probar_lista_io s h tiempo =
      if length s.lista_en_espera_de_io == 1 then lanzar (dormir h tiempo) s else s

  -- `manejar_sleep` behind `usleep`: another thread may have emptied the list, and then there is no
  -- element 0 to remove.
  unfoldable pub manejar_sleep : Sistema S → HiloId → Option (Sistema S)
  unfolding lanzar
  manejar_sleep s h = quitar 0 s.lista_en_espera_de_io >>= λ (x, resto).
      some (lanzar (despertar_io h) (record s { lista_en_espera_de_io = resto }))

  unfoldable pub despertar_de_io : Sistema S → HiloId → Option (Sistema S)
  unfolding lanzar
  despertar_de_io s h = con_kernel (lanzar mirar_io s) (desbloquear_hilo mt mc s.kernel h)

  -- `nuevo_tcb_sleep` is the head of the list, which keeps it.
  unfoldable pub mirar_siguiente : List (HiloId × ℕ) → Sistema S → Sistema S
  unfolding lanzar
  mirar_siguiente [] s = s
  mirar_siguiente (x ∷ xs) s = lanzar (seguir_io x.0 x.1) s

  unfoldable pub seguir_con : Sistema S → HiloId → ℕ → Option (Sistema S)
  unfolding lanzar
  seguir_con s h tiempo =
      con_kernel (lanzar (dormir h tiempo) s) (pcp_planificador_corto_plazo mt mc s.kernel)

module _ {S : Type 0} (mem : PedidosMemoria S) (basura : Bool) (mt : MaximoTcb)
    (mc : MaximoCola) where
  unfoldable pub atender_dump_memory : Sistema S → HiloId → Option (Sistema S)
  unfolding lanzar
  atender_dump_memory s h =
      con_kernel (lanzar (pedir_volcado h) s)
        (bloquear_hilo_en_ejecucion mt mc s.kernel h.tid h.pid_asociado)

  -- The request and its answer.
  unfoldable pub pedir_dump : Sistema S → HiloId → Option (Sistema S)
  unfolding lanzar
  pedir_dump s h = do
    (m, acepta) ← mem.dump_memory s.memoria h.tid h.pid_asociado
    let s1 : Sistema S = record s { memoria = m }
    if acepta
        then con_kernel s1 (desbloquear_hilo mt mc s.kernel h)
        else some (lanzar (finalizar h.pid_asociado) s1)

  unfoldable pub ejecutar_tarea : Tarea → Sistema S → Option (Sistema S)
  unfolding manejar_sleep atender_io atender_dump_memory bloquear_por_io probar_lista_io
      despertar_de_io mirar_siguiente seguir_con pedir_dump
  ejecutar_tarea planificar s = con_kernel s (pcp_planificador_corto_plazo mt mc s.kernel)
  ejecutar_tarea (finalizar pid) s = finalizar_proceso mem basura mt mc s pid
  ejecutar_tarea (pedir_io h tiempo) s = some (atender_io mt mc s h tiempo)
  ejecutar_tarea (bloquear_io h tiempo) s = bloquear_por_io mt mc s h tiempo
  ejecutar_tarea (probar_io h tiempo) s = some (probar_lista_io mt mc s h tiempo)
  ejecutar_tarea (dormir h tiempo) s = manejar_sleep mt mc s h
  ejecutar_tarea (despertar_io h) s = despertar_de_io mt mc s h
  ejecutar_tarea mirar_io s = some (mirar_siguiente mt mc s.lista_en_espera_de_io s)
  ejecutar_tarea (seguir_io h tiempo) s = seguir_con mt mc s h tiempo
  ejecutar_tarea (volcar h) s = atender_dump_memory s h
  ejecutar_tarea (pedir_volcado h) s = pedir_dump s h

  -- A step of the kernel.
  pub data Paso (s : Sistema S) : Sistema S → Type 0 where
    atender :
        (l : Llamada) {s' : Sistema S}
        → atender_instruccion mem basura mt mc s l ≡ some s'
        → Paso s s'
    desalojar :
        (pid tid verificador : ℕ) {s' : Sistema S}
        → con_kernel s (atender_desalojo_hilo mt mc s.kernel pid tid verificador) ≡ some s'
        → Paso s s'
    correr :
        (i : ℕ) (t : Tarea) (ts : List Tarea) {s' : Sistema S}
        → quitar i s.hilos ≡ some (t, ts)
        → ejecutar_tarea t (record s { hilos = ts }) ≡ some s'
        → Paso s s'

  pub data Alcanza (s : Sistema S) : Sistema S → Type 0 where
    aqui : Alcanza s s
    luego : {s' s'' : Sistema S} → Alcanza s s' → Paso s' s'' → Alcanza s s''
