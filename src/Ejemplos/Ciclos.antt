-- ===== src/Ejemplos/Ciclos.antt =====
-- A turn of the instruction cycle at a concrete input.
use tp_2024_2c_nachi_y_los_o.Comun.{
  ◌++◌, ℕ, ◌≡◌, refl, true, false, Option, none, some, List, [], ◌∷◌, arith, ◌==◌, if◌then◌else◌,
  codes, menos_uno,
}
use tp_2024_2c_nachi_y_los_o.Utils.Instrucciones.{
  log, thread_exit, process_exit, validador_de_header, convertir_instruccion_a_enum,
}
use tp_2024_2c_nachi_y_los_o.Utils.Contexto.{RegistrosCpu, Contexto}
use tp_2024_2c_nachi_y_los_o.Memoria.Estado.{best, fijas, Proceso, Hilo, Memoria}
use tp_2024_2c_nachi_y_los_o.Memoria.Proceso.{buscar_proceso}
use tp_2024_2c_nachi_y_los_o.Memoria.Hilo.{
  buscar_hilo, actualizar_hilo, actualizar_contexto_hilo, atender_actualizacion_contexto,
  atender_peticion_instruccion, obtener_instruccion_por_indice,
}
use tp_2024_2c_nachi_y_los_o.Cpu.Ejecucion.{
  actualizar_contexto, thread, process, nada, execute, ejecutar, hay_bloqueo, hay_syscall,
  ejecutar_con_recurso, llamar,
}
use tp_2024_2c_nachi_y_los_o.Cpu.Ciclo.{
  Ciclo, recibir_respuesta, fetch, decode, ciclo_de_instruccion, vuelta, desalojar, termina, ultima,
  paquete_de_desalojo,
}
use tp_2024_2c_nachi_y_los_o.Kernel.Recepcion.{recibir_llamada}
use tp_2024_2c_nachi_y_los_o.Kernel.Avisos.{recibir_desalojo, salida, recibir-paquete_de_desalojo}
use tp_2024_2c_nachi_y_los_o.Cpu.Ciclo.Desalojo.{Limpio, avisos}
use tp_2024_2c_nachi_y_los_o.Cpu.Ciclo.Llegada.{con_contexto, recibir_hilo, recibir_hilo-desalojar}
use tp_2024_2c_nachi_y_los_o.Kernel.Envio.{paquete_de_tcb}

abbrev registros : RegistrosCpu
registros = record {
  pc = 0;
  ax = 7;
  bx = 0;
  cx = 0;
  dx = 0;
  ex = 0;
  fx = 0;
  gx = 0;
  hx = 0;
  base = 4;
  limite = 15;
}

abbrev proceso : Proceso
proceso = record {
  pid = 5;
  base = 4;
  limite = 15;
  particion_asignada_id = 0;
  mayor_direccion_fisica_escrita = menos_uno;
}

-- The only instruction of the thread.
abbrev hilo : Hilo
hilo = record {
  pid_asociado = 5;
  tid = 0;
  registros = registros;
  lista_instrucciones = codes "MUTEX_LOCK M" ∷ [];
  maximo_pc = 0;
}

abbrev memoria : Memoria
memoria = record {
  esquema = fijas;
  algoritmo_busqueda = best;
  tam_memoria = 20;
  particion_id = 1;
  lista_particiones = [];
  lista_procesos_recibidos = proceso ∷ [];
  list_hilos_recibidos = hilo ∷ [];
  espacio_usuario = [];
}

abbrev contexto : Contexto
contexto = record { pid = 5; tid = 0; verificador = 3; maximo_pc = 0; r_cpu = registros }

abbrev ciclo : Ciclo
ciclo = record {
  cpu = record {
    un_contexto = contexto;
    hay_exit = false;
    tipo_exit = nada;
    interrupt_flag = false;
    al_kernel = [];
  };
  nombre = log;
  instancia_ocupada = false;
  existe_hilo_a_joinear = false;
  hubo_quantum = false;
  interrupt_pid = 0;
  interrupt_tid = 0;
  interrupt_verificador = 0;
}

-- The words between the spaces.
abbrev palabra : ℕ → List (List ℕ) → List (List ℕ)
palabra c [] = (c ∷ []) ∷ []
palabra c (w ∷ ws) = (c ∷ w) ∷ ws

abbrev partir : List ℕ → List (List ℕ)
partir [] = [] ∷ []
partir (c ∷ cs) = if c == 32 then [] ∷ partir cs else palabra c (partir cs)

abbrev atoi : List ℕ → ℕ
atoi s = 0

abbrev par_o : Option (Ciclo × Memoria) → Ciclo × Memoria
par_o none = (ciclo, memoria)
par_o (some x) = x

-- The kernel answers that the mutex is taken.
tras_vuelta : Ciclo × Memoria
tras_vuelta = par_o (vuelta atoi partir (codes "DESALOJO") ciclo memoria)

abbrev hilo_o : Option Hilo → Hilo
hilo_o none = hilo
hilo_o (some h) = h

recibir_hilo-desalojar_example :
    (c₁ : Ciclo) × (m₁ : Memoria) × (maximo : ℕ) × (desalojar tras_vuelta.0 tras_vuelta.1
      ≡ some (c₁, m₁))
    × Limpio c₁
    × (c₁.cpu.al_kernel ≡ tras_vuelta.0.cpu.al_kernel ++ avisos tras_vuelta.0)
    × (c₁.hubo_quantum
        ≡ (if tras_vuelta.0.cpu.interrupt_flag then false else tras_vuelta.0.hubo_quantum))
    × (recibir_hilo
          (paquete_de_tcb tras_vuelta.0.cpu.un_contexto.pid tras_vuelta.0.cpu.un_contexto.tid
            9).buffer
          c₁
          m₁
        ≡ some (
            con_contexto
              (record (tras_vuelta.0.cpu.un_contexto) {
                verificador = 9;
                maximo_pc = maximo;
                r_cpu = record (tras_vuelta.0.cpu.un_contexto.r_cpu) { base = 4; limite = 15 };
              })
              c₁))
unfolding tras_vuelta vuelta ciclo_de_instruccion fetch decode recibir_respuesta actualizar_contexto
    execute ejecutar ejecutar_con_recurso llamar hay_syscall hay_bloqueo termina buscar_hilo
    actualizar_hilo actualizar_contexto_hilo atender_actualizacion_contexto
    atender_peticion_instruccion obtener_instruccion_por_indice validador_de_header
    convertir_instruccion_a_enum buscar_proceso
recibir_hilo-desalojar_example =
    recibir_hilo-desalojar atoi partir ciclo tras_vuelta.0 memoria tras_vuelta.1 9
      (hilo_o (buscar_hilo 5 0 tras_vuelta.1.list_hilos_recibidos)) proceso
      (record { sin_mutex = refl; sin_join = refl }) (ultima (codes "DESALOJO") refl refl) refl refl
      refl (omega arith) (omega arith) (omega arith)

recibir-paquete_de_desalojo_example :
    (recibir_desalojo (paquete_de_desalojo contexto 11 nada true).buffer
      ≡ some (record { pid = 5; tid = 0; verificador = 3; hubo_quantum = true }))
    × (recibir_llamada (paquete_de_desalojo contexto 6 thread true).buffer
        ≡ some (salida contexto thread_exit))
    × (recibir_llamada (paquete_de_desalojo contexto 6 process true).buffer
        ≡ some (salida contexto process_exit))
recibir-paquete_de_desalojo_example =
    recibir-paquete_de_desalojo contexto true (omega arith) (omega arith) (omega arith)
