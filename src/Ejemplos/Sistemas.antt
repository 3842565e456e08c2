-- ===== src/Ejemplos/Sistemas.antt =====
-- The kernel as a whole at concrete inputs.
use tp_2024_2c_nachi_y_los_o.Comun.{
  ℕ, ◌-◌, ◌≡◌, refl, true, false, Option, none, some, List, [], ◌∷◌, ◌++◌, map, arith, ltb,
  if◌then◌else◌, codes,
}
use tp_2024_2c_nachi_y_los_o.Kernel.Estado.{cmn, ready, HiloId, Tcb, Kernel, MaximoTcb, MaximoCola}
use tp_2024_2c_nachi_y_los_o.Kernel.Sistema.{
  PedidosMemoria, pedir_io, bloquear_io, probar_io, Sistema, buscar_pcb_por_pid,
}
use tp_2024_2c_nachi_y_los_o.Kernel.Procesos.{Pcb}
use tp_2024_2c_nachi_y_los_o.Kernel.Hilos.{obtener_hilo_desalojado, modificar_tcb}
use tp_2024_2c_nachi_y_los_o.Kernel.Sistema.{LeyesMemoria}
use tp_2024_2c_nachi_y_los_o.Kernel.Procesos.{new_pcb}
use tp_2024_2c_nachi_y_los_o.Kernel.Planificacion.Agregado.{EsKernel}
use tp_2024_2c_nachi_y_los_o.Kernel.Recepcion.{Llamada}
use tp_2024_2c_nachi_y_los_o.Utils.Contexto.{t_int}
use tp_2024_2c_nachi_y_los_o.Kernel.Desalojo.{atender_desalojo_hilo}
use tp_2024_2c_nachi_y_los_o.Kernel.Transiciones.{Conserva, atender_desalojo_hilo-Conserva}
use tp_2024_2c_nachi_y_los_o.Kernel.Creacion.{replanificar_creacion_proceso}
use tp_2024_2c_nachi_y_los_o.Kernel.Replanificacion.{aceptado, Detenido, replanificar-total}
use tp_2024_2c_nachi_y_los_o.Kernel.Despacho.{atender_instruccion}
use tp_2024_2c_nachi_y_los_o.Kernel.Pasos.{ejecutar_tarea, Alcanza, aqui, luego, atender, correr}
use tp_2024_2c_nachi_y_los_o.Kernel.Pasos.Invariante.{Alcanza-EsKernel}
use tp_2024_2c_nachi_y_los_o.Kernel.Pasos.Io.{dos_pedidos-parados}
use tp_2024_2c_nachi_y_los_o.Ejemplos.Bibliotecas.{maximo, menor}
use tp_2024_2c_nachi_y_los_o.Kernel.Planificacion.Veces.{peso_total}
use tp_2024_2c_nachi_y_los_o.Kernel.Colas.{
  buscar_tcb_por_tid_de, buscar_y_remover_tcb_por_tid_de, todas_las_colas_estan_vacias,
  obtener_siguiente_tcb_a_ejecutar_en_cmn,
}
use tp_2024_2c_nachi_y_los_o.Kernel.Planificacion.{
  pcp_planificador_corto_plazo, bloquear_hilo_en_ejecucion,
}

abbrev maximo_tcb : MaximoTcb
maximo_tcb = maximo (λ t. t.prioridad)

abbrev maximo_cola : MaximoCola
maximo_cola = maximo (λ c. c.prioridad_lista)

-- A memory that counts its free bytes.
abbrev memoria_libre : PedidosMemoria ℕ
memoria_libre = record {
  creacion_proceso = λ m pid tamanio. if ltb m tamanio then (m, false) else (m - tamanio, true);
  creacion_hilo = λ m pid tid archivo. (m, true);
  finalizacion_hilo = λ m tid pid. (m, true);
  finalizacion_proceso = λ m pid. some (m, true);
  dump_memory = λ m tid pid. some (m, true);
}

abbrev leyes_libre : LeyesMemoria memoria_libre
leyes_libre = record {
  conoce = λ m pid. true;
  conoce-creacion = λ m pid tamanio e. refl;
  creacion_hilo-conoce = λ m pid tid archivo e. refl;
}

abbrev hilo : ℕ → ℕ → Tcb
hilo tid prioridad = record {
  id_hilo = record { tid = tid; pid_asociado = 0 };
  prioridad = prioridad;
  verificador = 0;
  estado = ready;
  tids_en_espera_por_join = [];
  lista_mutex_asignados = [];
  flag_cancelar_quantum = false;
}

-- Thread 0 of process 0 executes, and thread 1 is ready.
abbrev en_marcha : Kernel
en_marcha = record {
  algoritmo_planificacion = cmn;
  lista_tcb_ready = [];
  lista_tcb_exec = hilo 0 3 ∷ [];
  lista_tcb_blocked = [];
  lista_cola_multinivel =
      record { prioridad_lista = 3; lista_ready = [] }
      ∷ record { prioridad_lista = 1; lista_ready = hilo 1 1 ∷ [] }
      ∷ [];
  var_verificador = 7;
  a_cpu = [];
}

en_marcha-EsKernel : EsKernel en_marcha
unfolding peso_total
en_marcha-EsKernel = record { a_lo_sumo_uno = omega arith; con_cola = λ e. refl }

atender_desalojo_hilo-Conserva_example :
    (k' : Kernel) × (atender_desalojo_hilo maximo_tcb maximo_cola en_marcha 0 0 7 ≡ some k')
    × Conserva en_marcha k'
    × EsKernel k'
atender_desalojo_hilo-Conserva_example =
    atender_desalojo_hilo-Conserva maximo_tcb maximo_cola en_marcha 0 0 7 en_marcha-EsKernel

abbrev proceso : ℕ → ℕ → Pcb
proceso pid tamanio = record {
  pid = pid;
  lista_id_hilo = record { tid = 0; pid_asociado = pid } ∷ [];
  siguiente_tid = 0;
  lista_mutex = [];
  tamanio = tamanio;
  estado = new_pcb;
  archivo_instrucciones = codes "plani";
  prioridad_tid0 = 2;
  flag_proceso_finalizado = false;
}

-- Processes 1, 2 and 3 wait in NEW, and memory has room for the first two.
abbrev sistema : Sistema ℕ
sistema = record {
  kernel = en_marcha;
  lista_tcb_exit = [];
  process_id = 4;
  lista_pcb_new = proceso 1 16 ∷ proceso 2 8 ∷ proceso 3 64 ∷ [];
  lista_pcb_en_memoria = record (proceso 0 32) { siguiente_tid = 2 } ∷ [];
  lista_pcb_exit = [];
  lista_en_espera_de_io = [];
  hilos = [];
  memoria = 40;
  mensajes_a_cpu = [];
}

replanificar-total_example :
    (s' : Sistema ℕ) × (xs : List Pcb) × (replanificar_creacion_proceso memoria_libre false 4
        sistema
      ≡ some s')
    × (sistema.lista_pcb_new ≡ xs ++ s'.lista_pcb_new)
    × (s'.lista_pcb_en_memoria ≡ sistema.lista_pcb_en_memoria ++ map aceptado xs)
    × Detenido memoria_libre s'
    × EsKernel s'.kernel
replanificar-total_example =
    replanificar-total memoria_libre false leyes_libre sistema
      (
        record { sin_tid = refl; hilo_cero = refl },
        (
          record { sin_tid = refl; hilo_cero = refl },
          (record { sin_tid = refl; hilo_cero = refl }, tt),
        ),
      )
      en_marcha-EsKernel

-- Thread 0 asks for 50 ms of input and output.
abbrev llamada_io : Llamada
llamada_io = record {
  pid = 0;
  tid = 0;
  verificador = 7;
  mochila = record {
    instruccion_asociada = 8;
    cantidad_parametros_inicial = 1;
    parametros = t_int 50 ∷ [];
  };
}

abbrev estado_o : Option (Sistema ℕ) → Sistema ℕ
estado_o none = sistema
estado_o (some s) = s

abbrev hilo_0 : HiloId
hilo_0 = record { tid = 0; pid_asociado = 0 }

-- The call is attended, and the thread that the kernel launches for it runs up to its test of the list.
tras_llamada : Sistema ℕ
unfolding atender_instruccion
tras_llamada =
    estado_o (atender_instruccion memoria_libre false maximo_tcb maximo_cola sistema llamada_io)

tras_pedido : Sistema ℕ
unfolding ejecutar_tarea tras_llamada
tras_pedido = estado_o (
    ejecutar_tarea memoria_libre false maximo_tcb maximo_cola (pedir_io hilo_0 50)
      (record tras_llamada { hilos = [] }))

tras_io : Sistema ℕ
unfolding ejecutar_tarea tras_pedido
tras_io = estado_o (
    ejecutar_tarea memoria_libre false maximo_tcb maximo_cola (bloquear_io hilo_0 50)
      (record tras_pedido { hilos = [] }))

Alcanza-EsKernel_example : EsKernel tras_io.kernel
unfolding atender_instruccion ejecutar_tarea tras_llamada tras_pedido tras_io buscar_pcb_por_pid
    obtener_hilo_desalojado buscar_tcb_por_tid_de bloquear_hilo_en_ejecucion
    buscar_y_remover_tcb_por_tid_de modificar_tcb pcp_planificador_corto_plazo
    todas_las_colas_estan_vacias obtener_siguiente_tcb_a_ejecutar_en_cmn maximo menor
Alcanza-EsKernel_example =
    Alcanza-EsKernel memoria_libre false maximo_tcb maximo_cola sistema tras_io
      (luego {s' = tras_pedido}
        (luego {s' = tras_llamada} (luego {s' = sistema} aqui (atender llamada_io refl))
          (correr 0 (pedir_io hilo_0 50) [] refl refl))
        (correr 0 (bloquear_io hilo_0 50) [] refl refl))
      en_marcha-EsKernel

tras_io-prueba : tras_io.hilos ≡ probar_io hilo_0 50 ∷ []
unfolding atender_instruccion ejecutar_tarea tras_llamada tras_pedido tras_io buscar_pcb_por_pid
    obtener_hilo_desalojado buscar_tcb_por_tid_de bloquear_hilo_en_ejecucion
    buscar_y_remover_tcb_por_tid_de modificar_tcb pcp_planificador_corto_plazo
    todas_las_colas_estan_vacias obtener_siguiente_tcb_a_ejecutar_en_cmn maximo menor
tras_io-prueba = refl

abbrev hilo_1 : HiloId
hilo_1 = record { tid = 1; pid_asociado = 0 }

dos_pedidos-parados_example :
    (s' : Sistema ℕ) × Alcanza memoria_libre false maximo_tcb maximo_cola
      (record sistema {
        lista_en_espera_de_io = [];
        hilos = pedir_io hilo_0 50 ∷ pedir_io hilo_1 20 ∷ [];
      })
      s'
    × (s'.lista_en_espera_de_io ≡ (hilo_0, 50) ∷ (hilo_1, 20) ∷ [])
    × (s'.hilos ≡ [])
dos_pedidos-parados_example =
    dos_pedidos-parados memoria_libre false maximo_tcb maximo_cola sistema hilo_0 hilo_1 50 20
      (omega arith)
