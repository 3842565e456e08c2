-- ===== src/Ejemplos/Pedidos.antt =====
-- The kernel over the memory, and a thread that waits for a mutex, at concrete inputs.
use tp_2024_2c_nachi_y_los_o.Comun.{
  ℕ, ◌≡◌, refl, ◌⊎◌, true, false, none, some, List, [], ◌∷◌, ◌++◌, map, arith, if◌then◌else◌, ◌>>=◌,
  codes,
}
use tp_2024_2c_nachi_y_los_o.Utils.Contexto.{RegistrosCpu}
use tp_2024_2c_nachi_y_los_o.Memoria.Estado.{best, dinamicas, Memoria}
use tp_2024_2c_nachi_y_los_o.Memoria.Proceso.{
  ok, error, atender_creacion_proceso, atender_finalizacion_proceso,
}
use tp_2024_2c_nachi_y_los_o.Memoria.Hilo.{atender_creacion_hilo, atender_finalizacion_hilo}
use tp_2024_2c_nachi_y_los_o.Memoria.Atencion.{Contorno}
use tp_2024_2c_nachi_y_los_o.Kernel.Estado.{
  cmn, ready, HiloId, Tcb, MutexPcb, Kernel, MaximoTcb, MaximoCola,
}
use tp_2024_2c_nachi_y_los_o.Kernel.Mutex.{obtener_mutex}
use tp_2024_2c_nachi_y_los_o.Kernel.Sistema.{Sistema, buscar_pcb_por_pid, mutex_de}
use tp_2024_2c_nachi_y_los_o.Kernel.Procesos.{Pcb, new_pcb, buscar_pcb_por_pid_en}
use tp_2024_2c_nachi_y_los_o.Kernel.Planificacion.Veces.{peso_total, peso_en_colas, peso}
use tp_2024_2c_nachi_y_los_o.Kernel.Planificacion.Agregado.{EsKernel}
use tp_2024_2c_nachi_y_los_o.Kernel.Peticiones.{
  peticion_creacion_proceso, peticion_creacion_hilo, aviso_finalizacion_hilo,
  aviso_finalizacion_proceso, pedir, es_ok, pedir-peticiones,
}
use tp_2024_2c_nachi_y_los_o.Kernel.Finalizacion.{atender_liberacion_de_recurso}
use tp_2024_2c_nachi_y_los_o.Kernel.Creacion.{replanificar_creacion_proceso}
use tp_2024_2c_nachi_y_los_o.Kernel.Replanificacion.{aceptado}
use tp_2024_2c_nachi_y_los_o.Kernel.ConMemoria.{memoria_de, replanificar-memoria}
use tp_2024_2c_nachi_y_los_o.Kernel.Espera.{atender_liberacion-nulo}
use tp_2024_2c_nachi_y_los_o.Ejemplos.Bibliotecas.{commons, maximo}

abbrev ceros : RegistrosCpu
ceros = record {
  pc = 0;
  ax = 0;
  bx = 0;
  cx = 0;
  dx = 0;
  ex = 0;
  fx = 0;
  gx = 0;
  hx = 0;
  base = 0;
  limite = 0;
}

-- Every file has the instruction EXIT, and every dump is stored.
abbrev contorno : Contorno
contorno = record {
  commons = commons;
  leer_archivo = λ archivo. codes "EXIT" ∷ [];
  basura = ceros;
  filesystem = λ d. ok;
}

-- A memory of 64 bytes with one free partition.
abbrev memoria : Memoria
memoria = record {
  esquema = dinamicas;
  algoritmo_busqueda = best;
  tam_memoria = 64;
  particion_id = 1;
  lista_particiones =
      record {
        tamanio = 64;
        particion_id = 0;
        esta_ocupada = false;
        base = 0;
        limite = 63;
        proceso_en_particion = none;
      }
      ∷ [];
  lista_procesos_recibidos = [];
  list_hilos_recibidos = [];
  espacio_usuario = [];
}

pedir-peticiones_example :
    (pedir contorno memoria (peticion_creacion_proceso 6 8)
      ≡ some (
        (atender_creacion_proceso memoria 6 8).0,
        es_ok (atender_creacion_proceso memoria 6 8).1,
      ))
    × (pedir contorno memoria (peticion_creacion_hilo 6 1 (codes "plani")) ≡ (
        if es_ok (atender_creacion_hilo contorno.leer_archivo memoria 6 1 ceros (codes "plani")).1
        then some (
          (atender_creacion_hilo contorno.leer_archivo memoria 6 1 ceros (codes "plani")).0,
          true,
        )
        else none))
    × (pedir contorno memoria (aviso_finalizacion_hilo 1 6)
        ≡ some (
          (atender_finalizacion_hilo memoria 6 1).0,
          es_ok (atender_finalizacion_hilo memoria 6 1).1,
        ))
    × (pedir contorno memoria (aviso_finalizacion_proceso 6)
        ≡ (atender_finalizacion_proceso commons memoria 6 >>= λ (m', r). some (m', es_ok r)))
pedir-peticiones_example =
    pedir-peticiones contorno memoria 6 1 8 (codes "plani") (omega arith) (omega arith)
      (omega arith) (omega arith) (refl, (refl, (refl, (refl, (refl, tt)))))

abbrev hilo : ℕ → ℕ → HiloId
hilo tid pid = record { tid = tid; pid_asociado = pid }

abbrev tcb : ℕ → ℕ → Tcb
tcb tid prioridad = record {
  id_hilo = hilo tid 0;
  prioridad = prioridad;
  verificador = 0;
  estado = ready;
  tids_en_espera_por_join = [];
  lista_mutex_asignados = codes "M" ∷ [];
  flag_cancelar_quantum = false;
}

-- Thread 0 of process 0 executes.
abbrev kernel : Kernel
kernel = record {
  algoritmo_planificacion = cmn;
  lista_tcb_ready = [];
  lista_tcb_exec = tcb 0 3 ∷ [];
  lista_tcb_blocked = [];
  lista_cola_multinivel = record { prioridad_lista = 3; lista_ready = [] } ∷ [];
  var_verificador = 7;
  a_cpu = [];
}

kernel-EsKernel : EsKernel kernel
unfolding peso_total
kernel-EsKernel = record { a_lo_sumo_uno = omega arith; con_cola = λ e. refl }

-- Thread 1 of process 0 waits for the mutex of thread 0.
abbrev mutex : MutexPcb
mutex = record {
  nombre_recurso = codes "M";
  lista_bloqueados = hilo 1 0 ∷ [];
  id_hilo_asignado = hilo 0 0;
}

abbrev proceso : ℕ → ℕ → Pcb
proceso pid tamanio = record {
  pid = pid;
  lista_id_hilo = hilo 0 pid ∷ [];
  siguiente_tid = 0;
  lista_mutex = [];
  tamanio = tamanio;
  estado = new_pcb;
  archivo_instrucciones = codes "plani";
  prioridad_tid0 = 2;
  flag_proceso_finalizado = false;
}

-- Processes 1 and 2 wait in NEW, and memory has room for the first one.
abbrev sistema : Sistema Memoria
sistema = record {
  kernel = kernel;
  lista_tcb_exit = [];
  process_id = 3;
  lista_pcb_new = proceso 1 40 ∷ proceso 2 32 ∷ [];
  lista_pcb_en_memoria = record (proceso 0 32) { siguiente_tid = 2; lista_mutex = mutex ∷ [] } ∷ [];
  lista_pcb_exit = [];
  lista_en_espera_de_io = [];
  hilos = [];
  memoria = memoria;
  mensajes_a_cpu = [];
}

replanificar-memoria_example :
    (s' : Sistema Memoria) × (xs : List Pcb) × (replanificar_creacion_proceso
        (memoria_de contorno)
        false
        3
        sistema
      ≡ some s')
    × (sistema.lista_pcb_new ≡ xs ++ s'.lista_pcb_new)
    × (s'.lista_pcb_en_memoria ≡ sistema.lista_pcb_en_memoria ++ map aceptado xs)
    × ((s'.lista_pcb_new ≡ [])
        ⊎ ((p : Pcb) × (ps : List Pcb) × (m : Memoria) × (s'.lista_pcb_new ≡ p ∷ ps)
            × (atender_creacion_proceso m p.pid p.tamanio ≡ (s'.memoria, error))))
    × EsKernel s'.kernel
replanificar-memoria_example =
    replanificar-memoria contorno false sistema
      (
        record { sin_tid = refl; hilo_cero = refl },
        (record { sin_tid = refl; hilo_cero = refl }, tt),
      )
      kernel-EsKernel

abbrev maximo_tcb : MaximoTcb
maximo_tcb = maximo (λ t. t.prioridad)

abbrev maximo_cola : MaximoCola
maximo_cola = maximo (λ c. c.prioridad_lista)

su_mutex : mutex_de 0 (codes "M") sistema ≡ some mutex
unfolding mutex_de buscar_pcb_por_pid buscar_pcb_por_pid_en obtener_mutex
su_mutex = refl

sin_hilo_1 : peso_total (λ t. 0) kernel ≡ 0
unfolding peso_total peso_en_colas peso
sin_hilo_1 = refl

atender_liberacion-nulo_example :
    atender_liberacion_de_recurso maximo_tcb maximo_cola sistema 0 0 (codes "M") ≡ none
unfolding peso_total peso_en_colas peso
atender_liberacion-nulo_example =
    atender_liberacion-nulo maximo_tcb maximo_cola sistema 0 0 (codes "M") mutex (hilo 1 0) []
      su_mutex refl refl
