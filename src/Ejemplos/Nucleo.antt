-- ===== src/Ejemplos/Nucleo.antt =====
-- The scheduler, the mutexes and the filesystem at concrete inputs.
use tp_2024_2c_nachi_y_los_o.Comun.{
  ◌≤◌, length, ℕ, ◌≡◌, refl, ◌⊎◌, inl, Bool, true, false, none, some, List, [], ◌∷◌, ◌++◌, arith,
  ◌==◌, codes,
}
use tp_2024_2c_nachi_y_los_o.Utils.Instrucciones.{mutex_lock}
use tp_2024_2c_nachi_y_los_o.Utils.Contexto.{Contexto, t_string}
use tp_2024_2c_nachi_y_los_o.Utils.Contexto.Parametros.{recibido}
use tp_2024_2c_nachi_y_los_o.Cpu.Ejecucion.{paquete_de_llamada}
use tp_2024_2c_nachi_y_los_o.Kernel.Recepcion.{recibir_llamada, recibir_llamada-paquete}
use tp_2024_2c_nachi_y_los_o.Kernel.Estado.{
  prioridades, ready, Tcb, Kernel, MutexPcb, MaximoTcb, MaximoCola,
}
use tp_2024_2c_nachi_y_los_o.Kernel.Colas.{buscar_tcb_por_tid_de}
use tp_2024_2c_nachi_y_los_o.Kernel.Planificacion.{pcp_planificador_corto_plazo}
use tp_2024_2c_nachi_y_los_o.Kernel.Planificacion.Invariantes.{EsPlanificacion, pcp-EsPlanificacion}
use tp_2024_2c_nachi_y_los_o.Kernel.Mutex.{
  esta_tomado, esta_tomado_por, RtaMutexLock, atender_mutex_lock,
}
use tp_2024_2c_nachi_y_los_o.Kernel.Mutex.RtaMutexLock.{ok, desalojo}
use tp_2024_2c_nachi_y_los_o.Kernel.Mutex.Exclusion.{
  EsValido, atender_mutex_lock-EsValido, bloqueado,
}
use tp_2024_2c_nachi_y_los_o.Filesystem.Bitmap.{
  encontrar_primer_bit_libre, cantidad_bloques_libres, libres_desde,
}
use tp_2024_2c_nachi_y_los_o.Filesystem.Bitmap.Busqueda.{
  EsPrimerLibre, encontrar_primer_bit_libre_lem,
}
use tp_2024_2c_nachi_y_los_o.Filesystem.Bloques.{asignar_bloques}
use tp_2024_2c_nachi_y_los_o.Filesystem.Bloques.Asignacion.{
  EsAsignacion, asignar_bloques-EsAsignacion,
}
use tp_2024_2c_nachi_y_los_o.Ejemplos.Bibliotecas.{maximo, bits}

maximo_tcb : MaximoTcb
maximo_tcb = maximo (λ t. t.prioridad)

maximo_cola : MaximoCola
maximo_cola = maximo (λ c. c.prioridad_lista)

abbrev hilo : ℕ → ℕ → Tcb
hilo tid prioridad = record {
  id_hilo = record { tid = tid; pid_asociado = 0 };
  prioridad = prioridad;
  verificador = 0;
  estado = ready;
  tids_en_espera_por_join = [];
  lista_mutex_asignados = [];
  flag_cancelar_quantum = false;
}

-- Two threads are ready, and the CPU is idle.
abbrev nucleo : Kernel
nucleo = record {
  algoritmo_planificacion = prioridades;
  lista_tcb_ready = hilo 1 3 ∷ hilo 2 1 ∷ [];
  lista_tcb_exec = [];
  lista_tcb_blocked = [];
  lista_cola_multinivel = [];
  var_verificador = 0;
  a_cpu = [];
}

pcp-EsPlanificacion_example :
    (k' : Kernel) × (pcp_planificador_corto_plazo maximo_tcb maximo_cola nucleo ≡ some k')
    × EsPlanificacion prioridades nucleo k'
pcp-EsPlanificacion_example = pcp-EsPlanificacion maximo_tcb maximo_cola nucleo (omega arith)

-- A mutex that thread 1 of process 0 has, and for which thread 2 waits.
abbrev recurso : MutexPcb
recurso = record {
  nombre_recurso = codes "R";
  lista_bloqueados = record { tid = 2; pid_asociado = 0 } ∷ [];
  id_hilo_asignado = record { tid = 1; pid_asociado = 0 };
}

recurso-EsValido : EsValido recurso
recurso-EsValido = record { esperan = (omega arith, tt); nadie_espera_libre = inl refl }

-- Thread 3 executes.
abbrev en_cpu : Kernel
en_cpu = record nucleo { lista_tcb_exec = hilo 3 2 ∷ [] }

en_cpu-hilo : buscar_tcb_por_tid_de 3 0 en_cpu.lista_tcb_exec ≡ some (hilo 3 2)
unfolding buscar_tcb_por_tid_de
en_cpu-hilo = refl

atender_mutex_lock-EsValido_example :
    (k' : Kernel) × (m' : MutexPcb) × (r : RtaMutexLock) × (atender_mutex_lock maximo_tcb
        maximo_cola en_cpu recurso 3 0
      ≡ some (k', m', r))
    × EsValido m'
    × (length k'.lista_tcb_exec ≤ 1)
    × (((esta_tomado recurso ≡ false)
          × (r ≡ ok)
          × (esta_tomado_por m' 3 0 ≡ true)
          × (k'.lista_tcb_blocked ≡ []))
        ⊎ ((esta_tomado recurso ≡ true)
            × (r ≡ desalojo)
            × (m'.id_hilo_asignado ≡ recurso.id_hilo_asignado)
            × (m'.lista_bloqueados
                ≡ recurso.lista_bloqueados ++ record { tid = 3; pid_asociado = 0 } ∷ [])
            × (k'.lista_tcb_blocked ≡ bloqueado (hilo 3 2) ∷ [])))
atender_mutex_lock-EsValido_example =
    atender_mutex_lock-EsValido maximo_tcb maximo_cola en_cpu recurso 3 0 (hilo 3 2) (omega arith)
      en_cpu-hilo (omega arith) recurso-EsValido

abbrev contexto : Contexto
contexto = record {
  pid = 0;
  tid = 1;
  verificador = 7;
  maximo_pc = 9;
  r_cpu = record {
    pc = 1;
    ax = 2;
    bx = 0;
    cx = 0;
    dx = 0;
    ex = 0;
    fx = 0;
    gx = 0;
    hx = 0;
    base = 0;
    limite = 63;
  };
}

recibir_llamada-paquete_example :
    recibir_llamada ((paquete_de_llamada contexto mutex_lock (t_string (codes "R") ∷ [])).buffer)
    ≡ some (record {
      pid = 0;
      tid = 1;
      verificador = 7;
      mochila = record {
        instruccion_asociada = 14;
        cantidad_parametros_inicial = 1;
        parametros = t_string (codes "R" ++ 0 ∷ []) ∷ [];
      };
    })
unfolding recibido
recibir_llamada-paquete_example =
    recibir_llamada-paquete contexto mutex_lock (t_string (codes "R") ∷ []) (omega arith)
      (omega arith) (omega arith) (omega arith) (omega arith, tt)

-- Four blocks, of which the first is taken.
abbrev mapa : ℕ × (ℕ → Bool)
mapa = (4, λ i. i == 0)

mapa-libres : cantidad_bloques_libres bits mapa ≡ 3
unfolding cantidad_bloques_libres libres_desde bits
mapa-libres = refl

asignar_bloques-EsAsignacion_example :
    (b' : ℕ × (ℕ → Bool)) × (indices : List ℕ) × (asignar_bloques bits 2 mapa ≡ some (b', indices))
    × EsAsignacion bits mapa 2 b' indices
asignar_bloques-EsAsignacion_example =
    asignar_bloques-EsAsignacion bits 2 mapa (omega (arith, mapa-libres))

encontrar_primer_bit_libre_lem_example :
    ((i : ℕ) × (encontrar_primer_bit_libre bits mapa ≡ some i) × EsPrimerLibre bits mapa i)
    ⊎ ((encontrar_primer_bit_libre bits mapa ≡ none) × (cantidad_bloques_libres bits mapa ≡ 0))
encontrar_primer_bit_libre_lem_example = encontrar_primer_bit_libre_lem bits mapa
