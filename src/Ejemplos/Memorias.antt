-- ===== src/Ejemplos/Memorias.antt =====
-- The user memory, the threads and the instructions of the CPU at concrete inputs.
use tp_2024_2c_nachi_y_los_o.Comun.{
  ℕ, ◌+◌, ◌-◌, ◌≤◌, ◌<◌, ◌≡◌, refl, ◌⊎◌, inl, inr, true, false, none, some, List, [], ◌∷◌, arith,
  codes, length, take, drop, menos_uno,
}
use tp_2024_2c_nachi_y_los_o.Utils.Instrucciones.{ax, bx, convertir_registro_a_enum}
use tp_2024_2c_nachi_y_los_o.Utils.Contexto.{RegistrosCpu, Contexto}
use tp_2024_2c_nachi_y_los_o.Memoria.Estado.{best, fijas, Proceso, Particion, Hilo, Memoria}
use tp_2024_2c_nachi_y_los_o.Memoria.Particion.{buscar_particion_por_base_y_limite}
use tp_2024_2c_nachi_y_los_o.Memoria.Proceso.{ok, buscar_proceso, existe_proceso}
use tp_2024_2c_nachi_y_los_o.Memoria.EspacioUsuario.{
  atender_lectura, atender_escritura, atender_dump_memory,
}
use tp_2024_2c_nachi_y_los_o.Memoria.EspacioUsuario.Accesos.{
  atender_lectura-atender_escritura, atender_lectura-escritura_ajena, atender_escritura-total,
}
use tp_2024_2c_nachi_y_los_o.Memoria.EspacioUsuario.Volcado.{atender_dump_memory-sin_escrituras}
use tp_2024_2c_nachi_y_los_o.Memoria.EspacioUsuario.Escrituras.{
  escribir_todas, mayor_direccion, atender_dump_memory-escrituras,
}
use tp_2024_2c_nachi_y_los_o.Memoria.Hilo.{
  buscar_hilo, atender_creacion_hilo, atender_peticion_contexto, atender_actualizacion_contexto,
  atender_peticion_instruccion,
}
use tp_2024_2c_nachi_y_los_o.Memoria.Hilo.Pedidos.{
  peticion-actualizacion_contexto, peticion-actualizacion_ajena, peticion_instruccion-creacion_hilo,
}
use tp_2024_2c_nachi_y_los_o.Cpu.Registros.{leer_registro, escribir_registro}
use tp_2024_2c_nachi_y_los_o.Cpu.Mmu.{mmu, mmu_lem, mmu-vacio}
use tp_2024_2c_nachi_y_los_o.Cpu.Ejecucion.{
  process, nada, Cpu, con_registros, avanzar, ejecutar_read_mem, ejecutar_write_mem,
}
use tp_2024_2c_nachi_y_los_o.Cpu.Ejecucion.Accesos.{
  ejecutar_write_mem-total, ejecutar_read_mem-total, ejecutar_write_mem-rechazo,
  ejecutar_write_mem-ajena,
}

abbrev registros : ℕ → ℕ → RegistrosCpu
registros direccion dato = record {
  pc = 0;
  ax = direccion;
  bx = dato;
  cx = 0;
  dx = 0;
  ex = 0;
  fx = 0;
  gx = 0;
  hx = 0;
  base = 4;
  limite = 15;
}

abbrev contexto : ℕ → ℕ → Contexto
contexto direccion dato = record {
  pid = 5;
  tid = 0;
  verificador = 0;
  maximo_pc = 0;
  r_cpu = registros direccion dato;
}

abbrev particion : Particion
particion = record {
  tamanio = 12;
  particion_id = 0;
  esta_ocupada = true;
  base = 4;
  limite = 15;
  proceso_en_particion = some 5;
}

-- Process 5 in the bytes from 4 to 15 of a memory of 20.
abbrev proceso : ℕ → Proceso
proceso mayor = record {
  pid = 5;
  base = 4;
  limite = 15;
  particion_asignada_id = 0;
  mayor_direccion_fisica_escrita = mayor;
}

abbrev hilo : Hilo
hilo = record {
  pid_asociado = 5;
  tid = 0;
  registros = registros 0 0;
  lista_instrucciones = codes "EXIT" ∷ [];
  maximo_pc = 0;
}

abbrev memoria : ℕ → Memoria
memoria mayor = record {
  esquema = fijas;
  algoritmo_busqueda = best;
  tam_memoria = 20;
  particion_id = 1;
  lista_particiones = particion ∷ [];
  lista_procesos_recibidos = proceso mayor ∷ [];
  list_hilos_recibidos = hilo ∷ [];
  espacio_usuario =
      0 ∷ 0 ∷ 0 ∷ 0 ∷ 0 ∷ 0 ∷ 0 ∷ 0 ∷ 0 ∷ 0 ∷ 0 ∷ 0 ∷ 0 ∷ 0 ∷ 0 ∷ 0 ∷ 0 ∷ 0 ∷ 0 ∷ 0 ∷ [];
}

encontrado : (mayor : ℕ) → buscar_proceso 5 (proceso mayor ∷ []) ≡ some (proceso mayor)
unfolding buscar_proceso
encontrado mayor = refl

-- The memory after a write of 77 at address 8.
escrita : (m' : Memoria) × (atender_escritura (memoria menos_uno) 5 8 77 ≡ some m')
escrita =
    atender_escritura-total (memoria menos_uno) 5 8 77 (proceso menos_uno) (encontrado menos_uno)
      (omega arith)

atender_lectura-atender_escritura_example :
    (12 ≤ 20) × (length escrita.0.espacio_usuario ≡ 20) × (atender_lectura escrita.0 8 ≡ some 77)
atender_lectura-atender_escritura_example =
    atender_lectura-atender_escritura (memoria menos_uno) escrita.0 5 8 77 (omega arith) escrita.1

atender_lectura-escritura_ajena_example :
    atender_lectura escrita.0 4 ≡ atender_lectura (memoria menos_uno) 4
atender_lectura-escritura_ajena_example =
    atender_lectura-escritura_ajena (memoria menos_uno) escrita.0 5 8 77 4 escrita.1
      (inl (omega arith))

por_base_y_limite : buscar_particion_por_base_y_limite 4 15 (particion ∷ []) ≡ some (0, particion)
unfolding buscar_particion_por_base_y_limite
por_base_y_limite = refl

atender_dump_memory-escrituras_example :
    (m' : Memoria) × (escribir_todas (memoria menos_uno) 5 ((8, 77) ∷ (4, 1) ∷ []) ≡ some m')
    × (atender_dump_memory m' 5
        ≡ some (record {
          mensaje = take (mayor_direccion 8 ((4, 1) ∷ []) - 4 + 1) (drop 4 m'.espacio_usuario);
          tamanio_particion = 12;
          tamanio = mayor_direccion 8 ((4, 1) ∷ []) - 4 + 1;
        }))
atender_dump_memory-escrituras_example =
    atender_dump_memory-escrituras (memoria menos_uno) 5 0 (proceso menos_uno) particion (8, 77)
      ((4, 1) ∷ []) (encontrado menos_uno) refl por_base_y_limite (omega arith)
      (omega arith, (omega arith, tt)) (omega arith)

atender_dump_memory-sin_escrituras_example : atender_dump_memory (memoria menos_uno) 5 ≡ none
atender_dump_memory-sin_escrituras_example =
    atender_dump_memory-sin_escrituras (memoria menos_uno) 5 0 (proceso menos_uno) particion
      (encontrado menos_uno) por_base_y_limite refl (omega arith) (omega arith) (omega arith)

hilo_encontrado : buscar_hilo 5 0 (hilo ∷ []) ≡ some hilo
unfolding buscar_hilo
hilo_encontrado = refl

sin_hilo_1 : buscar_hilo 5 1 (hilo ∷ []) ≡ none
unfolding buscar_hilo
sin_hilo_1 = refl

peticion-actualizacion_contexto_example :
    atender_peticion_contexto
      ((atender_actualizacion_contexto (memoria 8) (contexto 1 2)).0)
      5
      0
      (contexto 9 9)
    ≡ some (contexto 1 2)
peticion-actualizacion_contexto_example =
    peticion-actualizacion_contexto (memoria 8) (contexto 1 2) (contexto 9 9) hilo (proceso 8)
      hilo_encontrado (encontrado 8)

peticion-actualizacion_ajena_example :
    atender_peticion_contexto
      ((atender_actualizacion_contexto (memoria 8) (contexto 1 2)).0)
      5
      1
      (contexto 9 9)
    ≡ atender_peticion_contexto (memoria 8) 5 1 (contexto 9 9)
peticion-actualizacion_ajena_example =
    peticion-actualizacion_ajena (memoria 8) (contexto 1 2) (contexto 9 9) 5 1
      (inr (λ e. omega arith))

existe : existe_proceso 5 (proceso 8 ∷ []) ≡ true
unfolding existe_proceso buscar_proceso
existe = refl

abbrev leer : List ℕ → List (List ℕ)
leer archivo = codes "SET AX 1" ∷ codes "THREAD_EXIT" ∷ []

peticion_instruccion-creacion_hilo_example :
    ((atender_creacion_hilo leer (memoria 8) 5 1 (registros 0 0) (codes "f")).1 ≡ ok)
    × (atender_peticion_instruccion
          ((atender_creacion_hilo leer (memoria 8) 5 1 (registros 0 0) (codes "f")).0)
          5
          1
          1
        ≡ some (some (codes "THREAD_EXIT")))
peticion_instruccion-creacion_hilo_example =
    peticion_instruccion-creacion_hilo leer (memoria 8) 5 1 1 (registros 0 0) (codes "f")
      (codes "THREAD_EXIT") existe sin_hilo_1 refl

mmu_lem_example :
    ((3 < 15 - 4) × (mmu (registros 0 0) 3 ≡ 4 + 3) × (mmu (registros 0 0) 3 < 15))
    ⊎ ((15 - 4 ≤ 3) × (mmu (registros 0 0) 3 ≡ menos_uno))
mmu_lem_example = mmu_lem (registros 0 0) 3 (omega arith) (omega arith)

-- AX has an address, BX a value.
abbrev cpu : ℕ → ℕ → Cpu
cpu direccion dato = record {
  un_contexto = contexto direccion dato;
  hay_exit = false;
  tipo_exit = nada;
  interrupt_flag = false;
  al_kernel = [];
}

abbrev escribir : List (List ℕ)
escribir = codes "WRITE_MEM" ∷ codes "AX" ∷ codes "BX" ∷ []

abbrev leer_en_bx : List (List ℕ)
leer_en_bx = codes "READ_MEM" ∷ codes "BX" ∷ codes "AX" ∷ []

es_ax : convertir_registro_a_enum (codes "AX") ≡ some ax
unfolding convertir_registro_a_enum
es_ax = refl

es_bx : convertir_registro_a_enum (codes "BX") ≡ some bx
unfolding convertir_registro_a_enum
es_bx = refl

valor_ax : (a b : ℕ) → leer_registro ax ((avanzar (cpu a b)).un_contexto.r_cpu) ≡ a
unfolding leer_registro
valor_ax a b = refl

valor_bx : (a b : ℕ) → leer_registro bx ((avanzar (cpu a b)).un_contexto.r_cpu) ≡ b
unfolding leer_registro
valor_bx a b = refl

ejecutar_write_mem-total_example :
    (m' : Memoria) × (ejecutar_write_mem escribir (cpu 4 77) (memoria menos_uno)
      ≡ some (avanzar (cpu 4 77), m'))
    × (length m'.espacio_usuario ≡ 20)
    × (atender_lectura m' (4 + leer_registro ax ((avanzar (cpu 4 77)).un_contexto.r_cpu))
        ≡ some (leer_registro bx ((avanzar (cpu 4 77)).un_contexto.r_cpu)))
ejecutar_write_mem-total_example =
    ejecutar_write_mem-total escribir (cpu 4 77) (memoria menos_uno) ax bx (proceso menos_uno) es_ax
      es_bx (encontrado menos_uno) (omega arith) (omega arith) (omega (arith, valor_ax 4 77))
      (omega (arith, valor_ax 4 77)) (omega (arith, valor_bx 4 77))

lee_77 :
    atender_lectura escrita.0 (4 + leer_registro ax ((avanzar (cpu 4 0)).un_contexto.r_cpu))
    ≡ some 77
unfolding leer_registro
lee_77 =
    (atender_lectura-atender_escritura (memoria menos_uno) escrita.0 5 8 77 (omega arith)
      escrita.1).2

ejecutar_read_mem-total_example :
    (ejecutar_read_mem leer_en_bx (cpu 4 0) escrita.0
      ≡ some (
        con_registros
            (avanzar (cpu 4 0))
            (escribir_registro bx 77 ((avanzar (cpu 4 0)).un_contexto.r_cpu)),
        escrita.0,
      ))
    × (leer_registro bx (escribir_registro bx 77 ((avanzar (cpu 4 0)).un_contexto.r_cpu)) ≡ 77)
ejecutar_read_mem-total_example =
    ejecutar_read_mem-total leer_en_bx (cpu 4 0) escrita.0 ax bx 77 es_bx es_ax (omega arith)
      (omega arith) (omega (arith, valor_ax 4 0)) lee_77 (omega arith)

ejecutar_write_mem-rechazo_example :
    (c' : Cpu) × (m' : Memoria) × (ejecutar_write_mem escribir (cpu 11 77) (memoria menos_uno)
      ≡ some (c', m'))
    × (c'.hay_exit ≡ true)
    × (c'.tipo_exit ≡ process)
    × (m'.espacio_usuario ≡ (memoria menos_uno).espacio_usuario)
ejecutar_write_mem-rechazo_example =
    ejecutar_write_mem-rechazo escribir (cpu 11 77) (memoria menos_uno) ax bx hilo hilo_encontrado
      es_ax es_bx (omega arith) (omega arith) (omega (arith, valor_ax 11 77))

-- What WRITE_MEM of 77 to the address 4 of the process leaves.
tras_escribir :
    (m' : Memoria) × (ejecutar_write_mem escribir (cpu 4 77) (memoria menos_uno)
      ≡ some (avanzar (cpu 4 77), m'))
tras_escribir =
    let r =
      ejecutar_write_mem-total escribir (cpu 4 77) (memoria menos_uno) ax bx (proceso menos_uno)
        es_ax es_bx (encontrado menos_uno) (omega arith) (omega arith)
        (omega (arith, valor_ax 4 77)) (omega (arith, valor_ax 4 77))
        (omega (arith, valor_bx 4 77)) in
    (r.0, r.1)

ejecutar_write_mem-ajena_example :
    atender_lectura tras_escribir.0 0 ≡ atender_lectura (memoria menos_uno) 0
ejecutar_write_mem-ajena_example =
    ejecutar_write_mem-ajena escribir (cpu 4 77) (avanzar (cpu 4 77)) (memoria menos_uno)
      tras_escribir.0 0 (omega arith) (omega arith) tras_escribir.1 (inl (omega arith))

-- A process of size 0 at the address 16.
abbrev sin_bytes : RegistrosCpu
sin_bytes = record (registros 0 0) { base = 16; limite = 15 }

mmu-vacio_example : mmu sin_bytes 5 ≡ 21
mmu-vacio_example = mmu-vacio sin_bytes 5 (omega arith) (omega arith) (omega arith)
