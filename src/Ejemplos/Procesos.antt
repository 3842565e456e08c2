-- ===== src/Ejemplos/Procesos.antt =====
-- The partitions, and the processes in them, at concrete inputs.
use tp_2024_2c_nachi_y_los_o.Comun.{
  ℕ, ◌<◌, ◌≡◌, refl, ◌⊎◌, true, false, none, some, List, [], ◌∷◌, arith, All, menos_uno,
}
use mathlib.Core.List.{Perm}
use tp_2024_2c_nachi_y_los_o.Memoria.Estado.{best, fijas, dinamicas, Proceso, Particion, Memoria}
use tp_2024_2c_nachi_y_los_o.Memoria.Particion.{
  apta, buscar_particion_por_id, obtener_particion_a_asignar, iniciar_particiones,
  unificar_particiones_libres_contiguas,
}
use tp_2024_2c_nachi_y_los_o.Memoria.Particion.Busqueda.{
  Elegida, obtener_particion_a_asignar-Elegida,
}
use tp_2024_2c_nachi_y_los_o.Memoria.Particion.Cobertura.{EsMosaico, cubre, contiene, cubre_libre}
use tp_2024_2c_nachi_y_los_o.Memoria.Particion.Rondas.{Creciente, SinVecinas}
use tp_2024_2c_nachi_y_los_o.Memoria.Particion.Union.{
  unificar-EsMosaico, suma, iniciar_particiones-EsMosaico,
}
use tp_2024_2c_nachi_y_los_o.Memoria.Proceso.{
  ok, error, atender_creacion_proceso, atender_finalizacion_proceso, buscar_proceso,
}
use tp_2024_2c_nachi_y_los_o.Memoria.Proceso.Pedidos.{
  Creado, atender_creacion_proceso-EsMosaico, atender_creacion_proceso-Creado,
}
use tp_2024_2c_nachi_y_los_o.Memoria.Proceso.Finalizacion.{
  EsFinalizado, atender_finalizacion_proceso-EsMosaico, atender_finalizacion_proceso-nulo,
}
use tp_2024_2c_nachi_y_los_o.Ejemplos.Bibliotecas.{commons}

-- A memory of 64 bytes with two partitions: process 5 has the first, the other is free.
abbrev ocupada_por_5 : Particion
ocupada_por_5 = record {
  tamanio = 16;
  particion_id = 0;
  esta_ocupada = true;
  base = 0;
  limite = 15;
  proceso_en_particion = some 5;
}

abbrev libre : Particion
libre = record {
  tamanio = 48;
  particion_id = 1;
  esta_ocupada = false;
  base = 16;
  limite = 63;
  proceso_en_particion = none;
}

abbrev proceso_5 : Proceso
proceso_5 = record {
  pid = 5;
  base = 0;
  limite = 15;
  particion_asignada_id = 0;
  mayor_direccion_fisica_escrita = menos_uno;
}

abbrev memoria : Memoria
memoria = record {
  esquema = dinamicas;
  algoritmo_busqueda = best;
  tam_memoria = 64;
  particion_id = 2;
  lista_particiones = ocupada_por_5 ∷ libre ∷ [];
  lista_procesos_recibidos = proceso_5 ∷ [];
  list_hilos_recibidos = [];
  espacio_usuario = [];
}

memoria-EsMosaico : EsMosaico 64 (ocupada_por_5 ∷ libre ∷ [])
unfolding cubre contiene
memoria-EsMosaico = record {
  cubre_una = λ a. ground arith;
  buenas = (omega arith, (omega arith, tt));
}

atender_creacion_proceso-EsMosaico_example :
    EsMosaico 64 (atender_creacion_proceso memoria 6 8).0.lista_particiones
atender_creacion_proceso-EsMosaico_example =
    atender_creacion_proceso-EsMosaico memoria 6 8 (omega arith) (omega arith) memoria-EsMosaico

atender_creacion_proceso-Creado_example :
    (All (λ q. apta 8 q ≡ false) (ocupada_por_5 ∷ libre ∷ [])
      × (atender_creacion_proceso memoria 6 8 ≡ (memoria, error)))
    ⊎ (((atender_creacion_proceso memoria 6 8).1 ≡ ok)
        × Creado memoria (atender_creacion_proceso memoria 6 8).0 6 8)
atender_creacion_proceso-Creado_example =
    atender_creacion_proceso-Creado memoria 6 8 (omega arith) (omega arith) memoria-EsMosaico

buscado : buscar_proceso 5 (proceso_5 ∷ []) ≡ some proceso_5
unfolding buscar_proceso
buscado = refl

su_particion : buscar_particion_por_id 0 (ocupada_por_5 ∷ libre ∷ []) ≡ some (0, ocupada_por_5)
unfolding buscar_particion_por_id
su_particion = refl

atender_finalizacion_proceso-EsMosaico_example :
    (m' : Memoria) × (atender_finalizacion_proceso commons memoria 5 ≡ some (m', ok))
    × EsFinalizado memoria m' 5 proceso_5 ocupada_por_5
atender_finalizacion_proceso-EsMosaico_example =
    atender_finalizacion_proceso-EsMosaico commons memoria 5 0 proceso_5 ocupada_por_5 (omega arith)
      memoria-EsMosaico buscado su_particion

atender_finalizacion_proceso-nulo_example :
    ((m' : Memoria) × (atender_finalizacion_proceso commons memoria 9 ≡ some (m', ok)))
    ⊎ ((atender_finalizacion_proceso commons memoria 9 ≡ none)
        × ((buscar_proceso 9 (proceso_5 ∷ []) ≡ none)
            ⊎ ((proceso : Proceso) × (buscar_proceso 9 (proceso_5 ∷ []) ≡ some proceso)
                × (buscar_particion_por_id proceso.particion_asignada_id
                      (ocupada_por_5 ∷ libre ∷ [])
                    ≡ none))))
atender_finalizacion_proceso-nulo_example =
    atender_finalizacion_proceso-nulo commons memoria 9 (omega arith) memoria-EsMosaico

unificar-EsMosaico_example :
    (qs : List Particion) × (rs : List Particion) × (unificar_particiones_libres_contiguas commons
        (ocupada_por_5 ∷ libre ∷ [])
      ≡ some qs)
    × EsMosaico 64 qs
    × ((a : ℕ) → cubre_libre a qs ≡ cubre_libre a (ocupada_por_5 ∷ libre ∷ []))
    × Perm qs rs
    × Creciente rs
    × SinVecinas rs
unificar-EsMosaico_example =
    unificar-EsMosaico commons 64 (ocupada_por_5 ∷ libre ∷ []) (omega arith) memoria-EsMosaico

obtener_particion_a_asignar-Elegida_example :
    Elegida best 8
      (ocupada_por_5 ∷ libre ∷ [])
      (obtener_particion_a_asignar best 8 (ocupada_por_5 ∷ libre ∷ []))
obtener_particion_a_asignar-Elegida_example =
    obtener_particion_a_asignar-Elegida best 8 (ocupada_por_5 ∷ libre ∷ [])

suma_chica : suma (16 ∷ 48 ∷ []) < 2147483648
unfolding suma
suma_chica = omega arith

iniciar_particiones-EsMosaico_example :
    EsMosaico (suma (16 ∷ 48 ∷ [])) (iniciar_particiones fijas 0 (16 ∷ 48 ∷ []))
iniciar_particiones-EsMosaico_example =
    iniciar_particiones-EsMosaico fijas 0 (16 ∷ 48 ∷ []) suma_chica
