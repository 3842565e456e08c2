-- ===== src/Ejemplos/Mensajes.antt =====
-- Messages and instruction names at concrete inputs.
use tp_2024_2c_nachi_y_los_o.Comun.{◌≡◌, refl, ◌≢◌, ◌⊎◌, true, some, [], ◌∷◌, ◌++◌, arith, codes}
use tp_2024_2c_nachi_y_los_o.Utils.Instrucciones.{
  jnz, dump_memory, process_exit, convertir_instruccion_a_enum, convertir_enum_a_instruccion_string,
  validador_de_header, validar_desde, es_dump_memory,
}
use tp_2024_2c_nachi_y_los_o.Utils.Instrucciones.Nombres.{
  Empieza, convertir_instruccion-enum, convertir_instruccion_prefijo,
}
use tp_2024_2c_nachi_y_los_o.Utils.Instrucciones.Validacion.{validador_de_header_lem}
use tp_2024_2c_nachi_y_los_o.Utils.Paquete.{crear_buffer, cargar_string_al_paquete}
use tp_2024_2c_nachi_y_los_o.Utils.Paquete.IdaYVuelta.{con}
use tp_2024_2c_nachi_y_los_o.Utils.Paquete.Envio.{
  enviar_paquete, recibir_operacion, recibir_buffer, recibir-enviar,
}
use tp_2024_2c_nachi_y_los_o.Utils.Contexto.{Contexto, cargar_contexto_al_paquete}
use tp_2024_2c_nachi_y_los_o.Utils.Contexto.IdaYVuelta.{
  EsDe32Bits, recibir_texto_y_contexto, recibir_contexto-cargar,
}

convertir_instruccion-enum_example :
    convertir_instruccion_a_enum (convertir_enum_a_instruccion_string jnz ++ codes "X") ≡ jnz
convertir_instruccion-enum_example = convertir_instruccion-enum jnz (codes "X")

no_es_ultima : convertir_instruccion_a_enum (codes "JNZX") ≢ process_exit
unfolding convertir_enum_a_instruccion_string
no_es_ultima = λ e.
    let k : convertir_instruccion_a_enum (codes "JNZX") ≡ jnz =
      convertir_instruccion-enum jnz (codes "X") in
    cc

convertir_instruccion_prefijo_example :
    Empieza
      (codes "JNZX")
      (convertir_enum_a_instruccion_string (convertir_instruccion_a_enum (codes "JNZX")))
convertir_instruccion_prefijo_example = convertir_instruccion_prefijo (codes "JNZX") no_es_ultima

valido : validador_de_header (codes "DUMP_MEMORYX") ≡ true
unfolding validador_de_header validar_desde es_dump_memory
valido = refl

validador_de_header_lem_example :
    (codes "DUMP_MEMORYX"
      ≡ convertir_enum_a_instruccion_string (convertir_instruccion_a_enum (codes "DUMP_MEMORYX")))
    ⊎ (Empieza (codes "DUMP_MEMORYX") (convertir_enum_a_instruccion_string dump_memory)
        × (convertir_instruccion_a_enum (codes "DUMP_MEMORYX") ≡ dump_memory))
validador_de_header_lem_example = validador_de_header_lem (codes "DUMP_MEMORYX") valido

abbrev contexto : Contexto
contexto = record {
  pid = 0;
  tid = 1;
  verificador = 7;
  maximo_pc = 9;
  r_cpu = record {
    pc = 1;
    ax = 2;
    bx = 0;
    cx = 0;
    dx = 0;
    ex = 0;
    fx = 0;
    gx = 0;
    hx = 0;
    base = 0;
    limite = 63;
  };
}

contexto-EsDe32Bits : EsDe32Bits contexto
contexto-EsDe32Bits = omega arith

recibir_contexto-cargar_example :
    recibir_texto_y_contexto
      (cargar_contexto_al_paquete (cargar_string_al_paquete crear_buffer (codes "OK")) contexto)
      contexto
    ≡ some (codes "OK" ++ 0 ∷ [], contexto, crear_buffer)
recibir_contexto-cargar_example =
    recibir_contexto-cargar (codes "OK") contexto contexto contexto-EsDe32Bits (omega arith)

recibir-enviar_example :
    let enviado =
      enviar_paquete [] (record { codigo_operacion = 3; buffer = con (1 ∷ 2 ∷ []) }) ++ (9 ∷ []) in
    ((recibir_operacion enviado).0 ≡ 3)
    × (recibir_buffer (recibir_operacion enviado).1 ≡ some (con (1 ∷ 2 ∷ []), 9 ∷ []))
recibir-enviar_example =
    recibir-enviar 3 (1 ∷ 2 ∷ []) (9 ∷ []) (omega arith) (omega arith) (omega arith)
