-- ===== src/Memoria/EspacioUsuario.antt =====
-- The user memory: memoria/src/espacio_usuario.c, the CPU's requests to read and write it
-- (memoria_cpu.c) and the kernel's request to dump it (memoria_kernel.c, memoria_filesystem.c).
-- `none` is an access outside the allocated block or through NULL.
pub mod Accesos
pub mod Volcado
pub mod Escrituras
use tp_2024_2c_nachi_y_los_o.Comun.{
  ℕ, ◌+◌, ◌*◌, ◌%◌, ◌≡◌, Bool, Option, none, some, List, [], ◌∷◌, ◌++◌, ltb, ◌==◌, if◌then◌else◌,
  ◌>>=◌, length, copiar_en, copiar_de, mod32, sub32, lt_int,
}
use tp_2024_2c_nachi_y_los_o.Utils.Paquete.Bytes.{bytes_int, leer_int}
use tp_2024_2c_nachi_y_los_o.Memoria.Estado.{Proceso, Particion, Memoria}
use tp_2024_2c_nachi_y_los_o.Memoria.Particion.{buscar_particion_por_base_y_limite}
use tp_2024_2c_nachi_y_los_o.Memoria.Proceso.{buscar_proceso}

unfoldable pub escribir_uint32_en_dir_fisica : List ℕ → ℕ → ℕ → Option (List ℕ)
unfolding copiar_en
escribir_uint32_en_dir_fisica espacio dir_fisica valor =
    copiar_en espacio dir_fisica (bytes_int valor)

unfoldable pub leer_uint32_de_dir_fisica : List ℕ → ℕ → Option ℕ
unfolding copiar_de
leer_uint32_de_dir_fisica espacio dir_fisica =
    copiar_de espacio dir_fisica 4 >>= λ valor_leido. some (leer_int valor_leido)

unfoldable pub leer_data_de_dir_fisica : List ℕ → ℕ → ℕ → Option (List ℕ)
unfolding copiar_de
leer_data_de_dir_fisica espacio dir_fisica tamanio = copiar_de espacio dir_fisica tamanio

-- The value that is sent back.
unfoldable pub atender_lectura : Memoria → ℕ → Option ℕ
atender_lectura m dir_fisica = leer_uint32_de_dir_fisica m.espacio_usuario dir_fisica

-- `if(dir_fisica > mayor_direccion_fisica_escrita) …`.
abbrev pub anotar_escritura : ℕ → Proceso → Proceso
anotar_escritura dir_fisica p =
    if lt_int p.mayor_direccion_fisica_escrita dir_fisica
    then record p { mayor_direccion_fisica_escrita = dir_fisica }
    else p

-- The change goes through the pointer to the first process with the pid.
unfoldable pub actualizar_proceso : ℕ → (Proceso → Proceso) → List Proceso → List Proceso
actualizar_proceso pid f [] = []
actualizar_proceso pid f (p ∷ ps) =
    if p.pid == pid then f p ∷ ps else p ∷ actualizar_proceso pid f ps

unfoldable pub atender_escritura : Memoria → ℕ → ℕ → ℕ → Option Memoria
atender_escritura m pid dir_fisica valor_a_escribir = do
  un_proceso ← buscar_proceso pid m.lista_procesos_recibidos
  espacio ← escribir_uint32_en_dir_fisica m.espacio_usuario dir_fisica valor_a_escribir
  some (record m {
    lista_procesos_recibidos =
        actualizar_proceso pid (anotar_escritura dir_fisica) m.lista_procesos_recibidos;
    espacio_usuario = espacio;
  })

-- `(size_t) (mayor - base) + 1`: the difference is an `int`, and is extended with its sign.
abbrev pub tamanio_escrito : ℕ → ℕ → ℕ
tamanio_escrito mayor base =
    let d = sub32 mayor base in
    if ltb d 2147483648 then d + 1 else (d + mod32 * 4294967295 + 1) % (mod32 * mod32)

-- What `enviar_memory_dump_filesystem` sends of a dump, but for the name of the file.
pub record DumpEnviado : Type 0 where
  pub mensaje : List ℕ
  pub tamanio_particion : ℕ
  pub tamanio : ℕ

-- The dump that is sent.
unfoldable pub atender_dump_memory : Memoria → ℕ → Option DumpEnviado
atender_dump_memory m pid = do
  un_proceso ← buscar_proceso pid m.lista_procesos_recibidos
  (i, p) ← buscar_particion_por_base_y_limite un_proceso.base un_proceso.limite m.lista_particiones
  let tamanio = tamanio_escrito un_proceso.mayor_direccion_fisica_escrita p.base
  mensaje ← leer_data_de_dir_fisica m.espacio_usuario p.base tamanio
  some (record { mensaje = mensaje; tamanio_particion = p.tamanio; tamanio = tamanio })
