-- ===== src/Memoria/EspacioUsuario/Volcado.antt =====
-- The dump of a process (memoria/src/memoria_kernel.c).
use tp_2024_2c_nachi_y_los_o.Comun.{
  ℕ, ◌+◌, ◌-◌, ◌*◌, ◌≤◌, ◌<◌, ◌≡◌, refl, true, false, none, some, arith, ltb, ◌>>=◌, length, take,
  drop, mod32, menos_uno, sub32, copiar_de,
}
use tp_2024_2c_nachi_y_los_o.Memoria.Estado.{Proceso, Particion, Memoria}
use tp_2024_2c_nachi_y_los_o.Memoria.Particion.{buscar_particion_por_base_y_limite}
use tp_2024_2c_nachi_y_los_o.Memoria.Proceso.{buscar_proceso}
use tp_2024_2c_nachi_y_los_o.Memoria.EspacioUsuario.{
  leer_data_de_dir_fisica, tamanio_escrito, atender_dump_memory,
}

tamanio_escrito-positivo :
    (mayor base : ℕ)
    → base ≤ mayor
    → mayor < 2147483648
    → tamanio_escrito mayor base ≡ mayor - base + 1
tamanio_escrito-positivo mayor base h k =
    let d : sub32 mayor base ≡ mayor - base = omega arith in
    let t : ltb (sub32 mayor base) 2147483648 ≡ true = ground arith in rw (t, d) refl

tamanio_escrito-nada :
    (base : ℕ)
    → 0 < base
    → base < 2147483648
    → tamanio_escrito menos_uno base ≡ mod32 * mod32 - base
tamanio_escrito-nada base h k =
    let d : sub32 menos_uno base ≡ menos_uno - base = omega arith in
    let t : ltb (sub32 menos_uno base) 2147483648 ≡ false = ground arith in rw (t, d) (omega arith)

dump-pasos :
    (m : Memoria) (pid i : ℕ) (proceso : Proceso) (p : Particion)
    → buscar_proceso pid m.lista_procesos_recibidos ≡ some proceso
    → buscar_particion_por_base_y_limite proceso.base proceso.limite m.lista_particiones
      ≡ some (i, p)
    → atender_dump_memory m pid ≡ (
        leer_data_de_dir_fisica m.espacio_usuario p.base
          (tamanio_escrito proceso.mayor_direccion_fisica_escrita p.base)
        >>= λ mensaje. some (record {
          mensaje = mensaje;
          tamanio_particion = p.tamanio;
          tamanio = tamanio_escrito proceso.mayor_direccion_fisica_escrita p.base;
        }))
unfolding atender_dump_memory
dump-pasos m pid i proceso p e k = simp (e, k)

-- The dump of a process that has written is the block of bytes from its base to the highest address
-- of its writes, that address included, with the size of its partition: where the addresses are
-- below 2 ^ 31 and inside the user memory.
pub atender_dump_memory-bytes :
    (m : Memoria) (pid i : ℕ) (proceso : Proceso) (p : Particion)
    → buscar_proceso pid m.lista_procesos_recibidos ≡ some proceso
    → buscar_particion_por_base_y_limite proceso.base proceso.limite m.lista_particiones
      ≡ some (i, p)
    → p.base ≤ proceso.mayor_direccion_fisica_escrita
    → proceso.mayor_direccion_fisica_escrita < 2147483648
    → proceso.mayor_direccion_fisica_escrita < length m.espacio_usuario
    → atender_dump_memory m pid
      ≡ some (record {
        mensaje =
            take
              (proceso.mayor_direccion_fisica_escrita - p.base + 1)
              (drop p.base m.espacio_usuario);
        tamanio_particion = p.tamanio;
        tamanio = proceso.mayor_direccion_fisica_escrita - p.base + 1;
      })
unfolding leer_data_de_dir_fisica copiar_de
atender_dump_memory-bytes m pid i proceso p e k h l c =
    let mayor = proceso.mayor_direccion_fisica_escrita in
    let t : ltb (length m.espacio_usuario) (p.base + (mayor - p.base + 1)) ≡ false = ground arith in
    rw (dump-pasos m pid i proceso p e k, tamanio_escrito-positivo mayor p.base h l, t) refl

-- The dump of a process that has not written yet, whose base is not 0, reads outside the user
-- memory: its size wraps to 2 ^ 64 less the base.
pub atender_dump_memory-sin_escrituras :
    (m : Memoria) (pid i : ℕ) (proceso : Proceso) (p : Particion)
    → buscar_proceso pid m.lista_procesos_recibidos ≡ some proceso
    → buscar_particion_por_base_y_limite proceso.base proceso.limite m.lista_particiones
      ≡ some (i, p)
    → proceso.mayor_direccion_fisica_escrita ≡ menos_uno
    → 0 < p.base
    → p.base < 2147483648
    → length m.espacio_usuario < mod32
    → atender_dump_memory m pid ≡ none
unfolding leer_data_de_dir_fisica copiar_de
atender_dump_memory-sin_escrituras m pid i proceso p e k h l b c =
    let t : ltb (length m.espacio_usuario) (p.base + (mod32 * mod32 - p.base)) ≡ true =
      ground arith in
    rw (dump-pasos m pid i proceso p e k, h, tamanio_escrito-nada p.base l b, t) refl
