-- ===== src/Memoria/Atencion.antt =====
-- The requests of the kernel as the memory attends them: `atender_memoria_kernel` of
-- memoria/src/memoria_kernel.c, and the answers of memoria/src/servicios_memoria.c. The answer of the
-- filesystem to a dump is a parameter. `none` is an access through NULL or an operation that is not
-- known, which is not answered.
use tp_2024_2c_nachi_y_los_o.Comun.{
  ℕ, Option, none, some, List, [], ◌∷◌, ◌==◌, if◌then◌else◌, ◌>>=◌, codes,
}
use tp_2024_2c_nachi_y_los_o.Utils.Paquete.{
  Buffer, Paquete, crear_buffer, cargar_string_al_paquete, recibir_int_del_buffer,
  recibir_string_del_buffer,
}
use tp_2024_2c_nachi_y_los_o.Utils.Contexto.{RegistrosCpu}
use tp_2024_2c_nachi_y_los_o.Memoria.Estado.{Memoria}
use tp_2024_2c_nachi_y_los_o.Memoria.Particion.{Commons}
use tp_2024_2c_nachi_y_los_o.Memoria.Proceso.{
  Respuesta, ok, error, atender_creacion_proceso, atender_finalizacion_proceso,
}
use tp_2024_2c_nachi_y_los_o.Memoria.Hilo.{atender_creacion_hilo, atender_finalizacion_hilo}
use tp_2024_2c_nachi_y_los_o.Memoria.EspacioUsuario.{DumpEnviado, atender_dump_memory}

abbrev pub texto_respuesta : Respuesta → List ℕ
texto_respuesta ok = codes "OK"
texto_respuesta error = codes "ERROR"

-- `responder_OK` and `responder_ERROR`.
unfoldable pub responder : ℕ → Respuesta → Paquete
responder codigo r = record {
  codigo_operacion = codigo;
  buffer = cargar_string_al_paquete crear_buffer (texto_respuesta r);
}

-- What surrounds the memory: the libraries, the files with instructions, what `malloc` leaves in
-- the registers, and the filesystem.
pub record Contorno : Type 0 where
  pub commons : Commons
  pub leer_archivo : List ℕ → List (List ℕ)
  pub basura : RegistrosCpu
  pub filesystem : DumpEnviado → Respuesta

-- A string ends at its first NUL.
abbrev pub hasta_nul : List ℕ → List ℕ
hasta_nul [] = []
hasta_nul (c ∷ cs) = if c == 0 then [] else c ∷ hasta_nul cs

abbrev pub respondido : ℕ → Memoria × Respuesta → Option (Memoria × Paquete)
respondido codigo (m, r) = some (m, responder codigo r)

module _ (con : Contorno) where
  unfoldable pub atender_peticion_proceso : Memoria → Buffer → Option (Memoria × Paquete)
  unfolding responder
  atender_peticion_proceso m b₀ = do
    (pid, b₁) ← recibir_int_del_buffer b₀
    (tamanio, b₂) ← recibir_int_del_buffer b₁
    respondido 21 (atender_creacion_proceso m pid tamanio)

  unfoldable pub atender_peticion_hilo : Memoria → Buffer → Option (Memoria × Paquete)
  unfolding responder
  atender_peticion_hilo m b₀ = do
    (pid, b₁) ← recibir_int_del_buffer b₀
    (tid, b₂) ← recibir_int_del_buffer b₁
    (archivo, b₃) ← recibir_string_del_buffer b₂
    respondido 22 (atender_creacion_hilo con.leer_archivo m pid tid con.basura (hasta_nul archivo))

  unfoldable pub atender_fin_hilo : Memoria → Buffer → Option (Memoria × Paquete)
  unfolding responder
  atender_fin_hilo m b₀ = do
    (pid, b₁) ← recibir_int_del_buffer b₀
    (tid, b₂) ← recibir_int_del_buffer b₁
    respondido 23 (atender_finalizacion_hilo m pid tid)

  unfoldable pub atender_fin_proceso : Memoria → Buffer → Option (Memoria × Paquete)
  unfolding responder
  atender_fin_proceso m b₀ = do
    (pid, b₁) ← recibir_int_del_buffer b₀
    r ← atender_finalizacion_proceso con.commons m pid
    respondido 24 r

  unfoldable pub atender_peticion_dump : Memoria → Buffer → Option (Memoria × Paquete)
  unfolding responder
  atender_peticion_dump m b₀ = do
    (pid, b₁) ← recibir_int_del_buffer b₀
    (tid, b₂) ← recibir_int_del_buffer b₁
    enviado ← atender_dump_memory m pid
    respondido 25 (m, con.filesystem enviado)

  -- The labels of the switch are those of `op_code`.
  unfoldable pub atender_memoria_kernel : Memoria → Paquete → Option (Memoria × Paquete)
  unfolding atender_peticion_proceso atender_peticion_hilo atender_fin_hilo atender_fin_proceso
      atender_peticion_dump
  atender_memoria_kernel m p =
      if p.codigo_operacion == 21
      then atender_peticion_proceso m p.buffer
      else if p.codigo_operacion == 22
      then atender_peticion_hilo m p.buffer
      else if p.codigo_operacion == 23
      then atender_fin_hilo m p.buffer
      else if p.codigo_operacion == 24
      then atender_fin_proceso m p.buffer
      else if p.codigo_operacion == 25
      then atender_peticion_dump m p.buffer
      else none
