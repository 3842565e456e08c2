-- ===== src/Utils/Contexto/IdaYVuelta.antt =====
-- A context and the parameters of a system call survive the trip through a buffer
-- (utils/src/shared.c).
use tp_2024_2c_nachi_y_los_o.Comun.{
  ℕ, ◌<◌, ◌≡◌, Option, some, List, [], ◌∷◌, ◌++◌, arith, ◌>>=◌, length, length-append, mod32,
}
use mathlib.Core.List.{append-nil, append_assoc}
use tp_2024_2c_nachi_y_los_o.Utils.Paquete.Bytes.{bytes_int}
use tp_2024_2c_nachi_y_los_o.Utils.Paquete.{
  Buffer, crear_buffer, cargar_string_al_paquete, recibir_string_del_buffer,
}
use tp_2024_2c_nachi_y_los_o.Utils.Paquete.IdaYVuelta.{
  con, crear_buffer-con, bytes_generico, cargar_int-con, cargar_uint32-con, cargar_string-con,
  recibir_int-con, recibir_uint32-con, recibir_string-con,
}
use tp_2024_2c_nachi_y_los_o.Utils.Contexto.{
  RegistrosCpu, Contexto, cargar_registros_al_contexto, cargar_contexto_al_paquete,
  recibir_registros, recibir_contexto,
}

abbrev u32 : ℕ → List ℕ
u32 n = bytes_generico (bytes_int n)

-- The bytes of the registers and of a context, in front of others.
abbrev bytes_registros : RegistrosCpu → List ℕ → List ℕ
bytes_registros r resto =
    u32 r.pc
    ++ (u32 r.ax
        ++ (u32 r.bx
            ++ (u32 r.cx
                ++ (u32 r.dx ++ (u32 r.ex ++ (u32 r.fx ++ (u32 r.gx ++ (u32 r.hx ++ resto))))))))

abbrev pub bytes_contexto : Contexto → List ℕ → List ℕ
bytes_contexto c resto =
    bytes_int c.pid
    ++ (bytes_int c.tid
        ++ (bytes_int c.maximo_pc
            ++ (u32 c.r_cpu.base ++ (u32 c.r_cpu.limite ++ bytes_registros c.r_cpu resto))))

-- Every field of a context fits its C type.
pub record EsDe32Bits (c : Contexto) : Type 0 where
  pub pid : c.pid < mod32
  pub tid : c.tid < mod32
  pub maximo_pc : c.maximo_pc < mod32
  pub base : c.r_cpu.base < mod32
  pub limite : c.r_cpu.limite < mod32
  pub pc : c.r_cpu.pc < mod32
  pub ax : c.r_cpu.ax < mod32
  pub bx : c.r_cpu.bx < mod32
  pub cx : c.r_cpu.cx < mod32
  pub dx : c.r_cpu.dx < mod32
  pub ex : c.r_cpu.ex < mod32
  pub fx : c.r_cpu.fx < mod32
  pub gx : c.r_cpu.gx < mod32
  pub hx : c.r_cpu.hx < mod32

cargar_contexto-con :
    (xs : List ℕ) (c : Contexto)
    → cargar_contexto_al_paquete (con xs) c ≡ con (xs ++ bytes_contexto c [])
unfolding cargar_contexto_al_paquete
cargar_contexto-con xs c = simp (cargar_int-con, cargar_uint32-con, append_assoc, append-nil)

recibir_registros-con :
    (c d : Contexto) (resto : List ℕ)
    → EsDe32Bits c
    → recibir_registros (con (bytes_registros c.r_cpu resto)) d
      ≡ some (cargar_registros_al_contexto d c.r_cpu, con resto)
unfolding recibir_registros cargar_registros_al_contexto
recibir_registros-con c d resto h = simp (
  recibir_uint32-con c.r_cpu.pc _ h.pc,
  recibir_uint32-con c.r_cpu.ax _ h.ax,
  recibir_uint32-con c.r_cpu.bx _ h.bx,
  recibir_uint32-con c.r_cpu.cx _ h.cx,
  recibir_uint32-con c.r_cpu.dx _ h.dx,
  recibir_uint32-con c.r_cpu.ex _ h.ex,
  recibir_uint32-con c.r_cpu.fx _ h.fx,
  recibir_uint32-con c.r_cpu.gx _ h.gx,
  recibir_uint32-con c.r_cpu.hx _ h.hx,
)

recibir_contexto-con :
    (c d : Contexto) (resto : List ℕ)
    → EsDe32Bits c
    → recibir_contexto (con (bytes_contexto c resto)) d
      ≡ some (record c { verificador = d.verificador }, con resto)
unfolding recibir_contexto cargar_registros_al_contexto
recibir_contexto-con c d resto h = simp (
  recibir_int-con c.pid _ h.pid,
  recibir_int-con c.tid _ h.tid,
  recibir_int-con c.maximo_pc _ h.maximo_pc,
  recibir_uint32-con c.r_cpu.base _ h.base,
  recibir_uint32-con c.r_cpu.limite _ h.limite,
  recibir_registros-con c _ resto h,
)

-- A text, then a context into `d`.
abbrev pub recibir_texto_y_contexto : Buffer → Contexto → Option (List ℕ × Contexto × Buffer)
recibir_texto_y_contexto b d = do
  (t, b') ← recibir_string_del_buffer b
  (e, b'') ← recibir_contexto b' d
  some (t, e, b'')

-- A context loaded into a fresh packet behind a text arrives: the receiver gets the text, with its
-- NUL, and then a context that agrees with the one loaded in every field but `verificador`, which
-- is not sent, and nothing is left over. The fields fit their C types, and the text an `int`.
pub recibir_contexto-cargar :
    (s : List ℕ) (c d : Contexto)
    → EsDe32Bits c
    → length s < 2147483647
    → recibir_texto_y_contexto
        (cargar_contexto_al_paquete (cargar_string_al_paquete crear_buffer s) c)
        d
      ≡ some (s ++ 0 ∷ [], record c { verificador = d.verificador }, crear_buffer)
recibir_contexto-cargar s c d h l = simp (
  crear_buffer-con,
  cargar_string-con,
  cargar_contexto-con,
  recibir_string-con (s ++ 0 ∷ []) (bytes_contexto c []) (omega (arith, length-append s (0 ∷ []))),
  recibir_contexto-con c d [] h,
)
