-- ===== src/Utils/Contexto.antt =====
-- The execution context and the parameters of a system call on the wire: `t_registrosCPU`,
-- `t_contexto`, `t_mochila` and their functions in utils/src/shared.c.
pub mod IdaYVuelta
pub mod Parametros
use tp_2024_2c_nachi_y_los_o.Comun.{
  ℕ, zero, suc, ◌≡◌, Option, none, some, List, [], ◌∷◌, ◌++◌, ltb, ◌==◌, if◌then◌else◌, ◌>>=◌,
}
use tp_2024_2c_nachi_y_los_o.Utils.Paquete.{
  Buffer, cargar_int_al_paquete, cargar_uint32_al_paquete, cargar_string_al_paquete,
  cargar_size_t_al_paquete, recibir_int_del_buffer, recibir_uint32_del_buffer,
  recibir_string_del_buffer, recibir_size_t_del_buffer,
}

-- `t_registrosCPU`.
pub record RegistrosCpu : Type 0 where
  pub pc : ℕ
  pub ax : ℕ
  pub bx : ℕ
  pub cx : ℕ
  pub dx : ℕ
  pub ex : ℕ
  pub fx : ℕ
  pub gx : ℕ
  pub hx : ℕ
  pub base : ℕ
  pub limite : ℕ

-- `t_contexto`.
pub record Contexto : Type 0 where
  pub pid : ℕ
  pub tid : ℕ
  pub verificador : ℕ
  pub maximo_pc : ℕ
  pub r_cpu : RegistrosCpu

unfoldable pub cargar_registros_al_paquete : Buffer → RegistrosCpu → Buffer
cargar_registros_al_paquete b₀ r =
    let b₁ = cargar_uint32_al_paquete b₀ r.pc in
    let b₂ = cargar_uint32_al_paquete b₁ r.ax in
    let b₃ = cargar_uint32_al_paquete b₂ r.bx in
    let b₄ = cargar_uint32_al_paquete b₃ r.cx in
    let b₅ = cargar_uint32_al_paquete b₄ r.dx in
    let b₆ = cargar_uint32_al_paquete b₅ r.ex in
    let b₇ = cargar_uint32_al_paquete b₆ r.fx in
    let b₈ = cargar_uint32_al_paquete b₇ r.gx in cargar_uint32_al_paquete b₈ r.hx

unfoldable pub cargar_contexto_al_paquete : Buffer → Contexto → Buffer
unfolding cargar_registros_al_paquete
cargar_contexto_al_paquete b₀ c =
    let b₁ = cargar_int_al_paquete b₀ c.pid in
    let b₂ = cargar_int_al_paquete b₁ c.tid in
    let b₃ = cargar_int_al_paquete b₂ c.maximo_pc in
    let b₄ = cargar_uint32_al_paquete b₃ c.r_cpu.base in
    let b₅ = cargar_uint32_al_paquete b₄ c.r_cpu.limite in cargar_registros_al_paquete b₅ c.r_cpu

-- The registers of a thread copied into a context: `base` and `limite` stay.
unfoldable pub cargar_registros_al_contexto : Contexto → RegistrosCpu → Contexto
cargar_registros_al_contexto c r = record c {
  r_cpu = record (c.r_cpu) {
    pc = r.pc;
    ax = r.ax;
    bx = r.bx;
    cx = r.cx;
    dx = r.dx;
    ex = r.ex;
    fx = r.fx;
    gx = r.gx;
    hx = r.hx;
  };
}

-- The context that is filled is an argument, as in the source.
unfoldable pub recibir_registros : Buffer → Contexto → Option (Contexto × Buffer)
recibir_registros b₀ c = do
  (v₀, b₁) ← recibir_uint32_del_buffer b₀
  (v₁, b₂) ← recibir_uint32_del_buffer b₁
  (v₂, b₃) ← recibir_uint32_del_buffer b₂
  (v₃, b₄) ← recibir_uint32_del_buffer b₃
  (v₄, b₅) ← recibir_uint32_del_buffer b₄
  (v₅, b₆) ← recibir_uint32_del_buffer b₅
  (v₆, b₇) ← recibir_uint32_del_buffer b₆
  (v₇, b₈) ← recibir_uint32_del_buffer b₇
  (v₈, b₉) ← recibir_uint32_del_buffer b₈
  some (
    record c {
      r_cpu = record (c.r_cpu) {
        pc = v₀;
        ax = v₁;
        bx = v₂;
        cx = v₃;
        dx = v₄;
        ex = v₅;
        fx = v₆;
        gx = v₇;
        hx = v₈;
      };
    },
    b₉,
  )

unfoldable pub recibir_contexto : Buffer → Contexto → Option (Contexto × Buffer)
unfolding recibir_registros
recibir_contexto b₀ c = do
  (v₀, b₁) ← recibir_int_del_buffer b₀
  (v₁, b₂) ← recibir_int_del_buffer b₁
  (v₂, b₃) ← recibir_int_del_buffer b₂
  (v₃, b₄) ← recibir_uint32_del_buffer b₃
  (v₄, b₅) ← recibir_uint32_del_buffer b₄
  recibir_registros b₅ (record c {
    pid = v₀;
    tid = v₁;
    maximo_pc = v₂;
    r_cpu = record (c.r_cpu) { base = v₃; limite = v₄ };
  })

-- What `queue_push` puts into `parametros`, by its type.
pub data Parametro : Type 0 where
  t_int t_size_t t_uint32 : ℕ → Parametro
  t_string : List ℕ → Parametro

-- A parameter as the CPU loads it: its type, then its value.
unfoldable pub cargar_parametro : Buffer → Parametro → Buffer
cargar_parametro b (t_int v) = cargar_int_al_paquete (cargar_int_al_paquete b 0) v
cargar_parametro b (t_string s) = cargar_string_al_paquete (cargar_int_al_paquete b 1) s
cargar_parametro b (t_size_t v) = cargar_size_t_al_paquete (cargar_int_al_paquete b 2) v
cargar_parametro b (t_uint32 v) = cargar_uint32_al_paquete (cargar_int_al_paquete b 3) v

-- A system call as the CPU loads it: the instruction, the number of parameters, the parameters.
unfoldable pub cargar_parametros : Buffer → List Parametro → Buffer
cargar_parametros b [] = b
cargar_parametros b (p ∷ ps) = cargar_parametros (cargar_parametro b p) ps

-- `t_mochila`. A queue is the list of its elements, first in first.
pub record Mochila : Type 0 where
  pub instruccion_asociada : ℕ
  pub cantidad_parametros_inicial : ℕ
  pub parametros : List Parametro

-- The body of the loop: T_INT is 0, T_STRING 1, T_SIZE_T 2 and T_UINT32 3. Another type is skipped.
unfoldable pub recibir_parametro : Buffer → Option (List Parametro × Buffer)
recibir_parametro b₀ = do
  (tipo, b₁) ← recibir_int_del_buffer b₀
  if tipo == 0
      then (recibir_int_del_buffer b₁ >>= λ (v, b₂). some (t_int v ∷ [], b₂))
      else if tipo == 1
      then (recibir_string_del_buffer b₁ >>= λ (v, b₂). some (t_string v ∷ [], b₂))
      else if tipo == 2
      then (recibir_size_t_del_buffer b₁ >>= λ (v, b₂). some (t_size_t v ∷ [], b₂))
      else if tipo == 3
      then (recibir_uint32_del_buffer b₁ >>= λ (v, b₂). some (t_uint32 v ∷ [], b₂))
      else some ([], b₁)

-- The loop, by the rounds that are left.
unfoldable pub recibir_parametros : ℕ → Buffer → Option (List Parametro × Buffer)
recibir_parametros zero b = some ([], b)
recibir_parametros (suc n) b = do
  (p, b') ← recibir_parametro b
  (ps, b'') ← recibir_parametros n b'
  some (p ++ ps, b'')

-- A negative count makes no round.
unfoldable pub recibir_mochila : Buffer → Option (Mochila × Buffer)
unfolding recibir_parametros recibir_parametro
recibir_mochila b₀ = do
  (instruccion, b₁) ← recibir_int_del_buffer b₀
  (cantidad, b₂) ← recibir_int_del_buffer b₁
  (ps, b₃) ← recibir_parametros (if ltb cantidad 2147483648 then cantidad else 0) b₂
  some (
    record {
      instruccion_asociada = instruccion;
      cantidad_parametros_inicial = cantidad;
      parametros = ps;
    },
    b₃,
  )
