-- ===== src/Cpu/Registros.antt =====
-- The registers of the running thread: `detectar_registro` of cpu/src/cpu_kernel_dispatch.c and the
-- register helpers of cpu/src/servicios_cpu.c. A pointer to a register is the register's name.
use tp_2024_2c_nachi_y_los_o.Comun.{ℕ, ◌≡◌, refl}
use tp_2024_2c_nachi_y_los_o.Utils.Instrucciones.{Registro, ax, bx, cx, dx, ex, fx, gx, hx, pc}
use tp_2024_2c_nachi_y_los_o.Utils.Contexto.{RegistrosCpu}

-- `*detectar_registro(registro)`, read.
unfoldable pub leer_registro : Registro → RegistrosCpu → ℕ
leer_registro ax r = r.ax
leer_registro bx r = r.bx
leer_registro cx r = r.cx
leer_registro dx r = r.dx
leer_registro ex r = r.ex
leer_registro fx r = r.fx
leer_registro gx r = r.gx
leer_registro hx r = r.hx
leer_registro pc r = r.pc

-- `*detectar_registro(registro) = valor`.
unfoldable pub escribir_registro : Registro → ℕ → RegistrosCpu → RegistrosCpu
escribir_registro ax v r = record r { ax = v }
escribir_registro bx v r = record r { bx = v }
escribir_registro cx v r = record r { cx = v }
escribir_registro dx v r = record r { dx = v }
escribir_registro ex v r = record r { ex = v }
escribir_registro fx v r = record r { fx = v }
escribir_registro gx v r = record r { gx = v }
escribir_registro hx v r = record r { hx = v }
escribir_registro pc v r = record r { pc = v }

pub leer-escribir :
    (x : Registro) (v : ℕ) (r : RegistrosCpu) → leer_registro x (escribir_registro x v r) ≡ v
unfolding leer_registro escribir_registro
leer-escribir ax v r = refl
leer-escribir bx v r = refl
leer-escribir cx v r = refl
leer-escribir dx v r = refl
leer-escribir ex v r = refl
leer-escribir fx v r = refl
leer-escribir gx v r = refl
leer-escribir hx v r = refl
leer-escribir pc v r = refl

-- The limits of the process are no register of an instruction.
pub base-escribir :
    (x : Registro) (v : ℕ) (r : RegistrosCpu) → (escribir_registro x v r).base ≡ r.base
unfolding escribir_registro
base-escribir ax v r = refl
base-escribir bx v r = refl
base-escribir cx v r = refl
base-escribir dx v r = refl
base-escribir ex v r = refl
base-escribir fx v r = refl
base-escribir gx v r = refl
base-escribir hx v r = refl
base-escribir pc v r = refl

pub limite-escribir :
    (x : Registro) (v : ℕ) (r : RegistrosCpu) → (escribir_registro x v r).limite ≡ r.limite
unfolding escribir_registro
limite-escribir ax v r = refl
limite-escribir bx v r = refl
limite-escribir cx v r = refl
limite-escribir dx v r = refl
limite-escribir ex v r = refl
limite-escribir fx v r = refl
limite-escribir gx v r = refl
limite-escribir hx v r = refl
limite-escribir pc v r = refl
