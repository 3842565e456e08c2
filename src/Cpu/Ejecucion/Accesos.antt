-- ===== src/Cpu/Ejecucion/Accesos.antt =====
-- The memory accesses of the instructions (cpu/src/ciclo_instruccion.c, mmu.c).
use tp_2024_2c_nachi_y_los_o.Comun.{
  ℕ, ◌+◌, ◌-◌, ◌≤◌, ◌<◌, ◌≡◌, refl, sym, ap, ◌∙◌, ◌≢◌, ◌⊎◌, inl, inr, Bool, true, false, not,
  Option, none, some, List, arith, ◌==◌, if◌then◌else◌, Option-cases, ◌>>=◌, >>=-eq-some, if_si,
  if_no, some-injective, length, mod32, menos_uno,
}
use tp_2024_2c_nachi_y_los_o.Utils.Instrucciones.{Registro}
use tp_2024_2c_nachi_y_los_o.Utils.Contexto.{RegistrosCpu, Contexto}
use tp_2024_2c_nachi_y_los_o.Memoria.Estado.{Proceso, Hilo, Memoria}
use tp_2024_2c_nachi_y_los_o.Memoria.Proceso.{Respuesta, ok, error, buscar_proceso}
use tp_2024_2c_nachi_y_los_o.Memoria.EspacioUsuario.{
  leer_uint32_de_dir_fisica, atender_lectura, atender_escritura,
}
use tp_2024_2c_nachi_y_los_o.Memoria.EspacioUsuario.Accesos.{
  atender_lectura-atender_escritura, atender_lectura-escritura_ajena, atender_escritura-total,
}
use tp_2024_2c_nachi_y_los_o.Memoria.Hilo.Pedidos.{actualizacion-ok}
use tp_2024_2c_nachi_y_los_o.Memoria.Hilo.{buscar_hilo, atender_actualizacion_contexto}
use tp_2024_2c_nachi_y_los_o.Cpu.Registros.{leer_registro, escribir_registro, leer-escribir}
use tp_2024_2c_nachi_y_los_o.Cpu.Mmu.{mmu, mmu_lem}
use tp_2024_2c_nachi_y_los_o.Cpu.Ejecucion.{
  process, Cpu, con_registros, avanzar, registro_en, solicitar_memoria, escribir_valor_memoria,
  actualizar_contexto, atender_segmentation_fault, ejecutar_read_mem, ejecutar_write_mem,
}

traducida :
    (r : RegistrosCpu) (d : ℕ)
    → r.base ≤ r.limite
    → r.limite < 2147483648
    → d < r.limite - r.base
    → mmu r d ≡ r.base + d
traducida r d h k l = elim (mmu_lem r d h k) [ inl x ↦ x.1 | inr x ↦ absurd (omega (arith, x.0)) ]

-- WRITE_MEM to an address of the process stores the word of the data register, and the process
-- goes on behind the instruction: the two registers exist, the address is below the difference of
-- limit and base, and the word ends inside the user memory.
pub ejecutar_write_mem-total :
    (split : List (List ℕ)) (c : Cpu) (m : Memoria) (x y : Registro) (p : Proceso)
    → registro_en split 1 ≡ some x
    → registro_en split 2 ≡ some y
    → buscar_proceso c.un_contexto.pid m.lista_procesos_recibidos ≡ some p
    → c.un_contexto.r_cpu.base ≤ c.un_contexto.r_cpu.limite
    → c.un_contexto.r_cpu.limite < 2147483648
    → leer_registro x ((avanzar c).un_contexto.r_cpu)
      < c.un_contexto.r_cpu.limite - c.un_contexto.r_cpu.base
    → c.un_contexto.r_cpu.base + leer_registro x ((avanzar c).un_contexto.r_cpu) + 4
      ≤ length m.espacio_usuario
    → leer_registro y ((avanzar c).un_contexto.r_cpu) < mod32
    → (m' : Memoria) × (ejecutar_write_mem split c m ≡ some (avanzar c, m'))
      × (length m'.espacio_usuario ≡ length m.espacio_usuario)
      × (atender_lectura m'
            (c.un_contexto.r_cpu.base + leer_registro x ((avanzar c).un_contexto.r_cpu))
          ≡ some (leer_registro y ((avanzar c).un_contexto.r_cpu)))
unfolding ejecutar_write_mem escribir_valor_memoria
ejecutar_write_mem-total split c m x y p ex ey ep h k l t v =
    let r = (avanzar c).un_contexto.r_cpu in
    let d = leer_registro x r in
    let dir = c.un_contexto.r_cpu.base + d in
    let q : mmu r d ≡ dir = traducida r d h k l in
    let nq : (dir == menos_uno) ≡ false = ground arith in
    let (m', e) = atender_escritura-total m c.un_contexto.pid dir (leer_registro y r) p ep t in
    let (a, b, f) =
      atender_lectura-atender_escritura m m' c.un_contexto.pid dir (leer_registro y r) v e in
    (m', simp (ex, ey, q, nq, e), b, f)

-- READ_MEM of an address of the process whose word is not 2 ^ 32 - 1: the program counter advances,
-- then the word that memory answers is written to the data register, where it is read back, and
-- nothing else of the CPU or of the memory changes. The two registers exist, and the base is not above
-- the limit, which is below 2 ^ 31.
pub ejecutar_read_mem-total :
    (split : List (List ℕ)) (c : Cpu) (m : Memoria) (x y : Registro) (valor : ℕ)
    → registro_en split 1 ≡ some y
    → registro_en split 2 ≡ some x
    → c.un_contexto.r_cpu.base ≤ c.un_contexto.r_cpu.limite
    → c.un_contexto.r_cpu.limite < 2147483648
    → leer_registro x ((avanzar c).un_contexto.r_cpu)
      < c.un_contexto.r_cpu.limite - c.un_contexto.r_cpu.base
    → atender_lectura m (c.un_contexto.r_cpu.base + leer_registro x ((avanzar c).un_contexto.r_cpu))
      ≡ some valor
    → valor ≢ menos_uno
    → (ejecutar_read_mem split c m
        ≡ some (
          con_registros (avanzar c) (escribir_registro y valor ((avanzar c).un_contexto.r_cpu)),
          m,
        ))
      × (leer_registro y (escribir_registro y valor ((avanzar c).un_contexto.r_cpu)) ≡ valor)
unfolding ejecutar_read_mem solicitar_memoria
ejecutar_read_mem-total split c m x y valor ey ex h k l e ne =
    let r = (avanzar c).un_contexto.r_cpu in
    let d = leer_registro x r in
    let dir = c.un_contexto.r_cpu.base + d in
    let q : mmu r d ≡ dir = traducida r d h k l in
    let nq : (dir == menos_uno) ≡ false = ground arith in
    let nv : (valor == menos_uno) ≡ false = ground arith in
    (simp (ex, ey, q, nq, e, nv), leer-escribir y valor r)

rechazada :
    (r : RegistrosCpu) (d : ℕ)
    → r.base ≤ r.limite
    → r.limite < 2147483648
    → r.limite - r.base ≤ d
    → mmu r d ≡ menos_uno
rechazada r d h k l = elim (mmu_lem r d h k) [ inl x ↦ absurd (omega (arith, x.0)) | inr x ↦ x.1 ]

espacio-actualizacion :
    (m : Memoria) (c : Contexto)
    → (atender_actualizacion_contexto m c).0.espacio_usuario ≡ m.espacio_usuario
unfolding atender_actualizacion_contexto
espacio-actualizacion m c = elim (Option-cases (buscar_hilo c.pid c.tid m.list_hilos_recibidos)) [
  | inl e ↦ rw (e, atender_actualizacion_contexto) refl
  | inr (h, e) ↦ rw (e, atender_actualizacion_contexto) refl
]

si_ok :
    (x : Memoria × Respuesta) → x.1 ≡ ok → (elim x.1 [ ok ↦ some x.0 | error ↦ none ]) ≡ some x.0
si_ok (m, ok) e = refl
si_ok (m, error) e = cc

actualizar-encontrado :
    (c : Cpu) (m : Memoria) (h : Hilo)
    → buscar_hilo c.un_contexto.pid c.un_contexto.tid m.list_hilos_recibidos ≡ some h
    → actualizar_contexto c m ≡ some (atender_actualizacion_contexto m c.un_contexto).0
unfolding actualizar_contexto
actualizar-encontrado c m h e =
    si_ok (atender_actualizacion_contexto m c.un_contexto) (actualizacion-ok m c.un_contexto h e)

-- The memory of a stored context has the user memory of before.
actualizar-espacio :
    (x : Memoria × Respuesta) (m' : Memoria)
    → (elim x.1 [ ok ↦ some x.0 | error ↦ none ]) ≡ some m'
    → x.0 ≡ m'
actualizar-espacio (m, ok) m' e = some-injective _ _ e
actualizar-espacio (m, error) m' e = cc

-- WRITE_MEM to an address from the difference of limit and base on ends the process: the exit of
-- the process is marked, and the user memory stays as it was. The two registers exist, the base is not
-- above the limit, which is below 2 ^ 31, and the memory has the thread, whose context it stores.
pub ejecutar_write_mem-rechazo :
    (split : List (List ℕ)) (c : Cpu) (m : Memoria) (x y : Registro) (h : Hilo)
    → buscar_hilo c.un_contexto.pid c.un_contexto.tid m.list_hilos_recibidos ≡ some h
    → registro_en split 1 ≡ some x
    → registro_en split 2 ≡ some y
    → c.un_contexto.r_cpu.base ≤ c.un_contexto.r_cpu.limite
    → c.un_contexto.r_cpu.limite < 2147483648
    → c.un_contexto.r_cpu.limite - c.un_contexto.r_cpu.base
      ≤ leer_registro x ((avanzar c).un_contexto.r_cpu)
    → (c' : Cpu) × (m' : Memoria) × (ejecutar_write_mem split c m ≡ some (c', m'))
      × (c'.hay_exit ≡ true)
      × (c'.tipo_exit ≡ process)
      × (m'.espacio_usuario ≡ m.espacio_usuario)
unfolding ejecutar_write_mem escribir_valor_memoria atender_segmentation_fault
ejecutar_write_mem-rechazo split c m x y h b ex ey f k l =
    let r = (avanzar c).un_contexto.r_cpu in
    let q : mmu r (leer_registro x r) ≡ menos_uno = rechazada r (leer_registro x r) f k l in
    (
      record (avanzar c) { hay_exit = true; tipo_exit = process },
      (atender_actualizacion_contexto m (avanzar c).un_contexto).0,
      simp (ex, ey, q, actualizar-encontrado (avanzar c) m h b),
      refl,
      refl,
      espacio-actualizacion m (avanzar c).un_contexto,
    )

lectura-espacio :
    (m m' : Memoria) (otra : ℕ)
    → m.espacio_usuario ≡ m'.espacio_usuario
    → atender_lectura m otra ≡ atender_lectura m' otra
unfolding atender_lectura
lectura-espacio m m' otra e = ap (λ z. leer_uint32_de_dir_fisica z otra) e

resultado : Memoria → Option (Cpu × Memoria) → Memoria
resultado d none = d
resultado d (some x) = x.1

espacio-fin :
    (c' c : Cpu) (m' m1 : Memoria) (escrito : Bool)
    → (if escrito then some (c, m1) else atender_segmentation_fault c m1) ≡ some (c', m')
    → m'.espacio_usuario ≡ m1.espacio_usuario
unfolding resultado atender_segmentation_fault actualizar_contexto
espacio-fin c' c m' m1 true e = sym (ap (λ z. (resultado m1 z).espacio_usuario) e)
espacio-fin c' c m' m1 false e =
    let (n, f, g) = >>=-eq-some (actualizar_contexto c m1) _ e in
    sym (ap (λ z. (resultado m1 z).espacio_usuario) g)
    ∙ (ap (λ z. z.espacio_usuario)
          (sym (actualizar-espacio (atender_actualizacion_contexto m1 c.un_contexto) n f))
        ∙ espacio-actualizacion m1 c.un_contexto)

memoria_escrita : Memoria → Option (Memoria × Bool) → Memoria
memoria_escrita d none = d
memoria_escrita d (some x) = x.0

valor-ajeno :
    (m m1 : Memoria) (c : Contexto) (d v otra : ℕ) (escrito : Bool)
    → c.r_cpu.base ≤ c.r_cpu.limite
    → c.r_cpu.limite < 2147483648
    → escribir_valor_memoria m c d v ≡ some (m1, escrito)
    → (otra + 4 ≤ c.r_cpu.base) ⊎ (c.r_cpu.limite + 3 ≤ otra)
    → atender_lectura m1 otra ≡ atender_lectura m otra
unfolding escribir_valor_memoria memoria_escrita
valor-ajeno m m1 c d v otra escrito h k e o = elim (mmu_lem c.r_cpu d h k) [
  | inl (l, q, u) ↦
      (let t : not (mmu c.r_cpu d == menos_uno) ≡ true = ground arith in
        let o' : (otra + 4 ≤ mmu c.r_cpu d) ⊎ (mmu c.r_cpu d + 4 ≤ otra) = elim o [
          | inl a ↦ inl (omega arith)
          | inr a ↦ inr (omega arith)
        ] in
        let f : (atender_escritura m c.pid (mmu c.r_cpu d) v >>= λ m2. some (m2, true))
            ≡ some (m1, escrito) =
          sym (if_si _ _ _ t) ∙ e in
        let (m2, g, w) = >>=-eq-some (atender_escritura m c.pid (mmu c.r_cpu d) v) _ f in
        let z : m2 ≡ m1 = ap (memoria_escrita m) w in
        rw (← z) (atender_lectura-escritura_ajena m m2 c.pid (mmu c.r_cpu d) v otra g o'))
  | inr (l, q) ↦
      (let t : not (mmu c.r_cpu d == menos_uno) ≡ false = rw q refl in
        let f : some (m, false) ≡ some (m1, escrito) = sym (if_no _ _ _ t) ∙ e in
        let z : m ≡ m1 = ap (memoria_escrita m) f in rw z refl)
]

-- Whether WRITE_MEM is taken or refused, a word of the user memory that ends at the base of the process
-- or before it, or starts three bytes behind its limit or after, stays as it was: where the base is
-- not above the limit, which is below 2 ^ 31.
pub ejecutar_write_mem-ajena :
    (split : List (List ℕ)) (c c' : Cpu) (m m' : Memoria) (otra : ℕ)
    → c.un_contexto.r_cpu.base ≤ c.un_contexto.r_cpu.limite
    → c.un_contexto.r_cpu.limite < 2147483648
    → ejecutar_write_mem split c m ≡ some (c', m')
    → (otra + 4 ≤ c.un_contexto.r_cpu.base) ⊎ (c.un_contexto.r_cpu.limite + 3 ≤ otra)
    → atender_lectura m' otra ≡ atender_lectura m otra
unfolding ejecutar_write_mem
ejecutar_write_mem-ajena split c c' m m' otra h k e o =
    let r = (avanzar c).un_contexto.r_cpu in
    let (x, ex, e1) = >>=-eq-some (registro_en split 1) _ e in
    let (y, ey, e2) = >>=-eq-some (registro_en split 2) _ e1 in
    let ((m1, escrito), ew, e3) =
      >>=-eq-some
        (escribir_valor_memoria m ((avanzar c).un_contexto) (leer_registro x r) (leer_registro y r))
        _ e2 in
    lectura-espacio m' m1 otra (espacio-fin c' (avanzar c) m' m1 escrito e3)
    ∙ valor-ajeno m m1 (avanzar c).un_contexto (leer_registro x r) (leer_registro y r) otra escrito
        h k ew o
