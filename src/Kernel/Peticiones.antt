-- ===== src/Kernel/Peticiones.antt =====
-- The requests of the kernel to the memory: kernel/src/kernel_memoria.c. A request is a connection of
-- its own: its packet, the answer of the memory, and what the kernel reads of it. `none` is a request
-- that is not answered, or an `exit` of the kernel.
use tp_2024_2c_nachi_y_los_o.Comun.{
  ℕ, ◌<◌, ◌≡◌, refl, ap, ◌∙◌, Bool, true, false, not, ◌&&◌, ◌||◌, Option, none, some, List, [], ◌∷◌,
  ◌++◌, arith, ltb, ◌==◌, if◌then◌else◌, ◌>>=◌, if_no, codes, >>=-some, length, All, length-append,
  mod32,
}
use mathlib.Core.List.{append-nil, append_assoc}
use tp_2024_2c_nachi_y_los_o.Utils.Paquete.{
  Paquete, crear_buffer, cargar_int_al_paquete, cargar_string_al_paquete, recibir_string_del_buffer,
}
use tp_2024_2c_nachi_y_los_o.Utils.Paquete.Bytes.{bytes_int, leer_int}
use tp_2024_2c_nachi_y_los_o.Utils.Paquete.IdaYVuelta.{
  con, bytes_generico, crear_buffer-con, cargar_int-con, cargar_string-con, recibir_int-con,
  recibir_string-con,
}
use tp_2024_2c_nachi_y_los_o.Utils.Instrucciones.{strcmp_eq}
use tp_2024_2c_nachi_y_los_o.Memoria.Estado.{Memoria}
use tp_2024_2c_nachi_y_los_o.Memoria.Proceso.{
  Respuesta, ok, error, atender_creacion_proceso, atender_finalizacion_proceso,
}
use tp_2024_2c_nachi_y_los_o.Memoria.Hilo.{atender_creacion_hilo, atender_finalizacion_hilo}
use tp_2024_2c_nachi_y_los_o.Memoria.Atencion.{
  responder, Contorno, hasta_nul, respondido, atender_peticion_proceso, atender_peticion_hilo,
  atender_fin_hilo, atender_fin_proceso, atender_memoria_kernel,
}

-- The packets of `enviar_y_recibir_peticion_creacion_proceso`, and so on.
unfoldable pub peticion_creacion_proceso : ℕ → ℕ → Paquete
peticion_creacion_proceso pid tamanio = record {
  codigo_operacion = 21;
  buffer = cargar_int_al_paquete (cargar_int_al_paquete crear_buffer pid) tamanio;
}

unfoldable pub peticion_creacion_hilo : ℕ → ℕ → List ℕ → Paquete
peticion_creacion_hilo pid tid archivo = record {
  codigo_operacion = 22;
  buffer =
      cargar_string_al_paquete (cargar_int_al_paquete (cargar_int_al_paquete crear_buffer pid) tid)
        archivo;
}

unfoldable pub aviso_finalizacion_hilo : ℕ → ℕ → Paquete
aviso_finalizacion_hilo tid pid = record {
  codigo_operacion = 23;
  buffer = cargar_int_al_paquete (cargar_int_al_paquete crear_buffer pid) tid;
}

unfoldable pub aviso_finalizacion_proceso : ℕ → Paquete
aviso_finalizacion_proceso pid = record {
  codigo_operacion = 24;
  buffer = cargar_int_al_paquete crear_buffer pid;
}

unfoldable pub aviso_dumpeo : ℕ → ℕ → Paquete
aviso_dumpeo tid pid = record {
  codigo_operacion = 25;
  buffer = cargar_int_al_paquete (cargar_int_al_paquete crear_buffer pid) tid;
}

-- The answer that is kept, tested against "OK"; a thread that is not created is an `exit`.
unfoldable pub atender_kernel_memoria : Paquete → Option Bool
atender_kernel_memoria p =
    if ltb p.codigo_operacion 21 || ltb 25 p.codigo_operacion
    then none
    else (recibir_string_del_buffer p.buffer >>= λ (texto, b).
        let bien = strcmp_eq (hasta_nul texto) (codes "OK") in
        if (p.codigo_operacion == 22) && not bien then none else some bien)

-- A request, up to the answer.
unfoldable pub pedir : Contorno → Memoria → Paquete → Option (Memoria × Bool)
unfolding atender_kernel_memoria
pedir en m p =
    atender_memoria_kernel en m p >>= λ (m', r). atender_kernel_memoria r >>= λ b. some (m', b)

abbrev pub es_ok : Respuesta → Bool
es_ok ok = true
es_ok error = false

respuesta-recibida :
    (c : ℕ) (r : Respuesta)
    → (ltb c 21 || ltb 25 c) ≡ false
    → (c == 22) ≡ false
    → atender_kernel_memoria (responder c r) ≡ some (es_ok r)
unfolding atender_kernel_memoria responder recibir_string_del_buffer cargar_string_al_paquete
    bytes_int leer_int
respuesta-recibida c ok h n =
    if_no _ _ _ h ∙ if_no ((c == 22) && false) none (some true) (rw n refl)
respuesta-recibida c error h n =
    if_no _ _ _ h ∙ if_no ((c == 22) && true) none (some false) (rw n refl)

respuesta_hilo-recibida :
    (r : Respuesta)
    → atender_kernel_memoria (responder 22 r) ≡ (if es_ok r then some true else none)
unfolding atender_kernel_memoria responder recibir_string_del_buffer cargar_string_al_paquete
    bytes_int leer_int
respuesta_hilo-recibida ok = refl
respuesta_hilo-recibida error = refl

-- The answer of a request that the memory attends.
pedir-respondido :
    (en : Contorno) (m : Memoria) (p : Paquete) (c : ℕ) (x : Memoria × Respuesta)
    → (ltb c 21 || ltb 25 c) ≡ false
    → (c == 22) ≡ false
    → atender_memoria_kernel en m p ≡ respondido c x
    → pedir en m p ≡ some (x.0, es_ok x.1)
unfolding pedir
pedir-respondido en m p c (m', r) h n e =
    >>=-some _ _ _ e ∙ >>=-some _ _ _ (respuesta-recibida c r h n)

pedir-hilo :
    (en : Contorno) (m : Memoria) (p : Paquete) (x : Memoria × Respuesta)
    → atender_memoria_kernel en m p ≡ respondido 22 x
    → pedir en m p ≡ (if es_ok x.1 then some (x.0, true) else none)
unfolding pedir
pedir-hilo en m p (m', ok) e = >>=-some _ _ _ e ∙ >>=-some _ _ _ (respuesta_hilo-recibida ok)
pedir-hilo en m p (m', error) e =
    >>=-some _ _ _ e ∙ ap (λ o. o >>= λ b. some (m', b)) (respuesta_hilo-recibida error)

dos_enteros :
    (pid tid : ℕ)
    → cargar_int_al_paquete (cargar_int_al_paquete crear_buffer pid) tid
      ≡ con (bytes_int pid ++ (bytes_int tid ++ []))
dos_enteros pid tid = simp (crear_buffer-con, cargar_int-con, append-nil)

hasta_nul-append : (s : List ℕ) → All (λ c. (c == 0) ≡ false) s → hasta_nul (s ++ 0 ∷ []) ≡ s
hasta_nul-append [] h = refl
hasta_nul-append (c ∷ s) h = if_no _ _ _ h.0 ∙ ap (λ l. c ∷ l) (hasta_nul-append s h.1)

un_entero : (pid : ℕ) → cargar_int_al_paquete crear_buffer pid ≡ con (bytes_int pid ++ [])
un_entero pid = simp (crear_buffer-con, cargar_int-con, append-nil)

dos_enteros_y_texto :
    (pid tid : ℕ) (s : List ℕ)
    → cargar_string_al_paquete
        (cargar_int_al_paquete (cargar_int_al_paquete crear_buffer pid) tid)
        s
      ≡ con (bytes_int pid ++ (bytes_int tid ++ (bytes_generico (s ++ 0 ∷ []) ++ [])))
dos_enteros_y_texto pid tid s =
    simp (crear_buffer-con, cargar_int-con, cargar_string-con, append_assoc, append-nil)

module _ (en : Contorno) (m : Memoria) where
  creacion_proceso-pedida :
      (pid tamanio : ℕ)
      → pid < mod32
      → tamanio < mod32
      → atender_memoria_kernel en m (peticion_creacion_proceso pid tamanio)
        ≡ respondido 21 (atender_creacion_proceso m pid tamanio)
  unfolding atender_memoria_kernel atender_peticion_proceso peticion_creacion_proceso
  creacion_proceso-pedida pid tamanio p t =
      rw (dos_enteros pid tamanio)
        (>>=-some _ _ _ (recibir_int-con pid _ p) ∙ >>=-some _ _ _ (recibir_int-con tamanio _ t))

  creacion_hilo-pedida :
      (pid tid : ℕ) (archivo : List ℕ)
      → pid < mod32
      → tid < mod32
      → length archivo < 2147483647
      → All (λ c. (c == 0) ≡ false) archivo
      → atender_memoria_kernel en m (peticion_creacion_hilo pid tid archivo)
        ≡ respondido 22 (atender_creacion_hilo en.leer_archivo m pid tid en.basura archivo)
  unfolding atender_memoria_kernel atender_peticion_hilo peticion_creacion_hilo
  creacion_hilo-pedida pid tid archivo p t l z =
      let n : length (archivo ++ 0 ∷ []) < 2147483648 =
        omega (arith, length-append archivo (0 ∷ [])) in
      rw (dos_enteros_y_texto pid tid archivo) (
        >>=-some _ _ _ (recibir_int-con pid _ p)
        ∙ (>>=-some _ _ _ (recibir_int-con tid _ t)
            ∙ (>>=-some _ _ _ (recibir_string-con (archivo ++ 0 ∷ []) [] n)
                ∙ ap
                    (λ s.
                      respondido 22 (atender_creacion_hilo en.leer_archivo m pid tid en.basura s))
                    (hasta_nul-append archivo z))))

  fin_hilo-pedido :
      (pid tid : ℕ)
      → pid < mod32
      → tid < mod32
      → atender_memoria_kernel en m (aviso_finalizacion_hilo tid pid)
        ≡ respondido 23 (atender_finalizacion_hilo m pid tid)
  unfolding atender_memoria_kernel atender_fin_hilo aviso_finalizacion_hilo
  fin_hilo-pedido pid tid p t =
      rw (dos_enteros pid tid)
        (>>=-some _ _ _ (recibir_int-con pid _ p) ∙ >>=-some _ _ _ (recibir_int-con tid _ t))

  fin_proceso-pedido :
      (pid : ℕ)
      → pid < mod32
      → atender_memoria_kernel en m (aviso_finalizacion_proceso pid)
        ≡ (atender_finalizacion_proceso en.commons m pid >>= λ r. respondido 24 r)
  unfolding atender_memoria_kernel atender_fin_proceso aviso_finalizacion_proceso
  fin_proceso-pedido pid p = rw (un_entero pid) (>>=-some _ _ _ (recibir_int-con pid _ p))

  fin_proceso-respondido :
      (pid : ℕ) (o : Option (Memoria × Respuesta))
      → atender_memoria_kernel en m (aviso_finalizacion_proceso pid) ≡ (o >>= λ r. respondido 24 r)
      → pedir en m (aviso_finalizacion_proceso pid) ≡ (o >>= λ (m', r). some (m', es_ok r))
  unfolding pedir
  fin_proceso-respondido pid none e = rw e refl
  fin_proceso-respondido pid (some x) e = pedir-respondido en m _ 24 x refl refl e

-- A request of the kernel through its packet does to the memory, and is answered, what the handler of
-- the memory does and answers on its numbers and its text: the creation of a process, the creation of
-- a thread, where the kernel exits on the answer "ERROR", and the end of a thread and of a process,
-- which is not answered where the handler reads through NULL.
-- The numbers are below 2 ^ 32, and the text has no NUL and fewer than 2 ^ 31 - 1 bytes.
pub pedir-peticiones :
    (en : Contorno) (m : Memoria) (pid tid tamanio : ℕ) (archivo : List ℕ)
    → pid < mod32
    → tid < mod32
    → tamanio < mod32
    → length archivo < 2147483647
    → All (λ c. (c == 0) ≡ false) archivo
    → (pedir en m (peticion_creacion_proceso pid tamanio)
        ≡ some (
          (atender_creacion_proceso m pid tamanio).0,
          es_ok (atender_creacion_proceso m pid tamanio).1,
        ))
      × (pedir en m (peticion_creacion_hilo pid tid archivo) ≡ (
          if es_ok (atender_creacion_hilo en.leer_archivo m pid tid en.basura archivo).1
          then some ((atender_creacion_hilo en.leer_archivo m pid tid en.basura archivo).0, true)
          else none))
      × (pedir en m (aviso_finalizacion_hilo tid pid)
          ≡ some (
            (atender_finalizacion_hilo m pid tid).0,
            es_ok (atender_finalizacion_hilo m pid tid).1,
          ))
      × (pedir en m (aviso_finalizacion_proceso pid)
          ≡ (atender_finalizacion_proceso en.commons m pid >>= λ (m', r). some (m', es_ok r)))
pedir-peticiones en m pid tid tamanio archivo p t u l z = (
  pedir-respondido en m _ 21 _ refl refl (creacion_proceso-pedida en m pid tamanio p u),
  pedir-hilo en m _ _ (creacion_hilo-pedida en m pid tid archivo p t l z),
  pedir-respondido en m _ 23 _ refl refl (fin_hilo-pedido en m pid tid p t),
  fin_proceso-respondido en m pid _ (fin_proceso-pedido en m pid p),
)
