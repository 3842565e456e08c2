-- ===== src/Memoria/EspacioUsuario/Escrituras.antt =====
-- The writes of a process and its dump (memoria/src/memoria_cpu.c, memoria_kernel.c).
use tp_2024_2c_nachi_y_los_o.Comun.{
  ℕ, ◌+◌, ◌-◌, ◌≤◌, ◌<◌, ◌≡◌, refl, sym, ap, ◌∙◌, inl, inr, true, false, Option, some, List, [],
  ◌∷◌, arith, ltb, ◌==◌, if◌then◌else◌, Bool-cases, if_si, if_no, some-injective, ◌>>=◌, >>=-some,
  length, take, drop, All, menos_uno, lt_int, length-copiar, tras_copia, copiar_en-total,
}
use tp_2024_2c_nachi_y_los_o.Utils.Paquete.Bytes.{bytes_int, length-bytes_int}
use tp_2024_2c_nachi_y_los_o.Memoria.Estado.{Proceso, Particion, Memoria}
use tp_2024_2c_nachi_y_los_o.Memoria.Particion.{buscar_particion_por_base_y_limite}
use tp_2024_2c_nachi_y_los_o.Memoria.Proceso.{buscar_proceso}
use tp_2024_2c_nachi_y_los_o.Memoria.EspacioUsuario.{
  escribir_uint32_en_dir_fisica, actualizar_proceso, anotar_escritura, atender_escritura,
  atender_dump_memory,
}
use tp_2024_2c_nachi_y_los_o.Memoria.EspacioUsuario.Volcado.{atender_dump_memory-bytes}

-- The requests to write, each one an address and a value, in their order.
unfoldable pub escribir_todas : Memoria → ℕ → List (ℕ × ℕ) → Option Memoria
escribir_todas m pid [] = some m
escribir_todas m pid (w ∷ ws) = atender_escritura m pid w.0 w.1 >>= λ m'. escribir_todas m' pid ws

abbrev pub maximo_de : ℕ → ℕ → ℕ
maximo_de a b = if ltb a b then b else a

-- The highest of an address and those of the requests.
abbrev pub mayor_direccion : ℕ → List (ℕ × ℕ) → ℕ
mayor_direccion a [] = a
mayor_direccion a (w ∷ ws) = mayor_direccion (maximo_de a w.0) ws

buscar-anotado :
    (pid dir : ℕ) (l : List Proceso) (p : Proceso)
    → buscar_proceso pid l ≡ some p
    → buscar_proceso pid (actualizar_proceso pid (anotar_escritura dir) l)
      ≡ some (anotar_escritura dir p)
unfolding buscar_proceso actualizar_proceso
buscar-anotado pid dir [] p e = cc
buscar-anotado pid dir (x ∷ l) p e = elim (Bool-cases (x.pid == pid)) [
  | inl t ↦
      (let q : x ≡ p = some-injective _ _ (sym (if_si _ _ _ t) ∙ e) in
        rw t (rw (mismo_pid x dir, t) (ap (λ z. some (anotar_escritura dir z)) q)))
  | inr t ↦ (rw t (rw t (buscar-anotado pid dir l p (sym (if_no _ _ _ t) ∙ e))))
]
  where
    mismo_pid : (x : Proceso) (d : ℕ) → (anotar_escritura d x).pid ≡ x.pid
    mismo_pid x d = elim (Bool-cases (lt_int x.mayor_direccion_fisica_escrita d)) [
      | inl t ↦ rw t refl
      | inr t ↦ rw t refl
    ]

-- A request to write that is answered, with what it notes of the process.
escritura-paso :
    (m : Memoria) (pid dir valor : ℕ) (p : Proceso)
    → buscar_proceso pid m.lista_procesos_recibidos ≡ some p
    → dir + 4 ≤ length m.espacio_usuario
    → (m' : Memoria) × (atender_escritura m pid dir valor ≡ some m')
      × (buscar_proceso pid m'.lista_procesos_recibidos ≡ some (anotar_escritura dir p))
      × (length m'.espacio_usuario ≡ length m.espacio_usuario)
      × (m'.lista_particiones ≡ m.lista_particiones)
unfolding atender_escritura escribir_uint32_en_dir_fisica
escritura-paso m pid dir valor p e h =
    let b : dir + length (bytes_int valor) ≤ length m.espacio_usuario =
      omega (arith, length-bytes_int valor) in
    let k = copiar_en-total m.espacio_usuario (bytes_int valor) dir b in
    (
      record m {
        lista_procesos_recibidos =
            actualizar_proceso pid (anotar_escritura dir) m.lista_procesos_recibidos;
        espacio_usuario = tras_copia m.espacio_usuario dir (bytes_int valor);
      },
      simp (e, k),
      buscar-anotado pid dir m.lista_procesos_recibidos p e,
      length-copiar m.espacio_usuario (bytes_int valor) dir b,
      refl,
    )

abbrev con_mayor : ℕ → Proceso → Proceso
con_mayor a p = record p { mayor_direccion_fisica_escrita = a }

anotar-maximo :
    (dir : ℕ) (p : Proceso)
    → dir < 2147483648
    → p.mayor_direccion_fisica_escrita < 2147483648
    → anotar_escritura dir p ≡ con_mayor (maximo_de p.mayor_direccion_fisica_escrita dir) p
anotar-maximo dir p h k = elim (Bool-cases (ltb p.mayor_direccion_fisica_escrita dir)) [
  | inl t ↦
      (let u : lt_int p.mayor_direccion_fisica_escrita dir ≡ true = ground arith in rw (t, u) refl)
  | inr t ↦
      (let u : lt_int p.mayor_direccion_fisica_escrita dir ≡ false = ground arith in rw (t, u) refl)
]

anotar-primera :
    (dir : ℕ) (p : Proceso)
    → dir < 2147483648
    → p.mayor_direccion_fisica_escrita ≡ menos_uno
    → anotar_escritura dir p ≡ con_mayor dir p
anotar-primera dir p h k =
    let u : lt_int p.mayor_direccion_fisica_escrita dir ≡ true = ground arith in rw u refl

-- A list of requests, from a process that has written.
escribir_todas-total :
    (ws : List (ℕ × ℕ)) (m : Memoria) (pid : ℕ) (p : Proceso)
    → buscar_proceso pid m.lista_procesos_recibidos ≡ some p
    → length m.espacio_usuario < 2147483648
    → p.mayor_direccion_fisica_escrita < length m.espacio_usuario
    → All (λ w. w.0 + 4 ≤ length m.espacio_usuario) ws
    → (m' : Memoria) × (escribir_todas m pid ws ≡ some m')
      × (buscar_proceso pid m'.lista_procesos_recibidos
          ≡ some (con_mayor (mayor_direccion p.mayor_direccion_fisica_escrita ws) p))
      × (length m'.espacio_usuario ≡ length m.espacio_usuario)
      × (m'.lista_particiones ≡ m.lista_particiones)
unfolding escribir_todas
escribir_todas-total [] m pid p e h k a = (m, refl, e, refl, refl)
escribir_todas-total (w ∷ ws) m pid p e h k a =
    let (m₁, f, g, l, q) = escritura-paso m pid w.0 w.1 p e a.0 in
    let p₁ = con_mayor (maximo_de p.mayor_direccion_fisica_escrita w.0) p in
    let n : anotar_escritura w.0 p ≡ p₁ = anotar-maximo w.0 p (omega (arith, a.0)) (omega arith) in
    let c : maximo_de p.mayor_direccion_fisica_escrita w.0 < length m.espacio_usuario =
      ground (arith, a.0) in
    let (m₂, r, s, l', q') =
      escribir_todas-total ws m₁ pid p₁ (g ∙ ap (λ z. some z) n) (omega (arith, l))
        (omega (arith, l, c)) (rw l a.1) in
    (m₂, >>=-some _ _ _ f ∙ r, s, l' ∙ l, q' ∙ q)

mayor-cabe :
    (ws : List (ℕ × ℕ)) (a n : ℕ)
    → a < n
    → All (λ w. w.0 + 4 ≤ n) ws
    → (a ≤ mayor_direccion a ws) × (mayor_direccion a ws < n)
mayor-cabe [] a n h k = (omega arith, h)
mayor-cabe (w ∷ ws) a n h k =
    let c : maximo_de a w.0 < n = ground (arith, k.0) in
    let d : a ≤ maximo_de a w.0 = ground arith in
    let (x, y) = mayor-cabe ws (maximo_de a w.0) n c k.1 in (omega (arith, x, d), y)

-- A process that has not written yet sends requests to write, at least one, each with its word inside
-- the user memory, the first one not below the base of its partition. They are all answered, and the
-- dump of the process is then the block of bytes from the base to the highest of their addresses, that
-- address included, with the size of the partition. The user memory is below 2 ^ 31 bytes.
pub atender_dump_memory-escrituras :
    (m : Memoria) (pid i : ℕ) (proceso : Proceso) (p : Particion) (w : ℕ × ℕ) (ws : List (ℕ × ℕ))
    → buscar_proceso pid m.lista_procesos_recibidos ≡ some proceso
    → proceso.mayor_direccion_fisica_escrita ≡ menos_uno
    → buscar_particion_por_base_y_limite proceso.base proceso.limite m.lista_particiones
      ≡ some (i, p)
    → length m.espacio_usuario < 2147483648
    → All (λ x. x.0 + 4 ≤ length m.espacio_usuario) (w ∷ ws)
    → p.base ≤ w.0
    → (m' : Memoria) × (escribir_todas m pid (w ∷ ws) ≡ some m')
      × (atender_dump_memory m' pid
          ≡ some (record {
            mensaje = take (mayor_direccion w.0 ws - p.base + 1) (drop p.base m'.espacio_usuario);
            tamanio_particion = p.tamanio;
            tamanio = mayor_direccion w.0 ws - p.base + 1;
          }))
unfolding escribir_todas
atender_dump_memory-escrituras m pid i proceso p w ws e n f h a b =
    let (m₁, g, x, l, q) = escritura-paso m pid w.0 w.1 proceso e a.0 in
    let p₁ = con_mayor w.0 proceso in
    let c : w.0 < 2147483648 = omega (arith, a.0) in
    let (m₂, r, s, l', q') =
      escribir_todas-total ws m₁ pid p₁ (x ∙ ap (λ z. some z) (anotar-primera w.0 proceso c n))
        (omega (arith, l)) (omega (arith, l, a.0)) (rw l a.1) in
    let (y, z) = mayor-cabe ws w.0 (length m.espacio_usuario) (omega (arith, a.0)) a.1 in
    (
      m₂,
      >>=-some _ _ _ g ∙ r,
      atender_dump_memory-bytes m₂ pid i (con_mayor (mayor_direccion w.0 ws) proceso) p s
          (ap (buscar_particion_por_base_y_limite proceso.base proceso.limite) (q' ∙ q) ∙ f)
          (omega (arith, b, y)) (omega (arith, h, z)) (omega (arith, z, l, l')),
    )
