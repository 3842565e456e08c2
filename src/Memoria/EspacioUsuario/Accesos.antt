-- ===== src/Memoria/EspacioUsuario/Accesos.antt =====
-- Reads and writes of the user memory (memoria/src/espacio_usuario.c).
use tp_2024_2c_nachi_y_los_o.Comun.{
  ℕ, ◌+◌, ◌*◌, ◌≤◌, ◌<◌, ◌≡◌, refl, sym, ap, ◌∙◌, ◌⊎◌, inl, inr, false, Option, none, some, List,
  [], arith, ltb, Bool-cases, >>=-eq-some, length, take, drop, mod32, copiar_en, copiar_de, byte_en,
  tras_copia, cabe-copiar, copiar_en-total, length-copiar, copiado, byte_ajeno, get_or-take,
  get_or-drop,
}
use mathlib.Core.List.{append-nil}
use tp_2024_2c_nachi_y_los_o.Utils.Paquete.Bytes.{
  bytes_int, leer_int, leer_int-bytes_int, length-bytes_int,
}
use tp_2024_2c_nachi_y_los_o.Memoria.Estado.{Proceso, Memoria}
use tp_2024_2c_nachi_y_los_o.Memoria.Proceso.{buscar_proceso}
use tp_2024_2c_nachi_y_los_o.Memoria.EspacioUsuario.{
  escribir_uint32_en_dir_fisica, leer_uint32_de_dir_fisica, atender_escritura, atender_lectura,
  actualizar_proceso, anotar_escritura,
}

-- A word is its four bytes.
palabra :
    (bloque : List ℕ) (dir : ℕ)
    → leer_int (take 4 (drop dir bloque))
      ≡ byte_en bloque dir
        + 256 * byte_en bloque (dir + 1)
        + 65536 * byte_en bloque (dir + 2)
        + 16777216 * byte_en bloque (dir + 3)
unfolding leer_int
palabra bloque dir =
    let d = drop dir bloque in
    let b : (i : ℕ) → i < 4 → byte_en (take 4 d) i ≡ byte_en bloque (dir + i) =
      λ i l. get_or-take d 4 i l ∙ get_or-drop bloque dir i in
    let z : dir + 0 ≡ dir = omega arith in
    rw (b 0 (omega arith), b 1 (omega arith), b 2 (omega arith), b 3 (omega arith), z) refl

leer-tras_copia_ajena :
    (bloque datos : List ℕ) (dir otra : ℕ)
    → dir + length datos ≤ length bloque
    → (otra + 4 ≤ dir) ⊎ (dir + length datos ≤ otra)
    → leer_uint32_de_dir_fisica (tras_copia bloque dir datos) otra
      ≡ leer_uint32_de_dir_fisica bloque otra
unfolding leer_uint32_de_dir_fisica copiar_de
leer-tras_copia_ajena bloque datos dir otra h k =
    let f : (i : ℕ)
        → i < 4
        → byte_en (tras_copia bloque dir datos) (otra + i) ≡ byte_en bloque (otra + i) =
      λ i l. byte_ajeno bloque datos dir (otra + i) h (lejos i l) in
    let f0 : byte_en (tras_copia bloque dir datos) otra ≡ byte_en bloque otra =
      byte_ajeno bloque datos dir otra h
        (elim k [ inl a ↦ inl (omega arith) | inr b ↦ inr (omega arith) ]) in
    let f1 = f 1 (omega arith) in
    let f2 = f 2 (omega arith) in
    let f3 = f 3 (omega arith) in
    let w : leer_int (take 4 (drop otra (tras_copia bloque dir datos)))
        ≡ leer_int (take 4 (drop otra bloque)) =
      rw (palabra (tras_copia bloque dir datos) otra, palabra bloque otra)
        (omega (arith, f0, f1, f2, f3)) in
    rw (length-copiar bloque datos dir h) (elim (Bool-cases (ltb (length bloque) (otra + 4))) [
      | inl t ↦ rw t refl
      | inr t ↦ rw (t, w) refl
    ])
  where
    lejos : (i : ℕ) → i < 4 → (otra + i < dir) ⊎ (dir + length datos ≤ otra + i)
    lejos i l = elim k [ inl a ↦ inl (omega arith) | inr b ↦ inr (omega arith) ]

campo : List ℕ → Option Memoria → List ℕ
campo d none = d
campo d (some m) = m.espacio_usuario

-- What `atender_escritura` does when it succeeds.
escritura-partes :
    (m m' : Memoria) (pid dir valor : ℕ)
    → atender_escritura m pid dir valor ≡ some m'
    → (dir + 4 ≤ length m.espacio_usuario)
      × (m'.espacio_usuario ≡ tras_copia m.espacio_usuario dir (bytes_int valor))
unfolding atender_escritura escribir_uint32_en_dir_fisica campo
escritura-partes m m' pid dir valor e =
    let (p, ep, e2) = >>=-eq-some (buscar_proceso pid m.lista_procesos_recibidos) _ e in
    let (n, en, e3) = >>=-eq-some (copiar_en m.espacio_usuario dir (bytes_int valor)) _ e2 in
    let (c, d) = cabe-copiar m.espacio_usuario (bytes_int valor) n dir en in
    let q : m'.espacio_usuario ≡ n = sym (ap (campo m.espacio_usuario) e3) in
    (omega (arith, c, length-bytes_int valor), q ∙ d)

-- A write of the CPU that is answered OK stands inside the user memory, keeps its size, and a read
-- of the same address answers the value written.
pub atender_lectura-atender_escritura :
    (m m' : Memoria) (pid dir valor : ℕ)
    → valor < mod32
    → atender_escritura m pid dir valor ≡ some m'
    → (dir + 4 ≤ length m.espacio_usuario)
      × (length m'.espacio_usuario ≡ length m.espacio_usuario)
      × (atender_lectura m' dir ≡ some valor)
unfolding atender_lectura leer_uint32_de_dir_fisica copiar_de bytes_int
atender_lectura-atender_escritura m m' pid dir valor h e =
    let (c, d) = escritura-partes m m' pid dir valor e in
    let b = length-bytes_int valor in
    let k : dir + length (bytes_int valor) ≤ length m.espacio_usuario = omega (arith, b) in
    let l : length m'.espacio_usuario ≡ length m.espacio_usuario =
      rw d (length-copiar m.espacio_usuario (bytes_int valor) dir k) in
    let t : ltb (length m'.espacio_usuario) (dir + 4) ≡ false = ground arith in
    let x : take 4 (drop dir m'.espacio_usuario) ≡ bytes_int valor =
      rw d (copiado m.espacio_usuario (bytes_int valor) dir k) in
    let y : leer_int (bytes_int valor) ≡ valor =
      (rw (← append-nil (bytes_int valor)) refl) ∙ leer_int-bytes_int valor [] h in
    (c, l, rw (t, x, y) refl)

-- A write of the CPU that is answered OK changes no word that it does not overlap.
pub atender_lectura-escritura_ajena :
    (m m' : Memoria) (pid dir valor otra : ℕ)
    → atender_escritura m pid dir valor ≡ some m'
    → (otra + 4 ≤ dir) ⊎ (dir + 4 ≤ otra)
    → atender_lectura m' otra ≡ atender_lectura m otra
unfolding atender_lectura
atender_lectura-escritura_ajena m m' pid dir valor otra e k =
    let (c, d) = escritura-partes m m' pid dir valor e in
    let b = length-bytes_int valor in
    rw d (
      leer-tras_copia_ajena m.espacio_usuario (bytes_int valor) dir otra (omega (arith, b))
        (elim k [ inl a ↦ inl a | inr a ↦ inr (omega (arith, b)) ]))

-- A write for a process that exists, whose word ends inside the user memory, is answered.
pub atender_escritura-total :
    (m : Memoria) (pid dir valor : ℕ) (p : Proceso)
    → buscar_proceso pid m.lista_procesos_recibidos ≡ some p
    → dir + 4 ≤ length m.espacio_usuario
    → (m' : Memoria) × (atender_escritura m pid dir valor ≡ some m')
unfolding atender_escritura escribir_uint32_en_dir_fisica
atender_escritura-total m pid dir valor p e h =
    let k =
      copiar_en-total m.espacio_usuario (bytes_int valor) dir
        (omega (arith, length-bytes_int valor)) in
    (
      record m {
        lista_procesos_recibidos =
            actualizar_proceso pid (anotar_escritura dir) m.lista_procesos_recibidos;
        espacio_usuario = tras_copia m.espacio_usuario dir (bytes_int valor);
      },
      simp (e, k),
    )
