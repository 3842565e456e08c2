-- ===== src/Kernel/Planificacion/Veces.antt =====
-- Weights of the lists of the kernel, such as how often a thread stands in them, and what taking one out of a list leaves
-- (kernel/src/planificador_corto_plazo.c, cola_multinivel.c).
use tp_2024_2c_nachi_y_los_o.Comun.{
  ℕ, zero, suc, ◌+◌, ◌≡◌, refl, sym, ap, ◌∙◌, map, Option, none, some, List, [], ◌∷◌, arith,
  if◌then◌else◌, >>=-eq-some, get_elem?,
}
use tp_2024_2c_nachi_y_los_o.Kernel.Estado.{Tcb, ColaMultinivel, Kernel, es_hilo}
use tp_2024_2c_nachi_y_los_o.Kernel.Colas.{vacia, colas_con_elementos, sacar_cabeza, sacar_de_cola}
use tp_2024_2c_nachi_y_los_o.Kernel.Planificacion.{quitar}

-- A weight of threads that sees only what no operation changes in a thread.
abbrev pub Estable : (Tcb → ℕ) → Type 0
Estable w = (t u : Tcb) → t.id_hilo ≡ u.id_hilo → t.prioridad ≡ u.prioridad → w t ≡ w u

-- The weight of a list, of the queues and of the kernel.
unfoldable pub peso : (Tcb → ℕ) → List Tcb → ℕ
peso w [] = 0
peso w (t ∷ ts) = w t + peso w ts

unfoldable pub peso_en_colas : (Tcb → ℕ) → List ColaMultinivel → ℕ
unfolding peso
peso_en_colas w [] = 0
peso_en_colas w (c ∷ cs) = peso w c.lista_ready + peso_en_colas w cs

unfoldable pub peso_total : (Tcb → ℕ) → Kernel → ℕ
unfolding peso peso_en_colas
peso_total w k =
    peso w k.lista_tcb_ready
    + peso w k.lista_tcb_exec
    + peso w k.lista_tcb_blocked
    + peso_en_colas w k.lista_cola_multinivel

-- How often a thread stands in a list, and in the kernel.
abbrev pub una : ℕ → ℕ → Tcb → ℕ
una tid pid t = if es_hilo tid pid t.id_hilo then 1 else 0

abbrev pub veces : ℕ → ℕ → List Tcb → ℕ
veces tid pid ts = peso (una tid pid) ts

abbrev pub presente : ℕ → ℕ → Kernel → ℕ
presente tid pid k = peso_total (una tid pid) k

-- The priorities of the queues.
abbrev pub prioridades_de : List ColaMultinivel → List ℕ
prioridades_de cs = map (λ c. c.prioridad_lista) cs

pesar : (Tcb → ℕ) → Option (Tcb × List Tcb) → ℕ
pesar w none = 0
pesar w (some x) = w x.0 + peso w x.1

pub quitar-peso :
    (w : Tcb → ℕ) (i : ℕ) (ts rs : List Tcb) (t : Tcb)
    → quitar i ts ≡ some (t, rs)
    → peso w ts ≡ w t + peso w rs
unfolding peso pesar
quitar-peso w i [] rs t e = cc
quitar-peso w zero (x ∷ ts) rs t e = ap (pesar w) e
quitar-peso w (suc i) (x ∷ ts) rs t e =
    let ((y, ys), f, g) = >>=-eq-some (quitar i ts) _ e in
    let ih = quitar-peso w i ts ys y f in
    let z : w y + (w x + peso w ys) ≡ w t + peso w rs = ap (pesar w) g in omega (arith, ih, z)

pub quitar-total :
    (i : ℕ) (ts : List Tcb) (t : Tcb)
    → get_elem? ts i ≡ some t
    → (rs : List Tcb) × (quitar i ts ≡ some (t, rs))
quitar-total i [] t e = cc
quitar-total zero (x ∷ ts) t e = (ts, ap (λ z. some (z, ts)) q)
  where
    q : x ≡ t
    q = cc
quitar-total (suc i) (x ∷ ts) t e = let (rs, f) = quitar-total i ts t e in (x ∷ rs, rw f refl)

pesar_colas : (Tcb → ℕ) → Option (Tcb × List ColaMultinivel) → ℕ
pesar_colas w none = 0
pesar_colas w (some x) = w x.0 + peso_en_colas w x.1

-- A step of the search in the queues, for a queue with the threads `ts`.
cabeza-peso :
    (w : Tcb → ℕ) (i : ℕ) (c : ColaMultinivel) (ts : List Tcb) (cs rs : List ColaMultinivel)
    (t : Tcb)
    → ((i : ℕ) (rs : List ColaMultinivel) (t : Tcb)
        → sacar_de_cola i cs ≡ some (t, rs)
        → peso_en_colas w cs ≡ w t + peso_en_colas w rs)
    → c.lista_ready ≡ ts
    → sacar_cabeza (λ j. sacar_de_cola j cs) i c ts cs ≡ some (t, rs)
    → peso w c.lista_ready + peso_en_colas w cs ≡ w t + peso_en_colas w rs
unfolding sacar_cabeza peso peso_en_colas pesar_colas
cabeza-peso w i c [] cs rs t ih q e =
    let ((y, ys), f, g) = >>=-eq-some (sacar_de_cola i cs) _ e in
    let z : w y + (peso w c.lista_ready + peso_en_colas w ys) ≡ w t + peso_en_colas w rs =
      ap (pesar_colas w) g in
    omega (arith, ih i ys y f, z)
cabeza-peso w zero c (x ∷ ts) cs rs t ih q e =
    let z : w x + (peso w ts + peso_en_colas w cs) ≡ w t + peso_en_colas w rs =
      ap (pesar_colas w) e in
    let v : peso w c.lista_ready ≡ w x + peso w ts = ap (peso w) q in omega (arith, z, v)
cabeza-peso w (suc i) c (x ∷ ts) cs rs t ih q e =
    let ((y, ys), f, g) = >>=-eq-some (sacar_de_cola i cs) _ e in
    let z : w y + (peso w c.lista_ready + peso_en_colas w ys) ≡ w t + peso_en_colas w rs =
      ap (pesar_colas w) g in
    omega (arith, ih i ys y f, z)

pub sacar-peso :
    (w : Tcb → ℕ) (i : ℕ) (cs rs : List ColaMultinivel) (t : Tcb)
    → sacar_de_cola i cs ≡ some (t, rs)
    → peso_en_colas w cs ≡ w t + peso_en_colas w rs
unfolding sacar_de_cola peso_en_colas
sacar-peso w i [] rs t e = cc
sacar-peso w i (c ∷ cs) rs t e =
    cabeza-peso w i c c.lista_ready cs rs t (λ j rs' t' f. sacar-peso w j cs rs' t' f) refl e

cabeza-total :
    (i : ℕ) (c z : ColaMultinivel) (ts : List Tcb) (cs : List ColaMultinivel)
    → ((i : ℕ)
        → get_elem? (colas_con_elementos cs) i ≡ some z
        → (x : Tcb × List ColaMultinivel) × (sacar_de_cola i cs ≡ some x))
    → get_elem? (if vacia ts then colas_con_elementos cs else c ∷ colas_con_elementos cs) i ≡ some z
    → (x : Tcb × List ColaMultinivel) × (sacar_cabeza (λ j. sacar_de_cola j cs) i c ts cs ≡ some x)
unfolding sacar_cabeza
cabeza-total i c z [] cs ih e = let (x, f) = ih i e in ((x.0, c ∷ x.1), rw f refl)
cabeza-total zero c z (t ∷ ts) cs ih e = (_, refl)
cabeza-total (suc i) c z (t ∷ ts) cs ih e = let (x, f) = ih i e in ((x.0, c ∷ x.1), rw f refl)

pub sacar-total :
    (i : ℕ) (cs : List ColaMultinivel) (z : ColaMultinivel)
    → get_elem? (colas_con_elementos cs) i ≡ some z
    → (x : Tcb × List ColaMultinivel) × (sacar_de_cola i cs ≡ some x)
unfolding sacar_de_cola colas_con_elementos
sacar-total i [] z e = cc
sacar-total i (c ∷ cs) z e = cabeza-total i c z c.lista_ready cs (λ j f. sacar-total j cs z f) e

abbrev prioridades_o : Option (Tcb × List ColaMultinivel) → List ℕ
prioridades_o none = []
prioridades_o (some x) = prioridades_de x.1

cabeza-prioridades :
    (i : ℕ) (c : ColaMultinivel) (ts : List Tcb) (cs rs : List ColaMultinivel) (t : Tcb)
    → ((i : ℕ) (rs : List ColaMultinivel) (t : Tcb)
        → sacar_de_cola i cs ≡ some (t, rs)
        → prioridades_de rs ≡ prioridades_de cs)
    → sacar_cabeza (λ j. sacar_de_cola j cs) i c ts cs ≡ some (t, rs)
    → prioridades_de rs ≡ c.prioridad_lista ∷ prioridades_de cs
unfolding sacar_cabeza
cabeza-prioridades i c [] cs rs t ih e =
    let ((y, ys), f, g) = >>=-eq-some (sacar_de_cola i cs) _ e in
    let w : c.prioridad_lista ∷ prioridades_de ys ≡ prioridades_de rs = ap prioridades_o g in
    sym w ∙ ap (λ l. c.prioridad_lista ∷ l) (ih i ys y f)
cabeza-prioridades zero c (x ∷ ts) cs rs t ih e =
    let w : c.prioridad_lista ∷ prioridades_de cs ≡ prioridades_de rs = ap prioridades_o e in sym w
cabeza-prioridades (suc i) c (x ∷ ts) cs rs t ih e =
    let ((y, ys), f, g) = >>=-eq-some (sacar_de_cola i cs) _ e in
    let w : c.prioridad_lista ∷ prioridades_de ys ≡ prioridades_de rs = ap prioridades_o g in
    sym w ∙ ap (λ l. c.prioridad_lista ∷ l) (ih i ys y f)

-- Taking a thread out of a queue leaves the priorities of the queues.
pub sacar-prioridades :
    (i : ℕ) (cs rs : List ColaMultinivel) (t : Tcb)
    → sacar_de_cola i cs ≡ some (t, rs)
    → prioridades_de rs ≡ prioridades_de cs
unfolding sacar_de_cola
sacar-prioridades i [] rs t e = cc
sacar-prioridades i (c ∷ cs) rs t e =
    cabeza-prioridades i c c.lista_ready cs rs t (λ j rs' t' f. sacar-prioridades j cs rs' t' f) e
