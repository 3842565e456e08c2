-- ===== src/Kernel/Validez.antt =====
-- Every operation on the lists of threads keeps the kernel valid (kernel/src/tcb.c,
-- planificador_corto_plazo.c, cola_multinivel.c).
use tp_2024_2c_nachi_y_los_o.Comun.{
  ℕ, suc, ◌≤◌, ◌≡◌, refl, sym, ap, ◌∙◌, inl, inr, Option, some, List, [], ◌∷◌, map, arith,
  Bool-cases, >>=-eq-some, some-injective, some_par, length,
}
use tp_2024_2c_nachi_y_los_o.Kernel.Estado.{
  HiloId, Tcb, ColaMultinivel, Kernel, es_hilo, MaximoTcb, MaximoCola,
}
use tp_2024_2c_nachi_y_los_o.Kernel.Colas.{buscar_tcb_por_tid_de}
use tp_2024_2c_nachi_y_los_o.Kernel.Planificacion.{
  pcp_planificador_corto_plazo, bloquear_hilo_en_ejecucion, desbloquear_hilo,
}
use tp_2024_2c_nachi_y_los_o.Kernel.Planificacion.Veces.{
  Estable, peso, peso_en_colas, peso_total, prioridades_de,
}
use tp_2024_2c_nachi_y_los_o.Kernel.Planificacion.Agregado.{EsKernel}
use tp_2024_2c_nachi_y_los_o.Kernel.Mutex.{modificar_en}
use tp_2024_2c_nachi_y_los_o.Kernel.Hilos.{
  obtener_hilo_desalojado, modificar_todos, modificar_en_cola, modificar_tcb,
}
use tp_2024_2c_nachi_y_los_o.Kernel.Transiciones.{
  Conserva, EsKernel-Conserva, pcp-Conserva, bloquear-Conserva, desbloquear-Conserva,
}

-- An operation that returns a kernel like that gives no other one.
determinado :
    (o : Option Kernel) (k k'' : Kernel)
    → o ≡ some k''
    → EsKernel k
    → (k' : Kernel) × (o ≡ some k') × Conserva k k' × (length k'.lista_tcb_exec ≤ 1)
    → EsKernel k''
determinado o k k'' e v (k', f, c, l) =
    let q : k' ≡ k'' = some-injective _ _ (sym f ∙ e) in rw (sym q) (EsKernel-Conserva k k' v c l)

module _ (mt : MaximoTcb) (mc : MaximoCola) where
  pub pcp-EsKernel :
      (k k' : Kernel) → pcp_planificador_corto_plazo mt mc k ≡ some k' → EsKernel k → EsKernel k'
  pcp-EsKernel k k' e v = determinado _ k k' e v (pcp-Conserva mt mc k v.a_lo_sumo_uno)

  pub bloquear-EsKernel :
      (k k' : Kernel) (tid pid : ℕ)
      → bloquear_hilo_en_ejecucion mt mc k tid pid ≡ some k'
      → EsKernel k
      → EsKernel k'
  bloquear-EsKernel k k' tid pid e v =
      determinado _ k k' e v (bloquear-Conserva mt mc k tid pid v.a_lo_sumo_uno)

  pub desbloquear-EsKernel :
      (k k' : Kernel) (h : HiloId) → desbloquear_hilo mt mc k h ≡ some k' → EsKernel k → EsKernel k'
  desbloquear-EsKernel k k' h e v = determinado _ k k' e v (desbloquear-Conserva mt mc k h v)

-- A change of a thread that keeps its identification and its priority.
abbrev pub Leve : (Tcb → Tcb) → Type 0
Leve f = (t : Tcb) → ((f t).id_hilo ≡ t.id_hilo) × ((f t).prioridad ≡ t.prioridad)

modificar_en-peso :
    (w : Tcb → ℕ) (tid pid : ℕ) (f : Tcb → Tcb) (ts : List Tcb)
    → Estable w
    → Leve f
    → peso w (modificar_en tid pid f ts) ≡ peso w ts
unfolding modificar_en peso
modificar_en-peso w tid pid f [] s l = refl
modificar_en-peso w tid pid f (t ∷ ts) s l = elim (Bool-cases (es_hilo tid pid t.id_hilo)) [
  | inl e ↦ rw e (omega (arith, s (f t) t (l t).0 (l t).1))
  | inr e ↦ rw e (omega (arith, modificar_en-peso w tid pid f ts s l))
]

modificar_todos-peso :
    (w : Tcb → ℕ) (tid pid : ℕ) (f : Tcb → Tcb) (ts : List Tcb)
    → Estable w
    → Leve f
    → peso w (modificar_todos tid pid f ts) ≡ peso w ts
unfolding modificar_todos peso
modificar_todos-peso w tid pid f [] s l = refl
modificar_todos-peso w tid pid f (t ∷ ts) s l =
    let ih = modificar_todos-peso w tid pid f ts s l in
    elim (Bool-cases (es_hilo tid pid t.id_hilo)) [
      | inl e ↦ rw e (omega (arith, s (f t) t (l t).0 (l t).1, ih))
      | inr e ↦ rw e (omega (arith, ih))
    ]

modificar_en_cola-peso :
    (w : Tcb → ℕ) (tid pid : ℕ) (f : Tcb → Tcb) (cs : List ColaMultinivel)
    → Estable w
    → Leve f
    → peso_en_colas w (map (modificar_en_cola tid pid f) cs) ≡ peso_en_colas w cs
unfolding modificar_en_cola peso_en_colas
modificar_en_cola-peso w tid pid f [] s l = refl
modificar_en_cola-peso w tid pid f (c ∷ cs) s l = omega (
  arith,
  modificar_todos-peso w tid pid f c.lista_ready s l,
  modificar_en_cola-peso w tid pid f cs s l,
)

modificar_en_cola-prioridades :
    (tid pid : ℕ) (f : Tcb → Tcb) (cs : List ColaMultinivel)
    → prioridades_de (map (modificar_en_cola tid pid f) cs) ≡ prioridades_de cs
unfolding modificar_en_cola
modificar_en_cola-prioridades tid pid f [] = refl
modificar_en_cola-prioridades tid pid f (c ∷ cs) =
    ap (λ l. c.prioridad_lista ∷ l) (modificar_en_cola-prioridades tid pid f cs)

length-modificar_todos :
    (tid pid : ℕ) (f : Tcb → Tcb) (ts : List Tcb)
    → length (modificar_todos tid pid f ts) ≡ length ts
unfolding modificar_todos
length-modificar_todos tid pid f [] = refl
length-modificar_todos tid pid f (t ∷ ts) = ap suc (length-modificar_todos tid pid f ts)

length-modificar_en :
    (tid pid : ℕ) (f : Tcb → Tcb) (ts : List Tcb) → length (modificar_en tid pid f ts) ≡ length ts
unfolding modificar_en
length-modificar_en tid pid f [] = refl
length-modificar_en tid pid f (t ∷ ts) = elim (Bool-cases (es_hilo tid pid t.id_hilo)) [
  | inl e ↦ rw e refl
  | inr e ↦ rw e (ap suc (length-modificar_en tid pid f ts))
]

pub modificar_tcb-Conserva :
    (k : Kernel) (tid pid : ℕ) (f : Tcb → Tcb) → Leve f → Conserva k (modificar_tcb tid pid f k)
unfolding modificar_tcb peso_total
modificar_tcb-Conserva k tid pid f l = record {
  pesa = λ w s. omega (
    arith,
    modificar_todos-peso w tid pid f k.lista_tcb_ready s l,
    modificar_todos-peso w tid pid f k.lista_tcb_exec s l,
    modificar_todos-peso w tid pid f k.lista_tcb_blocked s l,
    modificar_en_cola-peso w tid pid f k.lista_cola_multinivel s l,
  );
  mismo_algoritmo = refl;
  mismas_colas = modificar_en_cola-prioridades tid pid f k.lista_cola_multinivel;
}

pub modificar_tcb-EsKernel :
    (k : Kernel) (tid pid : ℕ) (f : Tcb → Tcb)
    → Leve f
    → EsKernel k
    → EsKernel (modificar_tcb tid pid f k)
unfolding modificar_tcb
modificar_tcb-EsKernel k tid pid f l v =
    EsKernel-Conserva k (modificar_tcb tid pid f k) v (modificar_tcb-Conserva k tid pid f l)
      (rw (length-modificar_todos tid pid f k.lista_tcb_exec) v.a_lo_sumo_uno)

-- A change of a thread that executes.
pub exec-EsKernel :
    (k : Kernel) (tid pid : ℕ) (f : Tcb → Tcb)
    → Leve f
    → EsKernel k
    → EsKernel (record k { lista_tcb_exec = modificar_en tid pid f k.lista_tcb_exec })
unfolding peso_total
exec-EsKernel k tid pid f l v =
    let k1 : Kernel = record k { lista_tcb_exec = modificar_en tid pid f k.lista_tcb_exec } in
    let c : Conserva k k1 = record {
      pesa = λ w s. omega (arith, modificar_en-peso w tid pid f k.lista_tcb_exec s l);
      mismo_algoritmo = refl;
      mismas_colas = refl;
    } in
    EsKernel-Conserva k k1 v c (rw (length-modificar_en tid pid f k.lista_tcb_exec) v.a_lo_sumo_uno)

pub obtener-EsKernel :
    (k k' : Kernel) (t : Tcb) (pid tid verificador : ℕ)
    → obtener_hilo_desalojado pid tid verificador k ≡ some (t, k')
    → EsKernel k
    → EsKernel k'
unfolding obtener_hilo_desalojado
obtener-EsKernel k k' t pid tid verificador e v =
    let (x, g, h) = >>=-eq-some (buscar_tcb_por_tid_de tid pid k.lista_tcb_exec) _ e in
    rw (sym (some_par _ _ h).1) (exec-EsKernel k tid pid _ (λ t. (refl, refl)) v)
