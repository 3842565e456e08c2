-- ===== src/Kernel/Planificacion/Bloqueados.antt =====
-- The short-term scheduler leaves the blocked threads alone (kernel/src/planificador_corto_plazo.c).
use tp_2024_2c_nachi_y_los_o.Comun.{
  ◌≡◌, refl, sym, ap, ◌∙◌, ◌&&◌, not, inl, inr, Bool, true, false, Option, none, some, List,
  if◌then◌else◌, ◌>>=◌, >>=-eq-some, some-injective, if-cases,
}
use tp_2024_2c_nachi_y_los_o.Kernel.Estado.{
  Algoritmo, fifo, prioridades, cmn, Tcb, Kernel, MaximoTcb, MaximoCola,
}
use tp_2024_2c_nachi_y_los_o.Kernel.Colas.{
  todas_las_colas_estan_vacias, obtener_siguiente_tcb_a_ejecutar_en_cmn, vacia,
}
use tp_2024_2c_nachi_y_los_o.Kernel.Planificacion.{
  quitar, despachar, mas_prioritario, atender_fifo, atender_prioridades, atender_cmn,
  planificar_segun, pcp_planificador_corto_plazo,
}

abbrev despacho : Kernel → Option (Tcb × List Tcb) → Kernel
despacho k o = elim o [ none ↦ k | some (t, ts) ↦ despachar (record k { lista_tcb_ready = ts }) t ]

despacho-bloqueados :
    (k : Kernel) (o : Option (Tcb × List Tcb))
    → (despacho k o).lista_tcb_blocked ≡ k.lista_tcb_blocked
unfolding despachar
despacho-bloqueados k none = refl
despacho-bloqueados k (some (t, ts)) = refl

si-bloqueados :
    (b : Bool) (x k : Kernel)
    → x.lista_tcb_blocked ≡ k.lista_tcb_blocked
    → (if b then x else k).lista_tcb_blocked ≡ k.lista_tcb_blocked
si-bloqueados true x k e = e
si-bloqueados false x k e = refl

fifo-bloqueados : (k : Kernel) → (atender_fifo k).lista_tcb_blocked ≡ k.lista_tcb_blocked
unfolding atender_fifo
fifo-bloqueados k =
    si-bloqueados (vacia k.lista_tcb_exec) _ k (despacho-bloqueados k (quitar 0 k.lista_tcb_ready))

prioridades-bloqueados :
    (mt : MaximoTcb) (k : Kernel)
    → (atender_prioridades mt k).lista_tcb_blocked ≡ k.lista_tcb_blocked
unfolding atender_prioridades
prioridades-bloqueados mt k =
    si-bloqueados (vacia k.lista_tcb_exec && not (vacia k.lista_tcb_ready)) _ k (
      despacho-bloqueados k
        (mas_prioritario mt k.lista_tcb_ready >>= λ i. quitar i k.lista_tcb_ready))

mismo :
    (x k k' : Kernel)
    → some x ≡ some k'
    → x.lista_tcb_blocked ≡ k.lista_tcb_blocked
    → k'.lista_tcb_blocked ≡ k.lista_tcb_blocked
mismo x k k' e f = ap (λ z. z.lista_tcb_blocked) (sym (some-injective _ _ e)) ∙ f

cmn-bloqueados :
    (mc : MaximoCola) (k k' : Kernel)
    → atender_cmn mc k ≡ some k'
    → k'.lista_tcb_blocked ≡ k.lista_tcb_blocked
unfolding atender_cmn despachar
cmn-bloqueados mc k k' e = elim (if-cases (vacia k.lista_tcb_exec) _ _ _ e) [
  | inl (c, f) ↦
      (let (x, g, h) =
          >>=-eq-some (obtener_siguiente_tcb_a_ejecutar_en_cmn mc k.lista_cola_multinivel) _ f in
        mismo _ k k' h refl)
  | inr (c, f) ↦ mismo k k k' f refl
]

segun-bloqueados :
    (mt : MaximoTcb) (mc : MaximoCola) (a : Algoritmo) (k k' : Kernel)
    → planificar_segun mt mc a k ≡ some k'
    → k'.lista_tcb_blocked ≡ k.lista_tcb_blocked
unfolding planificar_segun
segun-bloqueados mt mc fifo k k' e =
    elim (if-cases (vacia k.lista_tcb_ready) (some k) (some (atender_fifo k)) (some k') e) [
      | inl (c, f) ↦ mismo k k k' f refl
      | inr (c, f) ↦ mismo (atender_fifo k) k k' f (fifo-bloqueados k)
    ]
segun-bloqueados mt mc prioridades k k' e =
    elim (if-cases (vacia k.lista_tcb_ready) (some k) (some (atender_prioridades mt k)) (some k')
      e) [
        | inl (c, f) ↦ mismo k k k' f refl
        | inr (c, f) ↦ mismo (atender_prioridades mt k) k k' f (prioridades-bloqueados mt k)
      ]
segun-bloqueados mt mc cmn k k' e =
    elim (if-cases (todas_las_colas_estan_vacias k.lista_cola_multinivel) (some k)
      (atender_cmn mc k) (some k') e) [
        | inl (c, f) ↦ mismo k k k' f refl
        | inr (c, f) ↦ cmn-bloqueados mc k k' f
      ]

pub pcp-bloqueados :
    (mt : MaximoTcb) (mc : MaximoCola) (k k' : Kernel)
    → pcp_planificador_corto_plazo mt mc k ≡ some k'
    → k'.lista_tcb_blocked ≡ k.lista_tcb_blocked
unfolding pcp_planificador_corto_plazo
pcp-bloqueados mt mc k k' e = segun-bloqueados mt mc k.algoritmo_planificacion k k' e
