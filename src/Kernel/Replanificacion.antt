-- ===== src/Kernel/Replanificacion.antt =====
-- The processes that wait in NEW (`replanificar_creacion_proceso` of
-- kernel/src/planificador_largo_plazo.c, kernel/src/pcb.c).
use tp_2024_2c_nachi_y_los_o.Comun.{
  ℕ, suc, ◌≡◌, refl, sym, ap, ◌∙◌, ◌⊎◌, inl, inr, Bool, true, false, some, List, [], ◌∷◌, ◌++◌, map,
  ==_iff, Bool-cases, if_si, if_no, opcion-some, >>=-some, length, get_elem?, All, add32,
}
use tp_2024_2c_nachi_y_los_o.Kernel.Estado.{HiloId}
use tp_2024_2c_nachi_y_los_o.Kernel.Sistema.{PedidosMemoria, planificar, Sistema, lanzar}
use tp_2024_2c_nachi_y_los_o.Kernel.Procesos.{en_memoria_pcb, Pcb, remover_pcb}
use tp_2024_2c_nachi_y_los_o.Kernel.Planificacion.Agregado.{EsKernel}
use mathlib.Core.List.{append_assoc, append-nil}
use tp_2024_2c_nachi_y_los_o.Kernel.Sistema.{LeyesMemoria}
use tp_2024_2c_nachi_y_los_o.Kernel.Planificacion.Agregado.{agregar-total}
use tp_2024_2c_nachi_y_los_o.Kernel.Altas.{con_cola_segun-EsKernel, agregar-EsKernel}
use tp_2024_2c_nachi_y_los_o.Kernel.Creacion.{
  siguiente_hilo, con_hilo, con_cola_segun, nuevo_tcb, crear_tcb, pasar_a_memoria,
  preguntar_a_memoria_para_inicializacion, replanificar_creacion_proceso,
}

-- A process that has no thread yet, as `crear_pcb` leaves it.
pub record EsNuevo (p : Pcb) : Type 0 where
  pub sin_tid : p.siguiente_tid ≡ 0
  pub hilo_cero : p.lista_id_hilo ≡ record { tid = 0; pid_asociado = p.pid } ∷ []

-- A process of NEW, once it is in memory.
abbrev pub aceptado : Pcb → Pcb
aceptado p = record p { siguiente_tid = 1; estado = en_memoria_pcb }

siguiente-EsNuevo :
    (p : Pcb) → EsNuevo p → siguiente_hilo p ≡ some (record { tid = 0; pid_asociado = p.pid })
unfolding siguiente_hilo
siguiente-EsNuevo p n =
    if_si _ _ _ ((==_iff p.siguiente_tid 0).1 n.sin_tid) ∙ ap (λ l. get_elem? l 0) n.hilo_cero

-- Where the loop ends: NEW is empty, or memory has refused its first process.
abbrev pub Detenido : {S : Type 0} → PedidosMemoria S → Sistema S → Type 0
Detenido {S} mem s' =
    (s'.lista_pcb_new ≡ [])
    ⊎ ((p : Pcb) × (ps : List Pcb) × (m : S) × (s'.lista_pcb_new ≡ p ∷ ps)
        × (mem.creacion_proceso m p.pid p.tamanio ≡ (s'.memoria, false)))

module _ {S : Type 0} (mem : PedidosMemoria S) (basura : Bool) (leyes : LeyesMemoria mem) where
  crear_tcb-total :
      (s : Sistema S) (p : Pcb) (archivo : List ℕ) (prioridad : ℕ)
      → EsNuevo p
      → EsKernel s.kernel
      → leyes.conoce s.memoria p.pid ≡ true
      → (s' : Sistema S) × (crear_tcb mem basura s p archivo prioridad
          ≡ some (s', con_hilo (record { tid = 0; pid_asociado = p.pid }) p))
        × (s'.lista_pcb_new ≡ s.lista_pcb_new)
        × (s'.lista_pcb_en_memoria ≡ s.lista_pcb_en_memoria)
        × EsKernel s'.kernel
  unfolding crear_tcb lanzar
  crear_tcb-total s p archivo prioridad n v c =
      let h : HiloId = record { tid = 0; pid_asociado = p.pid } in
      let a = s.kernel.algoritmo_planificacion in
      let (w, d) = con_cola_segun-EsKernel a prioridad s.kernel refl v in
      let k0 = con_cola_segun a prioridad s.kernel in
      let t = nuevo_tcb basura h prioridad in
      let (k1, e, _) = agregar-total k0 t d in
      let g = leyes.creacion_hilo-conoce s.memoria p.pid 0 archivo c in
      let m = (mem.creacion_hilo s.memoria p.pid 0 archivo).0 in
      let s1 : Sistema S = lanzar planificar (record s { kernel = k1; memoria = m }) in
      (s1, rw (siguiente-EsNuevo p n, g, e) refl, refl, refl, agregar-EsKernel k0 k1 t e d w)

  -- The question about a process of NEW: memory refuses it, or takes it.
  record EsPregunta (s : Sistema S) (p : Pcb) (ps : List Pcb) (s' : Sistema S) : Type 0 where
    queda : s'.lista_pcb_new ≡ ps
    pasa : s'.lista_pcb_en_memoria ≡ s.lista_pcb_en_memoria ++ aceptado p ∷ []
    valido : EsKernel s'.kernel

  pasado :
      (p : Pcb)
      → EsNuevo p
      → record (con_hilo (record { tid = 0; pid_asociado = p.pid }) p) { estado = en_memoria_pcb }
        ≡ aceptado p
  unfolding con_hilo
  pasado p n = ap (λ i. record p { siguiente_tid = add32 i 1; estado = en_memoria_pcb }) n.sin_tid

  preguntar-acepta :
      (s : Sistema S) (p : Pcb) (ps : List Pcb)
      → s.lista_pcb_new ≡ p ∷ ps
      → EsNuevo p
      → EsKernel s.kernel
      → (mem.creacion_proceso s.memoria p.pid p.tamanio).1 ≡ true
      → (s' : Sistema S) × (preguntar_a_memoria_para_inicializacion mem basura s p
          ≡ some (s', true))
        × EsPregunta s p ps s'
  unfolding preguntar_a_memoria_para_inicializacion pasar_a_memoria remover_pcb con_hilo
  preguntar-acepta s p ps e n v a =
      let m = (mem.creacion_proceso s.memoria p.pid p.tamanio).0 in
      let c = leyes.conoce-creacion s.memoria p.pid p.tamanio a in
      let (s1, f, g, h, w) =
        crear_tcb-total (record s { memoria = m }) p p.archivo_instrucciones p.prioridad_tid0 n v
          c in
      let q = con_hilo (record { tid = 0; pid_asociado = p.pid }) p in
      (
        (pasar_a_memoria (s1, q)).0,
        rw (a, f) refl,
        record {
          queda = rw (g, e) (if_si _ _ _ ((==_iff p.pid p.pid).1 refl));
          pasa = rw h (ap (λ z. s.lista_pcb_en_memoria ++ z ∷ []) (pasado p n));
          valido = w;
        },
      )

  preguntar-rechaza :
      (s : Sistema S) (p : Pcb)
      → (mem.creacion_proceso s.memoria p.pid p.tamanio).1 ≡ false
      → preguntar_a_memoria_para_inicializacion mem basura s p
        ≡ some (record s { memoria = (mem.creacion_proceso s.memoria p.pid p.tamanio).0 }, false)
  unfolding preguntar_a_memoria_para_inicializacion
  preguntar-rechaza s p a = if_no _ _ _ a

  primero :
      (s : Sistema S) (p : Pcb) (ps : List Pcb)
      → s.lista_pcb_new ≡ p ∷ ps
      → get_elem? s.lista_pcb_new 0 ≡ some p
  primero s p ps e = ap (λ l. get_elem? l 0) e

  -- The loop, by the processes of NEW.
  replanificar-desde :
      (ls : List Pcb) (s : Sistema S)
      → s.lista_pcb_new ≡ ls
      → All EsNuevo ls
      → EsKernel s.kernel
      → (s' : Sistema S) × (xs : List Pcb) × (replanificar_creacion_proceso mem basura
            (suc (length ls))
            s
          ≡ some s')
        × (ls ≡ xs ++ s'.lista_pcb_new)
        × (s'.lista_pcb_en_memoria ≡ s.lista_pcb_en_memoria ++ map aceptado xs)
        × Detenido mem s'
        × EsKernel s'.kernel
  unfolding replanificar_creacion_proceso
  replanificar-desde [] s e n v =
      (s, [], rw e refl, sym e, sym (append-nil s.lista_pcb_en_memoria), inl e, v)
  replanificar-desde (p ∷ ps) s e n v =
      elim (Bool-cases (mem.creacion_proceso s.memoria p.pid p.tamanio).1) [
        | inr a ↦
            (let m = (mem.creacion_proceso s.memoria p.pid p.tamanio).0 in
              (
                record s { memoria = m },
                [],
                opcion-some _ _ _ p (primero s p ps e) ∙ >>=-some _ _ _ (preguntar-rechaza s p a),
                sym e,
                sym (append-nil s.lista_pcb_en_memoria),
                inr (p, ps, s.memoria, e, ap (λ b. (m, b)) a),
                v,
              ))
        | inl a ↦
            (let (s1, f, r) = preguntar-acepta s p ps e n.0 v a in
              let (s', xs, g, h, i, d, w) = replanificar-desde ps s1 r.queda n.1 r.valido in
              (
                s',
                p ∷ xs,
                opcion-some _ _ _ p (primero s p ps e) ∙ (>>=-some _ _ _ f ∙ g),
                ap (λ l. p ∷ l) h,
                i
                    ∙ (ap (λ l. l ++ map aceptado xs) r.pasa
                        ∙ append_assoc s.lista_pcb_en_memoria _ _),
                d,
                w,
              ))
      ]

  -- With a round for each process of NEW and one more, `replanificar_creacion_proceso` ends, in a valid
  -- kernel, where the processes of NEW are new, and memory keeps its laws: the processes that go to
  -- memory are the first ones of NEW, in their order; it stops at the
  -- first process that memory refuses, or with NEW empty.
  pub replanificar-total :
      (s : Sistema S)
      → All EsNuevo s.lista_pcb_new
      → EsKernel s.kernel
      → (s' : Sistema S) × (xs : List Pcb) × (replanificar_creacion_proceso mem basura
            (suc (length s.lista_pcb_new))
            s
          ≡ some s')
        × (s.lista_pcb_new ≡ xs ++ s'.lista_pcb_new)
        × (s'.lista_pcb_en_memoria ≡ s.lista_pcb_en_memoria ++ map aceptado xs)
        × Detenido mem s'
        × EsKernel s'.kernel
  replanificar-total s n v = replanificar-desde s.lista_pcb_new s refl n v
