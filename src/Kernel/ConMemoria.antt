-- ===== src/Kernel/ConMemoria.antt =====
-- The kernel over the memory module: what the kernel relies on (kernel/src/kernel_memoria.c), as the
-- handlers of memoria/src/memoria_kernel.c do it.
use tp_2024_2c_nachi_y_los_o.Comun.{
  ℕ, suc, ◌≡◌, refl, ap, ◌⊎◌, inl, inr, Bool, true, false, some, List, [], ◌∷◌, ◌++◌, map, ◌==◌,
  ==_iff, Bool-cases, Option-cases, ◌>>=◌, length, All, lt_int,
}
use tp_2024_2c_nachi_y_los_o.Memoria.Estado.{Memoria, Proceso, Esquema, fijas, dinamicas}
use tp_2024_2c_nachi_y_los_o.Memoria.Particion.{Puntero, obtener_particion_a_asignar}
use tp_2024_2c_nachi_y_los_o.Memoria.Proceso.{
  Respuesta, ok, error, crear_proceso_esquema_fijo, crear_proceso_esquema_dinamico, crear_segun,
  atender_creacion_proceso, atender_finalizacion_proceso, buscar_proceso, existe_proceso,
}
use tp_2024_2c_nachi_y_los_o.Memoria.Hilo.{atender_creacion_hilo, atender_finalizacion_hilo}
use tp_2024_2c_nachi_y_los_o.Memoria.EspacioUsuario.{atender_dump_memory}
use tp_2024_2c_nachi_y_los_o.Memoria.Atencion.{Contorno}
use tp_2024_2c_nachi_y_los_o.Kernel.Peticiones.{es_ok}
use tp_2024_2c_nachi_y_los_o.Kernel.Sistema.{PedidosMemoria, LeyesMemoria, Sistema}
use tp_2024_2c_nachi_y_los_o.Kernel.Procesos.{Pcb}
use tp_2024_2c_nachi_y_los_o.Kernel.Planificacion.Agregado.{EsKernel}
use tp_2024_2c_nachi_y_los_o.Kernel.Creacion.{replanificar_creacion_proceso}
use tp_2024_2c_nachi_y_los_o.Kernel.Replanificacion.{EsNuevo, aceptado, replanificar-total}

abbrev pub contestado : Memoria × Respuesta → Memoria × Bool
contestado (m, r) = (m, es_ok r)

-- The memory module behind the interface of the kernel.
abbrev pub memoria_de : Contorno → PedidosMemoria Memoria
memoria_de en = record {
  creacion_proceso = λ m pid tamanio. contestado (atender_creacion_proceso m pid tamanio);
  creacion_hilo = λ m pid tid archivo.
      contestado (atender_creacion_hilo en.leer_archivo m pid tid en.basura archivo);
  finalizacion_hilo = λ m tid pid. contestado (atender_finalizacion_hilo m pid tid);
  finalizacion_proceso =
      λ m pid. atender_finalizacion_proceso en.commons m pid >>= λ x. some (contestado x);
  dump_memory = λ m tid pid. atender_dump_memory m pid >>= λ d. some (m, es_ok (en.filesystem d));
}

existe-append :
    (pid : ℕ) (ps : List Proceso) (p : Proceso)
    → p.pid ≡ pid
    → existe_proceso pid (ps ++ p ∷ []) ≡ true
unfolding existe_proceso buscar_proceso
existe-append pid [] p e =
    let q : (p.pid == pid) ≡ true = (==_iff p.pid pid).1 e in rw (q, existe_proceso) refl
existe-append pid (x ∷ ps) p e = elim (Bool-cases (x.pid == pid)) [
  | inl q ↦ rw (q, existe_proceso) refl
  | inr q ↦ rw (q, existe_proceso) (existe-append pid ps p e)
]

crear-existe :
    (q : Esquema) (m : Memoria) (pid : ℕ) (x : Puntero) (tamanio : ℕ)
    → existe_proceso pid (crear_segun q m pid x tamanio).lista_procesos_recibidos ≡ true
unfolding crear_segun crear_proceso_esquema_fijo crear_proceso_esquema_dinamico
crear-existe fijas m pid (i, p) tamanio = existe-append pid m.lista_procesos_recibidos _ refl
crear-existe dinamicas m pid (i, p) tamanio = elim (Bool-cases (lt_int tamanio p.tamanio)) [
  | inl e ↦ rw e (existe-append pid m.lista_procesos_recibidos _ refl)
  | inr e ↦ rw e (existe-append pid m.lista_procesos_recibidos _ refl)
]

creado-existe :
    (m : Memoria) (pid tamanio : ℕ)
    → es_ok (atender_creacion_proceso m pid tamanio).1 ≡ true
    → existe_proceso pid (atender_creacion_proceso m pid tamanio).0.lista_procesos_recibidos ≡ true
unfolding atender_creacion_proceso
creado-existe m pid tamanio e =
    elim (Option-cases
      (obtener_particion_a_asignar m.algoritmo_busqueda tamanio m.lista_particiones)) [
        | inl f ↦ (let g = rw (f, atender_creacion_proceso) at e in cc)
        | inr (x, f) ↦ rw (f, atender_creacion_proceso) (crear-existe m.esquema m pid x tamanio)
      ]

hilo-aceptado :
    (en : Contorno) (m : Memoria) (pid tid : ℕ) (archivo : List ℕ)
    → existe_proceso pid m.lista_procesos_recibidos ≡ true
    → es_ok (atender_creacion_hilo en.leer_archivo m pid tid en.basura archivo).1 ≡ true
unfolding atender_creacion_hilo
hilo-aceptado en m pid tid archivo e = rw e refl

-- The laws that the kernel relies on.
pub leyes_de : (en : Contorno) → LeyesMemoria (memoria_de en)
leyes_de en = record {
  conoce = λ m pid. existe_proceso pid m.lista_procesos_recibidos;
  conoce-creacion = λ m pid tamanio e. creado-existe m pid tamanio e;
  creacion_hilo-conoce = λ m pid tid archivo e. hilo-aceptado en m pid tid archivo e;
}

rechazado : (x : Memoria × Respuesta) (m : Memoria) → contestado x ≡ (m, false) → x ≡ (m, error)
rechazado (n, ok) m e = let q : true ≡ false = ap (λ z. z.1) e in cc
rechazado (n, error) m e = let q : n ≡ m = ap (λ z. z.0) e in ap (λ z. (z, error)) q

-- Over the memory module itself, `replanificar_creacion_proceso` ends, in a valid kernel, where the
-- processes of NEW are new: those that go to memory are the first ones of NEW, in their order, and it
-- stops with NEW empty or at a process whose creation the memory answers "ERROR".
pub replanificar-memoria :
    (en : Contorno) (basura : Bool) (s : Sistema Memoria)
    → All EsNuevo s.lista_pcb_new
    → EsKernel s.kernel
    → (s' : Sistema Memoria) × (xs : List Pcb) × (replanificar_creacion_proceso
          (memoria_de en)
          basura
          (suc (length s.lista_pcb_new))
          s
        ≡ some s')
      × (s.lista_pcb_new ≡ xs ++ s'.lista_pcb_new)
      × (s'.lista_pcb_en_memoria ≡ s.lista_pcb_en_memoria ++ map aceptado xs)
      × ((s'.lista_pcb_new ≡ [])
          ⊎ ((p : Pcb) × (ps : List Pcb) × (m : Memoria) × (s'.lista_pcb_new ≡ p ∷ ps)
              × (atender_creacion_proceso m p.pid p.tamanio ≡ (s'.memoria, error))))
      × EsKernel s'.kernel
replanificar-memoria en basura s n v =
    let (s', xs, e, f, g, d, w) = replanificar-total (memoria_de en) basura (leyes_de en) s n v in
    (
      s',
      xs,
      e,
      f,
      g,
      elim d [
        | inl h ↦ inl h
        | inr (p, ps, m, h, i) ↦
            inr (p, ps, m, h, rechazado (atender_creacion_proceso m p.pid p.tamanio) s'.memoria i)
      ],
      w,
    )
