-- ===== src/Memoria/Hilo/Pedidos.antt =====
-- What the CPU reads and writes of a thread in memory (memoria/src/memoria_cpu.c, hilo.c).
use tp_2024_2c_nachi_y_los_o.Comun.{
  ℕ, ◌≡◌, refl, sym, ap, ◌∙◌, ◌≢◌, ◌⊎◌, inl, inr, true, false, none, some, List, [], ◌∷◌, ◌++◌,
  arith, ltb, if◌then◌else◌, Bool-cases, Option-cases, if_si, if_no, length, get_elem?, sub32,
  menor_length,
}
use tp_2024_2c_nachi_y_los_o.Utils.Contexto.{RegistrosCpu, Contexto, cargar_registros_al_contexto}
use tp_2024_2c_nachi_y_los_o.Memoria.Estado.{Proceso, Hilo, Memoria}
use tp_2024_2c_nachi_y_los_o.Memoria.Proceso.{ok, error, buscar_proceso, existe_proceso}
use tp_2024_2c_nachi_y_los_o.Memoria.Hilo.{
  registros_en_cero, crear_hilo, es_hilo_buscado, buscar_hilo, actualizar_hilo,
  actualizar_contexto_hilo, obtener_instruccion_por_indice, atender_creacion_hilo,
  atender_peticion_contexto, atender_actualizacion_contexto, atender_peticion_instruccion,
}

es_hilo_buscado-ok :
    (pid tid : ℕ) (h : Hilo)
    → es_hilo_buscado pid tid h ≡ true
    → (h.pid_asociado ≡ pid) × (h.tid ≡ tid)
es_hilo_buscado-ok pid tid h e = (ground arith, ground arith)

otro_hilo :
    (pid tid pid' tid' : ℕ) (h : Hilo)
    → es_hilo_buscado pid tid h ≡ true
    → (pid ≢ pid') ⊎ (tid ≢ tid')
    → es_hilo_buscado pid' tid' h ≡ false
otro_hilo pid tid pid' tid' h e ne = ground arith

-- The first thread that fits is the one that changes.
buscar-actualizar :
    (pid tid : ℕ) (f : Hilo → Hilo) (hs : List Hilo) (h : Hilo)
    → ((k : Hilo) → es_hilo_buscado pid tid (f k) ≡ es_hilo_buscado pid tid k)
    → buscar_hilo pid tid hs ≡ some h
    → buscar_hilo pid tid (actualizar_hilo pid tid f hs) ≡ some (f h)
unfolding buscar_hilo actualizar_hilo
buscar-actualizar pid tid f [] h k e = cc
buscar-actualizar pid tid f (x ∷ hs) h k e = elim (Bool-cases (es_hilo_buscado pid tid x)) [
  | inl t ↦
      (let q : some x ≡ some h = sym (if_si _ _ _ t) ∙ e in
        let q' : x ≡ h = cc in rw t (rw (k x, t) (rw q' refl)))
  | inr t ↦
      (let q : buscar_hilo pid tid hs ≡ some h = sym (if_no _ _ _ t) ∙ e in
        rw t (rw t (buscar-actualizar pid tid f hs h k q)))
]

-- A search for another thread does not see the change.
buscar-actualizar_otro :
    (pid tid pid' tid' : ℕ) (f : Hilo → Hilo) (hs : List Hilo)
    → ((k : Hilo) → es_hilo_buscado pid' tid' (f k) ≡ es_hilo_buscado pid' tid' k)
    → (pid ≢ pid') ⊎ (tid ≢ tid')
    → buscar_hilo pid' tid' (actualizar_hilo pid tid f hs) ≡ buscar_hilo pid' tid' hs
unfolding buscar_hilo actualizar_hilo
buscar-actualizar_otro pid tid pid' tid' f [] k ne = refl
buscar-actualizar_otro pid tid pid' tid' f (x ∷ hs) k ne =
    elim (Bool-cases (es_hilo_buscado pid tid x)) [
      | inl t ↦ (let o = otro_hilo pid tid pid' tid' x t ne in rw t (rw (k x, o) refl))
      | inr t ↦
          (rw t (
            ap (λ z. if es_hilo_buscado pid' tid' x then some x else z)
              (buscar-actualizar_otro pid tid pid' tid' f hs k ne)))
    ]

buscar-agregado :
    (pid tid : ℕ) (hs : List Hilo) (h : Hilo)
    → es_hilo_buscado pid tid h ≡ true
    → buscar_hilo pid tid hs ≡ none
    → buscar_hilo pid tid (hs ++ h ∷ []) ≡ some h
unfolding buscar_hilo
buscar-agregado pid tid [] h t e = rw t refl
buscar-agregado pid tid (x ∷ hs) h t e = elim (Bool-cases (es_hilo_buscado pid tid x)) [
  | inl u ↦ (let q : some x ≡ none = sym (if_si _ _ _ u) ∙ e in cc)
  | inr u ↦
      (let q : buscar_hilo pid tid hs ≡ none = sym (if_no _ _ _ u) ∙ e in
        rw u (buscar-agregado pid tid hs h t q))
]

buscar_hilo-ok :
    (pid tid : ℕ) (hs : List Hilo) (h : Hilo)
    → buscar_hilo pid tid hs ≡ some h
    → (h.pid_asociado ≡ pid) × (h.tid ≡ tid)
unfolding buscar_hilo
buscar_hilo-ok pid tid [] h e = cc
buscar_hilo-ok pid tid (x ∷ hs) h e = elim (Bool-cases (es_hilo_buscado pid tid x)) [
  | inl t ↦
      (let q : some x ≡ some h = sym (if_si _ _ _ t) ∙ e in
        let q' : x ≡ h = cc in rw (← q') (es_hilo_buscado-ok pid tid x t))
  | inr t ↦ (buscar_hilo-ok pid tid hs h (sym (if_no _ _ _ t) ∙ e))
]

actualizada : Memoria → Contexto → Memoria
actualizada m c = record m {
  list_hilos_recibidos =
      actualizar_hilo c.pid c.tid (actualizar_contexto_hilo c) m.list_hilos_recibidos;
}

actualizacion-encontrado :
    (m : Memoria) (c : Contexto) (h : Hilo)
    → buscar_hilo c.pid c.tid m.list_hilos_recibidos ≡ some h
    → atender_actualizacion_contexto m c ≡ (actualizada m c, ok)
unfolding atender_actualizacion_contexto actualizada
actualizacion-encontrado m c h e = rw (e, atender_actualizacion_contexto) refl

pub actualizacion-ok :
    (m : Memoria) (x : Contexto) (h : Hilo)
    → buscar_hilo x.pid x.tid m.list_hilos_recibidos ≡ some h
    → (atender_actualizacion_contexto m x).1 ≡ ok
unfolding atender_actualizacion_contexto
actualizacion-ok m x h e = rw (e, atender_actualizacion_contexto) refl

actualizacion-sin_hilo :
    (m : Memoria) (c : Contexto)
    → buscar_hilo c.pid c.tid m.list_hilos_recibidos ≡ none
    → atender_actualizacion_contexto m c ≡ (m, error)
unfolding atender_actualizacion_contexto
actualizacion-sin_hilo m c e = rw (e, atender_actualizacion_contexto) refl

peticion-encontrado :
    (m : Memoria) (pid tid : ℕ) (c : Contexto) (h : Hilo) (p : Proceso)
    → buscar_hilo pid tid m.list_hilos_recibidos ≡ some h
    → buscar_proceso pid m.lista_procesos_recibidos ≡ some p
    → atender_peticion_contexto m pid tid c
      ≡ some (
          cargar_registros_al_contexto
            (record c {
              pid = h.pid_asociado;
              tid = h.tid;
              maximo_pc = h.maximo_pc;
              r_cpu = record (c.r_cpu) { base = p.base; limite = p.limite };
            })
            h.registros)
unfolding atender_peticion_contexto
peticion-encontrado m pid tid c h p e k = simp (e, k)

-- The CPU that stores the context of a thread and asks for it again gets the registers that it
-- stored, with the base and the limit of the process and the last line of the thread: where the
-- thread and the process exist.
pub peticion-actualizacion_contexto :
    (m : Memoria) (c c₀ : Contexto) (h : Hilo) (p : Proceso)
    → buscar_hilo c.pid c.tid m.list_hilos_recibidos ≡ some h
    → buscar_proceso c.pid m.lista_procesos_recibidos ≡ some p
    → atender_peticion_contexto ((atender_actualizacion_contexto m c).0) c.pid c.tid c₀
      ≡ some (record {
        pid = c.pid;
        tid = c.tid;
        verificador = c₀.verificador;
        maximo_pc = h.maximo_pc;
        r_cpu = record (c.r_cpu) { base = p.base; limite = p.limite };
      })
unfolding actualizada actualizar_contexto_hilo cargar_registros_al_contexto
peticion-actualizacion_contexto m c c₀ h p e k =
    let (i, j) = buscar_hilo-ok c.pid c.tid m.list_hilos_recibidos h e in
    let b =
      buscar-actualizar c.pid c.tid (actualizar_contexto_hilo c) m.list_hilos_recibidos h
        (λ z. refl) e in
    rw (actualizacion-encontrado m c h e) (
      peticion-encontrado (actualizada m c) c.pid c.tid c₀ (actualizar_contexto_hilo c h) p b k
      ∙ rw (i, j) refl)

-- Storing the context of a thread changes the context of no other thread.
pub peticion-actualizacion_ajena :
    (m : Memoria) (c c₀ : Contexto) (pid tid : ℕ)
    → (c.pid ≢ pid) ⊎ (c.tid ≢ tid)
    → atender_peticion_contexto ((atender_actualizacion_contexto m c).0) pid tid c₀
      ≡ atender_peticion_contexto m pid tid c₀
unfolding atender_peticion_contexto actualizada actualizar_contexto_hilo
peticion-actualizacion_ajena m c c₀ pid tid ne =
    elim (Option-cases (buscar_hilo c.pid c.tid m.list_hilos_recibidos)) [
      | inl e ↦ (rw (actualizacion-sin_hilo m c e) refl)
      | inr (h, e) ↦
          (rw (actualizacion-encontrado m c h e) (
            rw
              (buscar-actualizar_otro c.pid c.tid pid tid (actualizar_contexto_hilo c)
                m.list_hilos_recibidos (λ z. refl) ne)
              refl))
    ]

-- A thread that the kernel creates in a process that exists, under a number that no thread of the
-- process has, is answered OK, and each program counter within the file is answered by its line.
pub peticion_instruccion-creacion_hilo :
    (leer_archivo : List ℕ → List (List ℕ)) (m : Memoria) (pid tid i : ℕ) (r : RegistrosCpu)
    (archivo linea : List ℕ)
    → existe_proceso pid m.lista_procesos_recibidos ≡ true
    → buscar_hilo pid tid m.list_hilos_recibidos ≡ none
    → get_elem? (leer_archivo archivo) i ≡ some linea
    → ((atender_creacion_hilo leer_archivo m pid tid r archivo).1 ≡ ok)
      × (atender_peticion_instruccion
            ((atender_creacion_hilo leer_archivo m pid tid r archivo).0)
            pid
            tid
            i
          ≡ some (some linea))
unfolding atender_creacion_hilo crear_hilo atender_peticion_instruccion
    obtener_instruccion_por_indice
peticion_instruccion-creacion_hilo leer_archivo m pid tid i r archivo linea e n g =
    let l = menor_length (leer_archivo archivo) i linea g in
    let t : ltb i (length (leer_archivo archivo)) ≡ true = ground arith in
    let h : Hilo = record {
      pid_asociado = pid;
      tid = tid;
      registros = registros_en_cero r;
      lista_instrucciones = leer_archivo archivo;
      maximo_pc = sub32 (length (leer_archivo archivo)) 1;
    } in
    let s : es_hilo_buscado pid tid h ≡ true = ground arith in
    (rw e refl, rw (e, buscar-agregado pid tid m.list_hilos_recibidos h s n, t, g) refl)
