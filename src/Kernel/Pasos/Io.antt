-- ===== src/Kernel/Pasos/Io.antt =====
-- Two threads that ask for the device for input and output (kernel/src/kernel_cpu_dispatch.c).
use tp_2024_2c_nachi_y_los_o.Comun.{ℕ, ◌≡◌, refl, Bool, [], ◌∷◌, length}
use tp_2024_2c_nachi_y_los_o.Kernel.Estado.{HiloId, MaximoTcb, MaximoCola}
use tp_2024_2c_nachi_y_los_o.Kernel.Sistema.{
  PedidosMemoria, pedir_io, bloquear_io, probar_io, Sistema, lanzar,
}
use tp_2024_2c_nachi_y_los_o.Kernel.Pasos.{
  atender_io, bloquear_por_io, probar_lista_io, ejecutar_tarea, correr, Alcanza, aqui, luego,
}
use tp_2024_2c_nachi_y_los_o.Kernel.Transiciones.{bloquear-Conserva}
use tp_2024_2c_nachi_y_los_o.Comun.{◌≤◌}

module _ {S : Type 0} (mem : PedidosMemoria S) (basura : Bool) (mt : MaximoTcb)
    (mc : MaximoCola) where
  -- Two threads ask for the device while nobody uses it: from any kernel with one thread in the CPU at
  -- most, there is an order of the sections of their two `atender_io` after which both stand in the
  -- list, and no launched thread is left that would serve them.
  pub dos_pedidos-parados :
      (s : Sistema S) (a b : HiloId) (t u : ℕ)
      → length s.kernel.lista_tcb_exec ≤ 1
      → (s' : Sistema S) × Alcanza mem basura mt mc
          (record s { lista_en_espera_de_io = []; hilos = pedir_io a t ∷ pedir_io b u ∷ [] })
          s'
        × (s'.lista_en_espera_de_io ≡ (a, t) ∷ (b, u) ∷ [])
        × (s'.hilos ≡ [])
  unfolding ejecutar_tarea atender_io bloquear_por_io probar_lista_io lanzar
  dos_pedidos-parados s a b t u l =
      let (k, e, c, l') = bloquear-Conserva mt mc s.kernel a.tid a.pid_asociado l in
      let (k', e', c', l'') = bloquear-Conserva mt mc k b.tid b.pid_asociado l' in
      let lista = (a, t) ∷ (b, u) ∷ [] in
      let s0 : Sistema S = record s {
        lista_en_espera_de_io = [];
        hilos = pedir_io a t ∷ pedir_io b u ∷ [];
      } in
      let s1 : Sistema S = record s {
        lista_en_espera_de_io = (a, t) ∷ [];
        hilos = pedir_io b u ∷ bloquear_io a t ∷ [];
      } in
      let s2 : Sistema S = record s {
        lista_en_espera_de_io = lista;
        hilos = bloquear_io a t ∷ bloquear_io b u ∷ [];
      } in
      let s3 : Sistema S = record s {
        lista_en_espera_de_io = lista;
        hilos = bloquear_io b u ∷ probar_io a t ∷ [];
        kernel = k;
      } in
      let s4 : Sistema S = record s {
        lista_en_espera_de_io = lista;
        hilos = probar_io a t ∷ probar_io b u ∷ [];
        kernel = k';
      } in
      let s5 : Sistema S = record s4 { hilos = probar_io b u ∷ [] } in
      let s6 : Sistema S = record s4 { hilos = [] } in
      (
        s6,
        luego {s' = s5}
            (luego {s' = s4}
              (luego {s' = s3}
                (luego {s' = s2}
                  (luego {s' = s1}
                    (luego {s' = s0} aqui (correr 0 (pedir_io a t) (pedir_io b u ∷ []) refl refl))
                    (correr 0 (pedir_io b u) (bloquear_io a t ∷ []) refl refl))
                  (correr 0 (bloquear_io a t) (bloquear_io b u ∷ []) refl (rw e refl)))
                (correr 0 (bloquear_io b u) (probar_io a t ∷ []) refl (rw e' refl)))
              (correr 0 (probar_io a t) (probar_io b u ∷ []) refl refl))
            (correr 0 (probar_io b u) [] refl refl),
        refl,
        refl,
      )
