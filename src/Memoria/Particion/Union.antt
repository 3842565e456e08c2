-- ===== src/Memoria/Particion/Union.antt =====
-- `unificar_particiones_libres_contiguas` and `iniciar_particiones` (memoria/src/particion.c and
-- inicializar_memoria.c): the partitions share out the memory, before and after.
use tp_2024_2c_nachi_y_los_o.Comun.{
  lt_int, false, ℕ, suc, ◌+◌, ◌≤◌, ◌<◌, ◌≡◌, ◌∙◌, ◌&&◌, some, List, [], ◌∷◌, arith, ltb, leb,
  if◌then◌else◌, length, All, add32,
}
use mathlib.Core.List.{Perm}
use mathlib.Core.List.Perm
use tp_2024_2c_nachi_y_los_o.Memoria.Estado.{Esquema, fijas, dinamicas, Particion}
use tp_2024_2c_nachi_y_los_o.Memoria.Particion.{
  Commons, Ordenada, nada, una, mas, iniciar_fijas, iniciar_particiones,
  ordenar_particiones_por_base, unificar_particiones_libres_contiguas,
}
use tp_2024_2c_nachi_y_los_o.Memoria.Particion.Cobertura.{
  contiene, cubre, cubre_libre, cubre_libre-perm, EsBuena, EsMosaico, EsMosaico-perm,
}
use tp_2024_2c_nachi_y_los_o.Memoria.Particion.Rondas.{
  unir-total, Creciente, SinVecinas, pasada-SinVecinas,
}

ordenar-perm : (c : Commons) (ps : List Particion) → Perm (ordenar_particiones_por_base c ps) ps
unfolding ordenar_particiones_por_base
ordenar-perm c ps = c.list_sort_perm _ ps

menor_o_igual :
    (p q : Particion) (tam : ℕ)
    → tam < 2147483648
    → EsBuena tam p
    → EsBuena tam q
    → lt_int q.base p.base ≡ false
    → p.base ≤ q.base
menor_o_igual p q tam h b d k = ground (arith, b.dentro, d.dentro)

-- The bases of sorted partitions are below 2 ^ 31, where the order of `int` is that of the numbers.
ordenada-Creciente :
    (tam : ℕ) (ps : List Particion)
    → tam < 2147483648
    → All (EsBuena tam) ps
    → Ordenada (λ p. p.base) ps
    → Creciente ps
ordenada-Creciente tam [] h b nada = tt
ordenada-Creciente tam (p ∷ []) h b (una q) = tt
ordenada-Creciente tam (p ∷ q ∷ ps) h b (mas x y l k o) =
    (menor_o_igual p q tam h b.0 b.1.0 k, ordenada-Creciente tam (q ∷ ps) h b.1 o)

-- The union always ends, and its result shares out the memory as the partitions before did: the free
-- addresses stay free, the taken ones taken. In an order of increasing bases the result has no two
-- neighbours that are both free and touch. The memory is below 2 ^ 31 bytes.
pub unificar-EsMosaico :
    (c : Commons) (tam : ℕ) (ps : List Particion)
    → tam < 2147483648
    → EsMosaico tam ps
    → (qs : List Particion) × (rs : List Particion) × (unificar_particiones_libres_contiguas c ps
        ≡ some qs)
      × EsMosaico tam qs
      × ((a : ℕ) → cubre_libre a qs ≡ cubre_libre a ps)
      × Perm qs rs
      × Creciente rs
      × SinVecinas rs
unfolding unificar_particiones_libres_contiguas ordenar_particiones_por_base
unificar-EsMosaico c tam ps h m =
    let ordenadas = ordenar_particiones_por_base c ps in
    let m' : EsMosaico tam ordenadas =
      EsMosaico-perm tam ps ordenadas (Perm.symm (ordenar-perm c ps)) m in
    let (rs, u, s, k, d, o, b) =
      unir-total tam h (suc (length ordenadas)) ordenadas (omega arith) m'.buenas in
    let n : EsMosaico tam rs = record { cubre_una = λ a. k a ∙ m'.cubre_una a; buenas = b } in
    (
      ordenar_particiones_por_base c rs,
      rs,
      rw u,
      EsMosaico-perm tam rs _ (Perm.symm (ordenar-perm c rs)) n,
      λ a.
          cubre_libre-perm a _ rs (ordenar-perm c rs)
          ∙ (d a ∙ cubre_libre-perm a ordenadas ps (ordenar-perm c ps)),
      ordenar-perm c rs,
      o (ordenada-Creciente tam ordenadas h m'.buenas (c.list_sort_ordena (λ p. p.base) ps)),
      pasada-SinVecinas rs s,
    )

unfoldable pub suma : List ℕ → ℕ
suma [] = 0
suma (t ∷ ts) = t + suma ts

entero : (s t : ℕ) → s + t < 2147483648 → add32 s t ≡ s + t
entero s t h = omega arith

iniciar_fijas-cubre :
    (a i s : ℕ) (ts : List ℕ)
    → s + suma ts < 2147483648
    → cubre a (iniciar_fijas i s ts) ≡ (if leb s a && ltb a (s + suma ts) then 1 else 0)
unfolding iniciar_fijas cubre contiene suma
iniciar_fijas-cubre a i s [] h = ground arith
iniciar_fijas-cubre a i s (t ∷ ts) h =
    rw (entero s t (omega arith)) (ground (arith, iniciar_fijas-cubre a (i + 1) (s + t) ts))

iniciar_fijas-EsBuena :
    (tam i s : ℕ) (ts : List ℕ)
    → s + suma ts ≤ tam
    → tam < 2147483648
    → All (EsBuena tam) (iniciar_fijas i s ts)
unfolding iniciar_fijas suma
iniciar_fijas-EsBuena tam i s [] h k = tt
iniciar_fijas-EsBuena tam i s (t ∷ ts) h k = (
  omega arith,
  rw (entero s t (omega arith)) (iniciar_fijas-EsBuena tam (i + 1) (s + t) ts (omega arith) k),
)

-- The size that the first partitions share out: the sum of those configured, or the whole memory.
abbrev pub tamanio_inicial : Esquema → ℕ → List ℕ → ℕ
tamanio_inicial fijas tam_memoria tamanios = suma tamanios
tamanio_inicial dinamicas tam_memoria tamanios = tam_memoria

-- At the start every address of the memory lies in exactly one partition, in both schemes: with
-- fixed partitions the memory is the sum of the configured sizes, below 2 ^ 31.
pub iniciar_particiones-EsMosaico :
    (e : Esquema) (tam_memoria : ℕ) (tamanios : List ℕ)
    → tamanio_inicial e tam_memoria tamanios < 2147483648
    → EsMosaico
        (tamanio_inicial e tam_memoria tamanios)
        (iniciar_particiones e tam_memoria tamanios)
unfolding iniciar_particiones cubre contiene
iniciar_particiones-EsMosaico fijas tam tamanios h = record {
  cubre_una = λ a. ground (arith, iniciar_fijas-cubre a 0 0 tamanios (omega arith));
  buenas = iniciar_fijas-EsBuena (suma tamanios) 0 0 tamanios (omega arith) (omega arith);
}
iniciar_particiones-EsMosaico dinamicas tam tamanios h = record {
  cubre_una = λ a. ground arith;
  buenas = (omega arith, tt);
}
