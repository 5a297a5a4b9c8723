-- ===== src/Memoria/Resize.antt =====
-- `resize_proceso` of memoria/src/main.c: what it answers and what it leaves, on every branch.
use tp_2024_1c_pccsc.Common.{
  ℕ, zero, suc, ◌+◌, ◌-◌, ◌/◌, ◌≤◌, ◌<◌, min, true, false, none, some, List, [], ◌∷◌, ◌++◌, ◌≡◌,
  ◌≢◌, ◌⊎◌, refl, sym, ◌∙◌, ap, arith, length, count, bit, ltb, subst, if◌then◌else◌, ◌>>=◌, inl,
  inr, take, count-append, length-take, ne→==, lt→ltb, ltb→lt, ltb→ge, Bool-cases,
}
use tp_2024_1c_pccsc.Common.Int.{ℤ, pos, negsuc, sub_ℕ}
use tp_2024_1c_pccsc.Common.Bitarray.{Bitarray}
use tp_2024_1c_pccsc.Memoria.{
  Pagina, Pcb, Memoria, buscar_pcb, guardar_tabla, crear_paginas, libres_desde, marcar_ocupados,
  ampliar_proceso, reducir_proceso, get_element_from_pid, resize_ampliar, resize_reducir,
  resize_paginas, resize_proceso, cant_paginas_ocupadas_proceso, suficiente_memoria,
  paginas_solicitadas, continuar, out_of_memory,
}
use tp_2024_1c_pccsc.Memoria.Marcos.{
  Acotados-mono, libres_desde-Acotados, count-libres_desde, max_bit-marcar_ocupados,
  test-marcar_ocupados, contar_libres, buscar_marcos_libres-some, buscar_marcos_libres-none,
  length-libres_desde, Acotados,
}
use tp_2024_1c_pccsc.Memoria.Paginas.{
  marcos, crear_paginas_lem, count-guardar_tabla, buscar-guardar_tabla, Acotados-count, count-take,
  liberar_paginas-none, crear_paginas-append,
}
use tp_2024_1c_pccsc.Memoria.Invariante.{Inv, Inv-of, tabla_propia, liberar_proceso, ocupado}

-- A table cut to, or grown to, `n` pages keeps the pages that both have.
abbrev pub MismasPaginas : List Pagina → List Pagina → Type 0
MismasPaginas s t = take (min (length s) (length t)) s ≡ take (min (length s) (length t)) t

-- `take` of a `take`, and of a list with more behind it.
take-take : (s : List Pagina) (n k : ℕ) → n ≤ k → take n s ≡ take n (take k s)
take-take s zero k h = refl
take-take s (suc n) zero h = absurd (omega arith)
take-take [] (suc n) (suc k) h = refl
take-take (p ∷ s) (suc n) (suc k) h = ap (◌∷◌ p) (take-take s n k (omega arith))

take-append : (s t : List Pagina) (n : ℕ) → n ≤ length s → take n (s ++ t) ≡ take n s
take-append s t zero h = refl
take-append [] t (suc n) h = absurd (omega arith)
take-append (p ∷ s) t (suc n) h = ap (◌∷◌ p) (take-append s t n (omega arith))

crecida-MismasPaginas : (s t u : List Pagina) → t ≡ s ++ u → MismasPaginas s t
crecida-MismasPaginas s t u e =
    let n = min (length s) (length t) in sym (take-append s u n (omega arith)) ∙ ap (take n) (sym e)

cortada-MismasPaginas : (s : List Pagina) (k : ℕ) → MismasPaginas s (take k s)
cortada-MismasPaginas s k =
    take-take s (min (length s) (length (take k s))) k (omega (arith, length-take k s))

igual-MismasPaginas : (s : List Pagina) → MismasPaginas s s
igual-MismasPaginas s = refl

module _ ⦃bits : Bitarray⦄ where
  open bits use {Bits, max_bit, test_bit}

  -- How many frames are free.
  abbrev pub libres : Memoria → ℕ
  libres m = contar_libres m.bitmap_marcos m.cantidad_marcos_totales 0

  -- Process `p` has `n` pages now. As many as it had before, or all `n` if they are fewer, are the
  -- pages that it had, in the same places. The tables of the other processes and the user space are
  -- as before.
  pub record Redimensionado (m : Memoria) (pid : ℕ) (p : Pcb) (n : ℕ) (m' : Memoria) : Type 0 where
    pub inv : Inv m'
    pub tabla : List Pagina
    pub encontrado :
        buscar_pcb pid m'.lista_pcb_tablas_paginas ≡ some (record p { tabla_paginas = tabla })
    pub paginas : length tabla ≡ n
    pub mismas : MismasPaginas p.tabla_paginas tabla
    pub otros :
        (j : ℕ)
        → pid ≢ j
        → buscar_pcb j m'.lista_pcb_tablas_paginas ≡ buscar_pcb j m.lista_pcb_tablas_paginas
    pub espacio : m'.memoria ≡ m.memoria

  -- Saving a table with a bitmap that agrees with it.
  guardar-Redimensionado :
      (m : Memoria) (pid n : ℕ) (p : Pcb) (b : Bits) (t : List Pagina)
      → Inv m
      → length t ≡ n
      → MismasPaginas p.tabla_paginas t
      → buscar_pcb pid m.lista_pcb_tablas_paginas ≡ some p
      → max_bit b ≡ max_bit m.bitmap_marcos
      → ((i : ℕ)
          → count i (marcos t) + ocupado m i
            ≡ count i (marcos p.tabla_paginas)
              + (if ltb i m.cantidad_marcos_totales then bit (test_bit b i) else 0))
      → Redimensionado m pid p n (record m {
        bitmap_marcos = b;
        lista_pcb_tablas_paginas = guardar_tabla pid t m.lista_pcb_tablas_paginas;
      })
  guardar-Redimensionado m pid n p b t v largo mismas e size cuenta =
      let ps = m.lista_pcb_tablas_paginas in
      record {
        inv =
            Inv-of m b (guardar_tabla pid t ps) v size
              (λ i. omega (arith, cuenta i, v.duenio i, count-guardar_tabla pid i t ps p e));
        tabla = t;
        encontrado = ground (arith, buscar-guardar_tabla pid pid t ps p e);
        paginas = largo;
        mismas = mismas;
        otros = λ j ne. ground (arith, buscar-guardar_tabla pid j t ps p e, ne→== pid j ne);
        espacio = refl;
      }

  -- The growing branch, when enough frames are free.
  resize_ampliar_lem :
      (m : Memoria) (pid k : ℕ) (p : Pcb)
      → Inv m
      → buscar_pcb pid m.lista_pcb_tablas_paginas ≡ some p
      → k ≤ libres m
      → (m' : Memoria) × (resize_ampliar pid k m ≡ some (continuar, m'))
        × Redimensionado m pid p (length p.tabla_paginas + k) m'
  unfolding resize_ampliar ampliar_proceso get_element_from_pid
  resize_ampliar_lem m pid k p v e h =
      let n = m.cantidad_marcos_totales in
      let b = m.bitmap_marcos in
      let fs = libres_desde b n 0 k in
      let ac : Acotados (max_bit b) fs =
        Acotados-mono fs (omega (arith, v.bitmap)) (libres_desde-Acotados b n 0 k) in
      let r = crear_paginas_lem p.tabla_paginas fs in
      let (u, nuevas) = crear_paginas-append p.tabla_paginas fs in
      let t = crear_paginas p.tabla_paginas fs in
      let largo : length t ≡ length p.tabla_paginas + k =
        omega (arith, r.1, length-libres_desde b n 0 k) in
      let cuenta : (i : ℕ) → count i (marcos t) ≡ count i (marcos p.tabla_paginas) + count i fs =
        λ i. ap (count i) r.0 ∙ count-append i (marcos p.tabla_paginas) fs in
      (
        record m {
          bitmap_marcos = marcar_ocupados b fs;
          lista_pcb_tablas_paginas = guardar_tabla pid t m.lista_pcb_tablas_paginas;
        },
        rw (buscar_marcos_libres-some n k b h, resize_ampliar) (rw (e, ◌>>=◌) refl),
        guardar-Redimensionado m pid (length p.tabla_paginas + k) p (marcar_ocupados b fs) t v largo
            (crecida-MismasPaginas p.tabla_paginas t u nuevas) e (max_bit-marcar_ocupados b fs ac)
            (λ i. ground (
              arith,
              cuenta i,
              test-marcar_ocupados b fs i ac (count-libres_desde b n 0 k i),
              Acotados-count (0 + n) i fs (libres_desde-Acotados b n 0 k),
            )),
      )

  -- The shrinking branch.
  resize_reducir_lem :
      (m : Memoria) (pid k : ℕ) (p : Pcb)
      → Inv m
      → buscar_pcb pid m.lista_pcb_tablas_paginas ≡ some p
      → k ≤ length p.tabla_paginas
      → (m' : Memoria) × (resize_reducir pid k m ≡ some (continuar, m'))
        × Redimensionado m pid p (length p.tabla_paginas - k) m'
  unfolding resize_reducir reducir_proceso get_element_from_pid
  resize_reducir_lem m pid k p v e h =
      let (b, run, size, cuenta) = liberar_proceso m pid k p v e h in
      let t = take (length p.tabla_paginas - k) p.tabla_paginas in
      let largo : length t ≡ length p.tabla_paginas - k =
        omega (arith, length-take (length p.tabla_paginas - k) p.tabla_paginas) in
      (
        record m {
          bitmap_marcos = b;
          lista_pcb_tablas_paginas = guardar_tabla pid t m.lista_pcb_tablas_paginas;
        },
        rw (e, ◌>>=◌) (rw (run, ◌>>=◌) refl),
        guardar-Redimensionado m pid (length p.tabla_paginas - k) p b t v largo
            (cortada-MismasPaginas p.tabla_paginas (length p.tabla_paginas - k)) e size
            (λ i. ground (
              arith,
              cuenta i,
              tabla_propia m pid p v e i,
              count-take (length p.tabla_paginas - k) i p.tabla_paginas,
            )),
      )

  -- With the process known, a request of `n` pages, when enough frames are free.
  resize_paginas_lem :
      (m : Memoria) (pid n : ℕ) (p : Pcb)
      → Inv m
      → buscar_pcb pid m.lista_pcb_tablas_paginas ≡ some p
      → n ≤ length p.tabla_paginas + libres m
      → (m' : Memoria) × (resize_paginas pid (length p.tabla_paginas) (pos n) m
          ≡ some (continuar, m'))
        × Redimensionado m pid p n m'
  unfolding resize_paginas
  resize_paginas_lem m pid n p v e h =
      let l = length p.tabla_paginas in
      elim (Bool-cases (ltb l n)) [
        | inl mas ↦
            rw (mas, resize_paginas)
              (subst
                (λ x.
                  (m' : Memoria) × (resize_ampliar pid (n - l) m ≡ some (continuar, m'))
                  × Redimensionado m pid p x m')
                (omega (arith, ltb→lt l n mas))
                (resize_ampliar_lem m pid (n - l) p v e (omega (arith, ltb→lt l n mas))))
        | inr nomas ↦
            rw (nomas, resize_paginas)
              (elim (Bool-cases (ltb n l)) [
                | inl menos ↦ rw menos (
                    subst
                      (λ x.
                        (m' : Memoria) × (resize_reducir pid (l - n) m ≡ some (continuar, m'))
                        × Redimensionado m pid p x m')
                      (omega (arith, ltb→lt n l menos))
                      (resize_reducir_lem m pid (l - n) p v e (omega arith)))
                | inr igual ↦ rw igual (
                  m,
                  refl,
                  record {
                    inv = v;
                    tabla = p.tabla_paginas;
                    encontrado = e;
                    paginas = omega (arith, ltb→ge l n nomas, ltb→ge n l igual);
                    mismas = igual-MismasPaginas p.tabla_paginas;
                    otros = λ j ne. refl;
                    espacio = refl;
                  },
                )
              ])
      ]

  -- Without enough free frames the answer is OUT_OF_MEMORY and nothing changes.
  resize_paginas_out :
      (m : Memoria) (pid ocupadas n : ℕ)
      → ocupadas + libres m < n
      → resize_paginas pid ocupadas (pos n) m ≡ some (out_of_memory, m)
  unfolding resize_paginas resize_ampliar
  resize_paginas_out m pid ocupadas n h = rw (lt→ltb ocupadas n (omega arith)) (
      rw
        (
          buscar_marcos_libres-none m.cantidad_marcos_totales (n - ocupadas) m.bitmap_marcos
              (omega arith),
          resize_ampliar,
        )
        refl)

  suficiente-pos :
      (m : Memoria) (n : ℕ) → n ≤ m.config.tam_memoria → suficiente_memoria (pos n) m ≡ true
  unfolding suficiente_memoria
  suficiente-pos m n h = ground arith

  insuficiente-pos :
      (m : Memoria) (n : ℕ) → m.config.tam_memoria < n → suficiente_memoria (pos n) m ≡ false
  unfolding suficiente_memoria
  insuficiente-pos m n h = ground arith

  suficiente-negsuc : (m : Memoria) (n : ℕ) → suficiente_memoria (negsuc n) m ≡ true
  unfolding suficiente_memoria
  suficiente-negsuc m n = ground arith

  -- Past the first check, with the process found.
  resize_hasta :
      (m : Memoria) (pid : ℕ) (z : ℤ) (p : Pcb)
      → suficiente_memoria z m ≡ true
      → buscar_pcb pid m.lista_pcb_tablas_paginas ≡ some p
      → resize_proceso pid z m
        ≡ resize_paginas pid (length p.tabla_paginas) (paginas_solicitadas z m.config.tam_pagina) m
  unfolding resize_proceso cant_paginas_ocupadas_proceso get_element_from_pid
  resize_hasta m pid z p s e = rw s (rw (e, ◌>>=◌) refl)

  -- A RESIZE of an existing process to `n` bytes succeeds exactly if the size does not pass the
  -- memory's and its pages, rounded up, do not pass those that the process has and the free frames
  -- together. Then the process has that many pages, of which those it had before keep their
  -- places, from the first on; every other process and the user space are as before, and the invariant
  -- holds. Otherwise the answer is OUT_OF_MEMORY and the memory is as before.
  pub resize_proceso_lem :
      (m : Memoria) (pid n : ℕ) (p : Pcb)
      → Inv m
      → buscar_pcb pid m.lista_pcb_tablas_paginas ≡ some p
      → let k = (n + m.config.tam_pagina - 1) / m.config.tam_pagina in
        (n ≤ m.config.tam_memoria
          → k ≤ length p.tabla_paginas + libres m
          → (m' : Memoria) × (resize_proceso pid (pos n) m ≡ some (continuar, m'))
            × Redimensionado m pid p k m')
        × ((m.config.tam_memoria < n) ⊎ (length p.tabla_paginas + libres m < k)
            → resize_proceso pid (pos n) m ≡ some (out_of_memory, m))
  unfolding resize_proceso suficiente_memoria cant_paginas_ocupadas_proceso paginas_solicitadas
      get_element_from_pid
  resize_proceso_lem m pid n p v e = (
    λ entra hay.
        rw (resize_hasta m pid (pos n) p (suficiente-pos m n entra) e, paginas_solicitadas)
          (resize_paginas_lem m pid ((n + m.config.tam_pagina - 1) / m.config.tam_pagina) p v e
            hay),
    λ falla. elim (Bool-cases (ltb m.config.tam_memoria n)) [
      | inl grande ↦ rw (insuficiente-pos m n (ltb→lt _ _ grande), resize_proceso) refl
      | inr entra ↦
          rw
            (
              resize_hasta m pid (pos n) p (suficiente-pos m n (ltb→ge _ _ entra)) e,
              paginas_solicitadas,
            )
            (resize_paginas_out m pid (length p.tabla_paginas)
              ((n + m.config.tam_pagina - 1) / m.config.tam_pagina)
              (omega (arith, falla, ltb→ge _ _ entra)))
    ],
  )

  -- In a memory that keeps its invariant, a RESIZE of an existing process to a size that is negative
  -- by a page or more brings the server down: `liberar_paginas` goes on past the first page.
  pub resize_negativo :
      (m : Memoria) (pid n : ℕ) (p : Pcb)
      → Inv m
      → buscar_pcb pid m.lista_pcb_tablas_paginas ≡ some p
      → m.config.tam_pagina ≤ n + 1
      → resize_proceso pid (negsuc n) m ≡ none
  unfolding paginas_solicitadas resize_paginas resize_reducir reducir_proceso get_element_from_pid
  resize_negativo m pid n p v e h =
      let l = length p.tabla_paginas in
      let q = (n + 1) / m.config.tam_pagina in
      let q_pos : 0 < q = grind (arith, v.pagina_pos) in
      let z : sub_ℕ 0 q ≡ negsuc (q - 1) = ground arith in
      rw (resize_hasta m pid (negsuc n) p (suficiente-negsuc m n) e, paginas_solicitadas)
        (rw z (
          rw (e, ◌>>=◌)
            (rw
              (
                liberar_paginas-none p.tabla_paginas (l + (q - 1) + 1) m.bitmap_marcos
                    (omega arith),
                ◌>>=◌,
              )
              refl)))
