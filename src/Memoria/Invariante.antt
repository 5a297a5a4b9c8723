-- ===== src/Memoria/Invariante.antt =====
-- The invariant of the memory server, and that each request of kernel and CPU keeps it.
use tp_2024_1c_pccsc.Common.{
  ℕ, ◌+◌, ◌-◌, ◌*◌, ◌/◌, ◌≤◌, ◌<◌, some, List, [], ◌∷◌, ◌≡◌, refl, ap, arith, length, count, bit,
  ltb, if◌then◌else◌, ◌>>=◌, take, length-replicate, append-nil,
}
use tp_2024_1c_pccsc.Common.Bitarray.{Bitarray}
use tp_2024_1c_pccsc.Memoria.{
  ConfigStruct, Pcb, Memoria, buscar_pcb, quitar_pcb, liberar_paginas, init_memoria, crear_proceso,
  eliminar_proceso,
}
use tp_2024_1c_pccsc.Memoria.Marcos.{Acotados, Acotados-mono, init_bitmap_marcos_lem}
use tp_2024_1c_pccsc.Memoria.Paginas.{
  marcos, marcos_procesos, marcos_procesos-append, count-quitar_pcb, liberar_paginas_lem,
}

module _ ⦃bits : Bitarray⦄ where
  open bits use {Bits, max_bit, test_bit}

  -- The number of pages, of all processes together, that lie in frame `i`.
  abbrev pub usos : Memoria → ℕ → ℕ
  usos m i = count i (marcos_procesos m.lista_pcb_tablas_paginas)

  -- 1 for a frame of the memory whose bit is set, and 0 for any other number.
  abbrev pub ocupado : Memoria → ℕ → ℕ
  ocupado m i = if ltb i m.cantidad_marcos_totales then bit (test_bit m.bitmap_marcos i) else 0

  -- The memory is whole, the bitmap covers it, and a frame's bit is set exactly if one page of one
  -- process lies in it; no frame is shared and none is lost.
  pub record Inv (m : Memoria) : Type 0 where
    pub pagina_pos : 0 < m.config.tam_pagina
    pub totales : m.cantidad_marcos_totales ≡ m.config.tam_memoria / m.config.tam_pagina
    pub espacio : length m.memoria ≡ m.cantidad_marcos_totales * m.config.tam_pagina
    pub bitmap : m.cantidad_marcos_totales ≤ max_bit m.bitmap_marcos
    pub duenio : (i : ℕ) → usos m i ≡ ocupado m i

  -- `init_memoria` establishes the invariant whatever bytes `malloc` gave to the bitmap, provided
  -- that the configured page is not empty.
  pub init_memoria-Inv : (c : ConfigStruct) → 0 < c.tam_pagina → Inv (init_memoria c)
  unfolding init_memoria
  init_memoria-Inv c h =
      let n = c.tam_memoria / c.tam_pagina in
      let r = init_bitmap_marcos_lem n in
      record {
        pagina_pos = h;
        totales = refl;
        espacio = length-replicate (n * c.tam_pagina) 0;
        bitmap = r.0;
        duenio = λ i. ground (arith, r.1 i);
      }

  pub crear_proceso-Inv :
      (pid : ℕ) (path : List ℕ) (m : Memoria) → Inv m → Inv (crear_proceso pid path m)
  unfolding crear_proceso
  crear_proceso-Inv pid path m v =
      let ps = m.lista_pcb_tablas_paginas in
      let p : Pcb = record { pid = pid; path_proceso = path; tabla_paginas = [] } in
      record {
        pagina_pos = v.pagina_pos;
        totales = v.totales;
        espacio = v.espacio;
        bitmap = v.bitmap;
        duenio = λ i.
            rw (marcos_procesos-append ps (p ∷ []), append-nil (marcos_procesos ps)) (v.duenio i);
      }

  -- A memory that differs in bitmap and processes only.
  pub Inv-of :
      (m : Memoria) (b : Bits) (ps : List Pcb)
      → Inv m
      → max_bit b ≡ max_bit m.bitmap_marcos
      → ((i : ℕ)
          → count i (marcos_procesos ps)
            ≡ (if ltb i m.cantidad_marcos_totales then bit (test_bit b i) else 0))
      → Inv (record m { bitmap_marcos = b; lista_pcb_tablas_paginas = ps })
  Inv-of m b ps v e d = record {
    pagina_pos = v.pagina_pos;
    totales = v.totales;
    espacio = v.espacio;
    bitmap = rw e v.bitmap;
    duenio = d;
  }

  -- The frames of a process found are frames of the memory, each held once and marked.
  pub tabla_propia :
      (m : Memoria) (pid : ℕ) (p : Pcb)
      → Inv m
      → buscar_pcb pid m.lista_pcb_tablas_paginas ≡ some p
      → (i : ℕ) → count i (marcos p.tabla_paginas) ≤ ocupado m i
  tabla_propia m pid p v e i =
      omega (arith, count-quitar_pcb pid i m.lista_pcb_tablas_paginas p e, v.duenio i)

  Acotados-of-count : (n : ℕ) (xs : List ℕ) → ((i : ℕ) → n ≤ i → count i xs ≡ 0) → Acotados n xs
  Acotados-of-count n [] h = tt
  Acotados-of-count n (x ∷ xs) h =
      (ground (arith, h x), Acotados-of-count n xs (λ i le. ground (arith, h i le)))

  pub tabla-Acotados :
      (m : Memoria) (pid : ℕ) (p : Pcb)
      → Inv m
      → buscar_pcb pid m.lista_pcb_tablas_paginas ≡ some p
      → Acotados m.cantidad_marcos_totales (marcos p.tabla_paginas)
  tabla-Acotados m pid p v e =
      Acotados-of-count m.cantidad_marcos_totales (marcos p.tabla_paginas)
        (λ i le. ground (arith, tabla_propia m pid p v e i))

  -- Freeing the last `k` pages of a process: the bits that remain.
  pub liberar_proceso :
      (m : Memoria) (pid k : ℕ) (p : Pcb)
      → Inv m
      → buscar_pcb pid m.lista_pcb_tablas_paginas ≡ some p
      → k ≤ length p.tabla_paginas
      → (b : Bits) × (liberar_paginas p.tabla_paginas k m.bitmap_marcos
          ≡ some (b, take (length p.tabla_paginas - k) p.tabla_paginas))
        × (max_bit b ≡ max_bit m.bitmap_marcos)
        × ((i : ℕ)
            → count i (marcos (take (length p.tabla_paginas - k) p.tabla_paginas))
                + bit (test_bit m.bitmap_marcos i)
              ≡ count i (marcos p.tabla_paginas) + bit (test_bit b i))
  liberar_proceso m pid k p v e h =
      liberar_paginas_lem k m.bitmap_marcos p.tabla_paginas h
        (Acotados-mono _ v.bitmap (tabla-Acotados m pid p v e))
        (λ i. ground (arith, tabla_propia m pid p v e i))

  -- Deleting a process that exists succeeds and keeps the invariant.
  pub eliminar_proceso-Inv :
      (pid : ℕ) (m : Memoria) (p : Pcb)
      → Inv m
      → buscar_pcb pid m.lista_pcb_tablas_paginas ≡ some p
      → (m' : Memoria) × (eliminar_proceso pid m ≡ some m')
        × Inv m'
        × (m'.lista_pcb_tablas_paginas ≡ quitar_pcb pid m.lista_pcb_tablas_paginas)
        × ((i : ℕ) → ocupado m' i + count i (marcos p.tabla_paginas) ≡ ocupado m i)
  unfolding eliminar_proceso
  eliminar_proceso-Inv pid m p v e =
      let t = p.tabla_paginas in
      let ps = quitar_pcb pid m.lista_pcb_tablas_paginas in
      let (b, run, size, cuenta) = liberar_proceso m pid (length t) p v e (omega arith) in
      let cero : length t - length t ≡ 0 = omega arith in
      let vacia = ap (λ n. take n t) cero in
      let libera : (i : ℕ)
          → bit (test_bit m.bitmap_marcos i) ≡ count i (marcos t) + bit (test_bit b i) =
        λ i. omega (arith, rw vacia at (cuenta i)) in
      let propia = tabla_propia m pid p v e in
      (
        record m { bitmap_marcos = b; lista_pcb_tablas_paginas = ps },
        rw (e, ◌>>=◌) (rw (run, ◌>>=◌) refl),
        Inv-of m b ps v size (λ i. ground (
          arith,
          libera i,
          propia i,
          v.duenio i,
          count-quitar_pcb pid i m.lista_pcb_tablas_paginas p e,
        )),
        refl,
        λ i. ground (arith, libera i, propia i),
      )
