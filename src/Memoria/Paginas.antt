-- ===== src/Memoria/Paginas.antt =====
-- Page tables and the list of processes: the frames that they hold, and what freeing, adding and
-- saving pages does to them.
use tp_2024_1c_pccsc.Common.{
  ℕ, zero, suc, ◌+◌, ◌-◌, ◌≤◌, ◌<◌, none, some, List, [], ◌∷◌, ◌++◌, ◌≡◌, refl, sym, ◌∙◌, ap, arith,
  length, count, bit, ◌==◌, if◌then◌else◌, get_elem?, remove_at, take, count-append, length-append,
  append_assoc, append-nil, subst,
}
use tp_2024_1c_pccsc.Common.Bitarray.{Bitarray}
use tp_2024_1c_pccsc.Memoria.{
  Pagina, Pcb, buscar_pcb, quitar_pcb, guardar_tabla, create_pagina, crear_paginas, liberar_bucle,
  liberar_paginas,
}
use tp_2024_1c_pccsc.Memoria.Marcos.{Acotados}

-- The frames of a page table.
abbrev pub marcos : List Pagina → List ℕ
marcos [] = []
marcos (p ∷ ps) = p.id_marco ∷ marcos ps

-- The frames of all processes.
abbrev pub marcos_procesos : List Pcb → List ℕ
marcos_procesos [] = []
marcos_procesos (p ∷ ps) = marcos p.tabla_paginas ++ marcos_procesos ps

pub marcos-append : (s t : List Pagina) → marcos (s ++ t) ≡ marcos s ++ marcos t
marcos-append [] t = refl
marcos-append (p ∷ s) t = ap (◌∷◌ p.id_marco) (marcos-append s t)

pub marcos_procesos-append :
    (s t : List Pcb) → marcos_procesos (s ++ t) ≡ marcos_procesos s ++ marcos_procesos t
marcos_procesos-append [] t = refl
marcos_procesos-append (p ∷ s) t =
    rw (marcos_procesos-append s t) (sym (append_assoc (marcos p.tabla_paginas) _ _))

-- The pages created keep the order of the frames.
pub crear_paginas_lem :
    (t : List Pagina) (ms : List ℕ)
    → (marcos (crear_paginas t ms) ≡ marcos t ++ ms)
      × (length (crear_paginas t ms) ≡ length t + length ms)
unfolding crear_paginas create_pagina
crear_paginas_lem t [] = (sym (append-nil (marcos t)), omega arith)
crear_paginas_lem t (m ∷ ms) =
    let p : Pagina = record { id_marco = m; offset = 0 } in
    let r = crear_paginas_lem (t ++ p ∷ []) ms in
    (
      rw (r.0, marcos-append t (p ∷ [])) (append_assoc (marcos t) (m ∷ []) ms),
      omega (arith, r.1, length-append t (p ∷ [])),
    )

-- The pages that a table had stay first.
pub crear_paginas-append :
    (t : List Pagina) (ms : List ℕ) → (u : List Pagina) × (crear_paginas t ms ≡ t ++ u)
unfolding crear_paginas create_pagina
crear_paginas-append t [] = ([], sym (append-nil t))
crear_paginas-append t (m ∷ ms) =
    let p : Pagina = record { id_marco = m; offset = 0 } in
    let (u, e) = crear_paginas-append (t ++ p ∷ []) ms in (p ∷ u, e ∙ append_assoc t (p ∷ []) u)

-- A process found holds its frames, beside those of the others.
pub count-quitar_pcb :
    (pid i : ℕ) (ps : List Pcb) (p : Pcb)
    → buscar_pcb pid ps ≡ some p
    → count i (marcos_procesos ps)
      ≡ count i (marcos p.tabla_paginas) + count i (marcos_procesos (quitar_pcb pid ps))
unfolding buscar_pcb quitar_pcb
count-quitar_pcb pid i [] p e = cc
count-quitar_pcb pid i (q ∷ ps) p e =
    let a = count-append i (marcos q.tabla_paginas) in
    ground (
      arith,
      count-quitar_pcb pid i ps p,
      a (marcos_procesos ps),
      a (marcos_procesos (quitar_pcb pid ps)),
    )

pub count-guardar_tabla :
    (pid i : ℕ) (t : List Pagina) (ps : List Pcb) (p : Pcb)
    → buscar_pcb pid ps ≡ some p
    → count i (marcos_procesos (guardar_tabla pid t ps)) + count i (marcos p.tabla_paginas)
      ≡ count i (marcos_procesos ps) + count i (marcos t)
unfolding buscar_pcb guardar_tabla
count-guardar_tabla pid i t [] p e = cc
count-guardar_tabla pid i t (q ∷ ps) p e = ground (
  arith,
  count-guardar_tabla pid i t ps p,
  count-append i (marcos q.tabla_paginas) (marcos_procesos ps),
  count-append i t' (marcos_procesos ps),
  count-append i (marcos q.tabla_paginas) (marcos_procesos (guardar_tabla pid t ps)),
)
  where
    t' : List ℕ
    t' = marcos t

-- After saving a table the process is found with it, and every other process as before.
pub buscar-guardar_tabla :
    (pid j : ℕ) (t : List Pagina) (ps : List Pcb) (p : Pcb)
    → buscar_pcb pid ps ≡ some p
    → buscar_pcb j (guardar_tabla pid t ps)
      ≡ (if pid == j then some (record p { tabla_paginas = t }) else buscar_pcb j ps)
unfolding buscar_pcb guardar_tabla
buscar-guardar_tabla pid j t [] p e = cc
buscar-guardar_tabla pid j t (q ∷ ps) p e = ground (arith, buscar-guardar_tabla pid j t ps p)

-- The last page of a table.
ultima :
    (t : List Pagina) (i : ℕ)
    → length t ≡ suc i
    → (p : Pagina) × (get_elem? t i ≡ some p)
      × (remove_at t i ≡ take i t)
      × (t ≡ take i t ++ p ∷ [])
      × (length (take i t) ≡ i)
ultima [] i h = absurd (omega arith)
ultima (q ∷ []) zero h = (q, refl, refl, refl, refl)
ultima (q ∷ []) (suc i) h = absurd (omega arith)
ultima (q ∷ r ∷ t) zero h = absurd (omega arith)
ultima (q ∷ r ∷ t) (suc i) h =
    let u = ultima (r ∷ t) i (omega arith) in
    (u.0, u.1, ap (◌∷◌ q) u.2, ap (◌∷◌ q) u.3, omega (arith, u.4))

take-take : (k n : ℕ) (t : List Pagina) → k ≤ n → take k (take n t) ≡ take k t
take-take zero n t h = refl
take-take (suc k) zero t h = absurd (omega arith)
take-take (suc k) (suc n) [] h = refl
take-take (suc k) (suc n) (p ∷ t) h = ap (◌∷◌ p) (take-take k n t (omega arith))

take-all : (n : ℕ) (t : List Pagina) → length t ≡ n → take n t ≡ t
take-all zero [] h = refl
take-all zero (p ∷ t) h = absurd (omega arith)
take-all (suc n) [] h = refl
take-all (suc n) (p ∷ t) h = ap (◌∷◌ p) (take-all n t (omega arith))

pub Acotados-count : (n i : ℕ) (xs : List ℕ) → Acotados n xs → n ≤ i → count i xs ≡ 0
Acotados-count n i [] a h = refl
Acotados-count n i (x ∷ xs) a h = ground (arith, Acotados-count n i xs)

pub count-take : (k i : ℕ) (t : List Pagina) → count i (marcos (take k t)) ≤ count i (marcos t)
count-take zero i t = omega arith
count-take (suc k) i [] = omega arith
count-take (suc k) i (p ∷ t) = omega (arith, count-take k i t)

Acotados-append : (n : ℕ) (xs ys : List ℕ) → Acotados n (xs ++ ys) → Acotados n xs × Acotados n ys
Acotados-append n [] ys a = (tt, a)
Acotados-append n (x ∷ xs) ys a = let r = Acotados-append n xs ys a.1 in ((a.0, r.0), r.1)

module _ ⦃bits : Bitarray⦄ where
  open bits use {Bits, max_bit, test_bit, clean_bit}

  -- The frames of a table with its last page taken off.
  sin_ultima :
      (b : Bits) (t u : List Pagina) (p : Pagina)
      → t ≡ u ++ p ∷ []
      → Acotados (max_bit b) (marcos t)
      → ((i : ℕ) → count i (marcos t) ≤ bit (test_bit b i))
      → (p.id_marco < max_bit b)
        × Acotados (max_bit b) (marcos u)
        × ((i : ℕ) → count i (marcos t) ≡ count i (marcos u) + bit (p.id_marco == i))
        × ((i : ℕ) → count i (marcos u) ≤ bit (test_bit (clean_bit b p.id_marco) i))
  sin_ultima b t u p e a c =
      let f = ap marcos e ∙ marcos-append u (p ∷ []) in
      let r = Acotados-append (max_bit b) (marcos u) (marcos (p ∷ [])) (subst (Acotados _) f a) in
      let n : (i : ℕ) → count i (marcos t) ≡ count i (marcos u) + bit (p.id_marco == i) =
        λ i. omega (arith, ap (count i) f, count-append i (marcos u) (marcos (p ∷ []))) in
      (r.1.0, r.0, n, λ i. ground (arith, n i, c i, bits.test-clean b p.id_marco i))

  liberar_bucle_lem :
      (k j : ℕ) (b : Bits) (t : List Pagina)
      → length t ≡ j
      → k ≤ j
      → Acotados (max_bit b) (marcos t)
      → ((i : ℕ) → count i (marcos t) ≤ bit (test_bit b i))
      → (b' : Bits) × (liberar_bucle k j b t ≡ some (b', take (j - k) t))
        × (max_bit b' ≡ max_bit b)
        × ((i : ℕ)
            → count i (marcos (take (j - k) t)) + bit (test_bit b i)
              ≡ count i (marcos t) + bit (test_bit b' i))
  unfolding liberar_bucle
  liberar_bucle_lem zero j b t e h a c =
      let f = take-all (j - 0) t (omega arith) in (b, rw f refl, refl, λ i. rw f refl)
  liberar_bucle_lem (suc k) zero b t e h a c = absurd (omega arith)
  liberar_bucle_lem (suc k) (suc i) b t e h a c =
      let (p, get, rem, app, len) = ultima t i e in
      let (lt, a', n, c') = sin_ultima b t (take i t) p app a c in
      let m = bits.max_bit-clean b p.id_marco lt in
      let (b', run, size, cuenta) =
        liberar_bucle_lem k i (clean_bit b p.id_marco) (take i t) len (omega arith) (rw m a') c' in
      let w : take (i - k) (take i t) ≡ take (suc i - suc k) t =
        take-take (i - k) i t (omega arith) ∙ ap (λ x. take x t) (omega arith) in
      (
        b',
        rw (get, liberar_bucle) (rw rem (run ∙ ap (λ u. some (b', u)) w)),
        size ∙ m,
        λ x. ground (arith, n x, c x, rw w at (cuenta x), bits.test-clean b p.id_marco x lt),
      )

  -- `liberar_paginas` frees the last `k` pages of a table whose frames are its own, and just
  -- their bits.
  pub liberar_paginas_lem :
      (k : ℕ) (b : Bits) (t : List Pagina)
      → k ≤ length t
      → Acotados (max_bit b) (marcos t)
      → ((i : ℕ) → count i (marcos t) ≤ bit (test_bit b i))
      → (b' : Bits) × (liberar_paginas t k b ≡ some (b', take (length t - k) t))
        × (max_bit b' ≡ max_bit b)
        × ((i : ℕ)
            → count i (marcos (take (length t - k) t)) + bit (test_bit b i)
              ≡ count i (marcos t) + bit (test_bit b' i))
  unfolding liberar_paginas
  liberar_paginas_lem k b t h a c = liberar_bucle_lem k (length t) b t refl h a c

  liberar_bucle-none :
      (k j : ℕ) (b : Bits) (t : List Pagina) → length t ≡ j → j < k → liberar_bucle k j b t ≡ none
  unfolding liberar_bucle
  liberar_bucle-none zero j b t e h = absurd (omega arith)
  liberar_bucle-none (suc k) zero b t e h = refl
  liberar_bucle-none (suc k) (suc i) b t e h =
      let (p, get, rem, app, len) = ultima t i e in
      rw (get, liberar_bucle)
        (rw rem (liberar_bucle-none k i (clean_bit b p.id_marco) (take i t) len (omega arith)))

  -- Asked for more pages than there are, the loop reads past the first one.
  pub liberar_paginas-none :
      (t : List Pagina) (k : ℕ) (b : Bits) → length t < k → liberar_paginas t k b ≡ none
  unfolding liberar_paginas
  liberar_paginas-none t k b h = liberar_bucle-none k (length t) b t refl h
