-- ===== src/FileSystem/Busqueda.antt =====
-- The searches over the bitmap of blocks: contiguous free blocks, free blocks, first blocks.
use tp_2024_1c_pccsc.Common.{
  ℕ, zero, suc, ◌+◌, ◌-◌, ◌≤◌, ◌<◌, true, false, ◌≡◌, ◌≢◌, inl, inr, refl, subst, arith, ltb, ◌==◌,
  Bool-cases, ltb→lt, ltb→ge, ==→≡, ==→ne,
}
use tp_2024_1c_pccsc.Common.Bitarray.{Bitarray}
use tp_2024_1c_pccsc.FileSystem.{
  Hallazgo, posicion, no_contiguos, pasa_el_final, no_hay, contiguos_bucle, desde_bucle,
  buscar_contiguos, buscar_contiguos_desde,
}

module _ ⦃bits : Bitarray⦄ where
  open bits use {Bits, max_bit, test_bit, set_bit, clean_bit}

  -- All the blocks from `p` to `q`, without `q`, are free.
  abbrev pub Libres : Bits → ℕ → ℕ → Type 0
  Libres b p q = (j : ℕ) → p ≤ j → j < q → test_bit b j ≡ false

  -- Some block from `p` to `q`, without `q`, is in use.
  abbrev pub AlgunoUsado : Bits → ℕ → ℕ → Type 0
  AlgunoUsado b p q = (j : ℕ) × (p ≤ j) × (j < q) × (test_bit b j ≡ true)

  -- What a search for `cant` free blocks in a row below `fin` must answer.
  abbrev pub Correcto : Bits → ℕ → ℕ → ℕ → Hallazgo → Type 0
  Correcto b fin cant desde (posicion p) = (p + cant ≤ fin) × Libres b p (p + cant)
  Correcto b fin cant desde no_contiguos = ⊥
  Correcto b fin cant desde pasa_el_final = ⊥
  Correcto b fin cant desde no_hay =
      (p : ℕ) → desde ≤ p → p + cant ≤ fin → AlgunoUsado b p (p + cant)

  Libres-suc : (b : Bits) (p q : ℕ) → Libres b p q → test_bit b q ≡ false → Libres b p (suc q)
  Libres-suc b p q l h j le lt = elim (Bool-cases (ltb j q)) [
    | inl y ↦ l j le (ltb→lt j q y)
    | inr n ↦ subst (λ x. test_bit b x ≡ false) (omega (arith, ltb→ge j q n)) h
  ]

  -- An answer for the windows from `d` on is one for those from `d'` on, where each between has a
  -- block in use.
  Correcto-ampliar :
      (b : Bits) (fin cant d d' : ℕ) (h : Hallazgo)
      → Correcto b fin cant d h
      → ((p : ℕ) → d' ≤ p → p < d → AlgunoUsado b p (p + cant))
      → Correcto b fin cant d' h
  Correcto-ampliar b fin cant d d' (posicion p) c u = c
  Correcto-ampliar b fin cant d d' no_contiguos c u = elim c [ ]
  Correcto-ampliar b fin cant d d' pasa_el_final c u = elim c [ ]
  Correcto-ampliar b fin cant d d' no_hay c u = λ p l f. elim (Bool-cases (ltb p d)) [
    | inl y ↦ u p l (ltb→lt p d y)
    | inr n ↦ c p (ltb→ge p d n) f
  ]

  -- The loop, with the `e` blocks before `i`, from `d` on, free and no run found yet.
  contiguos_bucle_lem :
      (b : Bits) (cant fin k i e d : ℕ)
      → e < cant
      → d + e ≡ i
      → i + k ≡ fin
      → Libres b d i
      → Correcto b fin cant d (contiguos_bucle cant b k i e)
  unfolding contiguos_bucle
  contiguos_bucle_lem b cant fin zero i e d h he hf l = λ p dp f. absurd (omega arith)
  contiguos_bucle_lem b cant fin (suc k) i e d h he hf l = elim (Bool-cases (test_bit b i)) [
    | inl usado ↦ rw usado (
        Correcto-ampliar b fin cant (suc i) d _
          (contiguos_bucle_lem b cant fin k (suc i) 0 (suc i) (omega arith) (omega arith)
            (omega arith) (λ j le lt. absurd (omega arith)))
          (λ p dp pd. (i, omega arith, omega arith, usado)))
    | inr libre ↦ rw libre (elim (Bool-cases (e + 1 == cant)) [
      | inl si ↦ rw si (
          let es : e + 1 ≡ cant = ==→≡ (e + 1) cant si in
          let pos : d ≡ i + 1 - cant = omega arith in
          subst (λ q. (q + cant ≤ fin) × Libres b q (q + cant)) pos
            (
              omega arith,
              subst (λ q. Libres b d q) (let z : suc i ≡ d + cant = omega arith in z)
                  (Libres-suc b d i l libre),
            ))
      | inr falta ↦ rw falta (
          let ne : e + 1 ≢ cant = ==→ne (e + 1) cant falta in
          contiguos_bucle_lem b cant fin k (suc i) (e + 1) d (omega arith) (omega arith)
            (omega arith) (Libres-suc b d i l libre))
    ])
  ]

  -- The search for `cant > 0` free blocks in a row answers with a position only where the `cant`
  -- blocks from there on lie below `block_count` and are free, and says that there are none only
  -- where each window of `cant` blocks below `block_count` has a block in use.
  pub buscar_contiguos_lem :
      (block_count cant : ℕ) (b : Bits)
      → 0 < cant
      → Correcto b block_count cant 0 (buscar_contiguos block_count cant b)
  unfolding buscar_contiguos
  buscar_contiguos_lem block_count cant b h =
      contiguos_bucle_lem b cant block_count block_count 0 0 0 h refl (omega arith)
        (λ j le lt. absurd (omega arith))

  -- What the search from a given position must answer.
  abbrev pub CorrectoDesde : Bits → ℕ → ℕ → ℕ → Hallazgo → Type 0
  CorrectoDesde b fin cant pos (posicion p) =
      (p ≡ pos) × (pos + cant ≤ fin) × Libres b pos (pos + cant)
  CorrectoDesde b fin cant pos no_contiguos =
      (j : ℕ) × (pos ≤ j) × (j < pos + cant) × (j < fin) × (test_bit b j ≡ true)
  CorrectoDesde b fin cant pos pasa_el_final = (fin < pos + cant) × Libres b pos fin
  CorrectoDesde b fin cant pos no_hay = ⊥

  desde_bucle_lem :
      (b : Bits) (cant fin pos k i e : ℕ)
      → e < cant
      → pos + e ≡ i
      → i + k ≡ fin
      → Libres b pos i
      → CorrectoDesde b fin cant pos (desde_bucle cant pos b k i e)
  unfolding desde_bucle
  desde_bucle_lem b cant fin pos zero i e h he hf l = (omega arith, λ j le lt. l j le (omega arith))
  desde_bucle_lem b cant fin pos (suc k) i e h he hf l = elim (Bool-cases (test_bit b i)) [
    | inl usado ↦ rw usado (i, omega arith, omega arith, omega arith, usado)
    | inr libre ↦ rw libre (elim (Bool-cases (e + 1 == cant)) [
      | inl si ↦ rw si (
          let es : e + 1 ≡ cant = ==→≡ (e + 1) cant si in
          (
            refl,
            omega arith,
            subst (λ q. Libres b pos q) (let z : suc i ≡ pos + cant = omega arith in z)
                (Libres-suc b pos i l libre),
          ))
      | inr falta ↦ rw falta (
          let ne : e + 1 ≢ cant = ==→ne (e + 1) cant falta in
          desde_bucle_lem b cant fin pos k (suc i) (e + 1) (omega arith) (omega arith) (omega arith)
            (Libres-suc b pos i l libre))
    ])
  ]

  -- The search for `cant > 0` free blocks from a block `pos` within the disk answers `pos` only
  -- where the `cant` blocks from there on lie below `block_count` and are free, -1 only where one
  -- of them on the disk is in use, and -2 only where they pass the end and those on the disk are
  -- free.
  pub buscar_contiguos_desde_lem :
      (block_count cant pos : ℕ) (b : Bits)
      → 0 < cant
      → pos ≤ block_count
      → CorrectoDesde b block_count cant pos (buscar_contiguos_desde block_count cant pos b)
  unfolding buscar_contiguos_desde
  buscar_contiguos_desde_lem block_count cant pos b h hp =
      desde_bucle_lem b cant block_count pos (block_count - pos) pos 0 h (omega arith) (omega arith)
        (λ j le lt. absurd (omega arith))
