-- ===== src/FileSystem/Contenido.antt =====
-- What the blocks in use hold, in the order of the blocks, and what moving a block does to it.
use native.Mathlib.Nat.{mul-le-mul_right}
use tp_2024_1c_pccsc.Common.{
  ℕ, zero, suc, ◌+◌, ◌*◌, ◌≤◌, ◌<◌, true, false, none, some, List, [], ◌∷◌, ◌++◌, length, take,
  drop, ◌≡◌, ◌≢◌, inl, inr, refl, ◌∙◌, ap, subst, arith, ltb, ◌==◌, if◌then◌else◌, ◌>>=◌,
  Bool-cases, ltb→lt, ltb→ge, ==→≡, ==→ne, length-take, length-drop,
}
use tp_2024_1c_pccsc.Common.Bitarray.{Bitarray}
use tp_2024_1c_pccsc.Common.Bytes.{
  copiar_a-fits, copiar_de-fits, length-copiado, leer-copiado, leer-copiado_antes,
  leer-copiado_despues,
}
use tp_2024_1c_pccsc.FileSystem.{Fs, mover_bloque, primer_bloque}
use tp_2024_1c_pccsc.FileSystem.Busqueda.{Libres}

-- The bytes of block `q`.
pub bloque : ℕ → List ℕ → ℕ → List ℕ
bloque bs dat q = take bs (drop (q * bs) dat)

pub fin-de-bloque_le : (bs q n : ℕ) → q < n → q * bs + bs ≤ n * bs
fin-de-bloque_le bs q n h =
    let s : suc q * bs ≤ n * bs = mul-le-mul_right bs (let z : suc q ≤ n = omega arith in z) in
    omega (arith, s)

module _ ⦃bits : Bitarray⦄ where
  open bits use {
    Bits, max_bit, test_bit, set_bit, clean_bit, test-set, test-clean, max_bit-set, max_bit-clean,
  }

  -- The contents of the blocks in use among the `k` blocks from `i` on.
  pub contenidos : ℕ → List ℕ → Bits → ℕ → ℕ → List (List ℕ)
  contenidos bs dat b zero i = []
  contenidos bs dat b (suc k) i =
      let resto = contenidos bs dat b k (suc i) in
      if test_bit b i then bloque bs dat i ∷ resto else resto

  pub contenidos-suc_usado :
      (bs : ℕ) (dat : List ℕ) (b : Bits) (k i : ℕ)
      → test_bit b i ≡ true
      → contenidos bs dat b (suc k) i ≡ bloque bs dat i ∷ contenidos bs dat b k (suc i)
  unfolding contenidos
  contenidos-suc_usado bs dat b k i h = rw h refl

  pub contenidos-append :
      (bs : ℕ) (dat : List ℕ) (b : Bits) (j k i : ℕ)
      → contenidos bs dat b (j + k) i ≡ contenidos bs dat b j i ++ contenidos bs dat b k (i + j)
  unfolding contenidos
  contenidos-append bs dat b zero k i =
      ap (λ z. contenidos bs dat b z i) (let z : 0 + k ≡ k = omega arith in z)
      ∙ ap (contenidos bs dat b k) (let z : i ≡ i + 0 = omega arith in z)
  contenidos-append bs dat b (suc j) k i =
      let e : suc j + k ≡ suc (j + k) = omega arith in
      let ih =
        contenidos-append bs dat b j k (suc i)
        ∙ ap (λ z. contenidos bs dat b j (suc i) ++ contenidos bs dat b k z)
            (let z : suc i + j ≡ i + suc j = omega arith in z) in
      ap (λ z. contenidos bs dat b z i) e ∙ elim (Bool-cases (test_bit b i)) [
        | inl y ↦ rw y (ap (◌∷◌ (bloque bs dat i)) ih)
        | inr n ↦ rw n ih
      ]

  -- Free blocks hold nothing.
  pub contenidos-Libres :
      (bs : ℕ) (dat : List ℕ) (b : Bits) (k i : ℕ)
      → Libres b i (i + k)
      → contenidos bs dat b k i ≡ []
  unfolding contenidos
  contenidos-Libres bs dat b zero i l = refl
  contenidos-Libres bs dat b (suc k) i l =
      rw (l i (omega arith) (omega arith))
        (contenidos-Libres bs dat b k (suc i) (λ j le lt. l j (omega arith) (omega arith)))

  -- Blocks that agree hold the same.
  pub contenidos-ap :
      (bs : ℕ) (dat dat' : List ℕ) (b b' : Bits) (k i : ℕ)
      → ((j : ℕ) → i ≤ j → j < i + k → test_bit b' j ≡ test_bit b j)
      → ((j : ℕ) → i ≤ j → j < i + k → bloque bs dat' j ≡ bloque bs dat j)
      → contenidos bs dat' b' k i ≡ contenidos bs dat b k i
  unfolding contenidos
  contenidos-ap bs dat dat' b b' zero i eb ed = refl
  contenidos-ap bs dat dat' b b' (suc k) i eb ed =
      let ih =
        contenidos-ap bs dat dat' b b' k (suc i) (λ j le lt. eb j (omega arith) (omega arith))
          (λ j le lt. ed j (omega arith) (omega arith)) in
      rw (eb i (omega arith) (omega arith), ed i (omega arith) (omega arith), ih) refl

  pub primer_bloque-none :
      (b : Bits) (k i : ℕ) → primer_bloque true b k i ≡ none → Libres b i (i + k)
  unfolding primer_bloque
  primer_bloque-none b zero i e = λ j le lt. absurd (omega arith)
  primer_bloque-none b (suc k) i e = elim (Bool-cases (test_bit b i)) [
    | inl y ↦ absurd (
        let h = subst (λ t. (if t then some i else primer_bloque true b k (suc i)) ≡ none) y e in
        cc)
    | inr n ↦
        let h = subst (λ t. (if t then some i else primer_bloque true b k (suc i)) ≡ none) n e in
        let ih = primer_bloque-none b k (suc i) h in
        λ j le lt. elim (Bool-cases (i == j)) [
          | inl q ↦ subst (λ x. test_bit b x ≡ false) (==→≡ i j q) n
          | inr q ↦ let d = ==→ne i j q in ih j (omega arith) (omega arith)
        ]
  ]

  pub primer_bloque-some :
      (b : Bits) (k i p : ℕ)
      → primer_bloque true b k i ≡ some p
      → (i ≤ p) × (p < i + k) × Libres b i p × (test_bit b p ≡ true)
  unfolding primer_bloque
  primer_bloque-some b zero i p e = absurd cc
  primer_bloque-some b (suc k) i p e = elim (Bool-cases (test_bit b i)) [
    | inl y ↦
        let h : some i ≡ some p =
          subst (λ t. (if t then some i else primer_bloque true b k (suc i)) ≡ some p) y e in
        let ip : i ≡ p = cc in
        (
          omega arith,
          omega arith,
          λ j le lt. absurd (omega arith),
          subst (λ x. test_bit b x ≡ true) ip y,
        )
    | inr n ↦
        let h = subst (λ t. (if t then some i else primer_bloque true b k (suc i)) ≡ some p) n e in
        let ih = primer_bloque-some b k (suc i) p h in
        let ih1 = ih.0 in
        (
          omega arith,
          omega (arith, ih.1),
          (λ j le lt. elim (Bool-cases (i == j)) [
            | inl q ↦ subst (λ x. test_bit b x ≡ false) (==→≡ i j q) n
            | inr q ↦ let d = ==→ne i j q in ih.2 j (omega arith) (omega arith)
          ]),
          ih.3,
        )
  ]

  -- Block `usado` has gone to block `i`, of `n` blocks.
  pub record Movido (bs n usado i : ℕ) (b b' : Bits) (dat dat' : List ℕ) : Type 0 where
    pub largo : length dat' ≡ length dat
    pub bits_max : max_bit b' ≡ max_bit b
    pub bits_test :
        (j : ℕ)
        → test_bit b' j ≡ (if i == j then true else if usado == j then false else test_bit b j)
    pub movido : bloque bs dat' i ≡ bloque bs dat usado
    pub otros : (q : ℕ) → q ≢ i → q < n → bloque bs dat' q ≡ bloque bs dat q

  pub mover_bloque_lem :
      (f : Fs) (n usado i : ℕ)
      → n ≤ max_bit f.bitmap_bloques
      → n * f.config.block_size ≤ length f.bloques_dat
      → usado < n
      → i < n
      → (f' : Fs) × (mover_bloque usado i f ≡ some f')
        × ((f'.config ≡ f.config)
            × (f'.directorio ≡ f.directorio)
            × (f'.lista_archivos_abierto ≡ f.lista_archivos_abierto))
        × Movido f.config.block_size n usado i f.bitmap_bloques f'.bitmap_bloques f.bloques_dat
            f'.bloques_dat
  unfolding mover_bloque bloque
  mover_bloque_lem f n usado i hb hd hu hi =
      let bs = f.config.block_size in
      let b = f.bitmap_bloques in
      let dat = f.bloques_dat in
      let fu = fin-de-bloque_le bs usado n hu in
      let fi = fin-de-bloque_le bs i n hi in
      let aux = take bs (drop (usado * bs) dat) in
      let la : length aux ≡ bs =
        omega (arith, length-take bs (drop (usado * bs) dat), length-drop (usado * bs) dat) in
      let cabe : i * bs + length aux ≤ length dat = omega arith in
      let e1 = copiar_de-fits dat (usado * bs) bs (omega arith) in
      let e2 = copiar_a-fits dat (i * bs) aux cabe in
      (
        _,
        rw (e1, ◌>>=◌) (rw (e2, ◌>>=◌) refl),
        (refl, refl, refl),
        record {
          largo = length-copiado dat (i * bs) aux cabe;
          bits_max =
              max_bit-set _ i (omega (arith, max_bit-clean b usado (omega arith)))
              ∙ max_bit-clean b usado (omega arith);
          bits_test = λ j.
              test-set _ i j (omega (arith, max_bit-clean b usado (omega arith)))
              ∙ ap (λ t. if i == j then true else t) (test-clean b usado j (omega arith));
          movido =
              subst
                (λ z.
                  take z
                    (drop (i * bs) (take (i * bs) dat ++ (aux ++ drop (i * bs + length aux) dat)))
                  ≡ aux)
                la (leer-copiado dat (i * bs) aux cabe);
          otros = λ q ne hq. elim (Bool-cases (ltb q i)) [
            | inl y ↦
                leer-copiado_antes dat (i * bs) aux (q * bs) bs cabe
                  (fin-de-bloque_le bs q i (ltb→lt q i y))
            | inr z ↦
                let ge = ltb→ge q i z in
                let fq = fin-de-bloque_le bs i q (omega arith) in
                leer-copiado_despues dat (i * bs) aux (q * bs) bs cabe (omega arith)
          ];
        },
      )
