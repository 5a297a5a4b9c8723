-- ===== src/FileSystem/Compactacion.antt =====
-- `compactar_bloques`: each used block goes down to the first free one.
use tp_2024_1c_pccsc.Common.{
  ℕ, zero, suc, ◌+◌, ◌-◌, ◌*◌, ◌≤◌, ◌<◌, true, false, none, some, List, ◌∷◌, ◌++◌, length, ◌≡◌, ◌≢◌,
  inl, inr, refl, sym, ◌∙◌, ap, subst, arith, ◌==◌, ◌>>=◌, Bool-cases, Option-cases, ==→≡, ==→ne,
  ne→==,
}
use tp_2024_1c_pccsc.Common.Bitarray.{Bitarray}
use tp_2024_1c_pccsc.FileSystem.{
  ConfigStruct, Fs, primer_bloque, primer_bloque_usado, primer_bloque_libre, mover_bloque,
  mover_archivo, compactar_bucle, compactar_bloques,
}
use tp_2024_1c_pccsc.FileSystem.Busqueda.{Libres}
use tp_2024_1c_pccsc.FileSystem.Contenido.{
  bloque, contenidos, contenidos-suc_usado, contenidos-append, contenidos-Libres, contenidos-ap,
  primer_bloque-none, primer_bloque-some, Movido, mover_bloque_lem,
}
use tp_2024_1c_pccsc.FileSystem.Indice.{ConMetadata, mover_archivo_lem}

module _ ⦃bits : Bitarray⦄ where
  open bits use {Bits, max_bit, test_bit}

  -- All the blocks from `p` to `q`, without `q`, are in use.
  abbrev pub Usados : Bits → ℕ → ℕ → Type 0
  Usados b p q = (j : ℕ) → p ≤ j → j < q → test_bit b j ≡ true

  module _ (bs n i w r : ℕ) (b b' : Bits) (dat dat' : List ℕ) (hw : 0 < w)
      (hn : n ≡ i + (w + (1 + r))) (l : Libres b i (i + w)) (u : test_bit b (i + w) ≡ true)
      (m : Movido bs n (i + w) i b b' dat dat') where
    contenidos-usado :
        (d : List ℕ) (c : Bits) (k j : ℕ)
        → test_bit c j ≡ true
        → contenidos bs d c (1 + k) j ≡ bloque bs d j ∷ contenidos bs d c k (suc j)
    contenidos-usado d c k j h =
        ap (λ z. contenidos bs d c z j) (let z : 1 + k ≡ suc k = omega arith in z)
        ∙ contenidos-suc_usado bs d c k j h

    test-otro : (j : ℕ) → i ≢ j → i + w ≢ j → test_bit b' j ≡ test_bit b j
    test-otro j h k = m.bits_test j ∙ rw (ne→== i j h) (rw (ne→== (i + w) j k) refl)

    test-movido : test_bit b' i ≡ true
    test-movido = m.bits_test i ∙ rw (let e : (i == i) ≡ true = ground arith in e) refl

    Libres-movido : Libres b' (suc i) (i + suc w)
    Libres-movido j le lt = elim (Bool-cases ((i + w) == j)) [
      | inl y ↦ m.bits_test j ∙ rw (ne→== i j (omega arith)) (rw y refl)
      | inr z ↦
          let ne = ==→ne (i + w) j z in
          test-otro j (omega arith) ne ∙ l j (omega arith) (omega arith)
    ]

    -- The move keeps the contents of the used blocks, in their order.
    contenidos-movido : contenidos bs dat' b' n 0 ≡ contenidos bs dat b n 0
    contenidos-movido =
        let e : n ≡ i + (1 + (w + r)) = omega arith in
        let antes =
          ap (λ z. contenidos bs dat b z 0) hn
          ∙ contenidos-append bs dat b i (w + (1 + r)) 0
          ∙ ap (λ z. contenidos bs dat b i 0 ++ contenidos bs dat b (w + (1 + r)) z)
              (let z : 0 + i ≡ i = omega arith in z)
          ∙ ap (λ z. contenidos bs dat b i 0 ++ z)
              (contenidos-append bs dat b w (1 + r) i
                ∙ ap (λ z. z ++ contenidos bs dat b (1 + r) (i + w))
                    (contenidos-Libres bs dat b w i l)
                ∙ contenidos-usado dat b r (i + w) u) in
        let despues =
          ap (λ z. contenidos bs dat' b' z 0) e
          ∙ contenidos-append bs dat' b' i (1 + (w + r)) 0
          ∙ ap (λ z. contenidos bs dat' b' i 0 ++ contenidos bs dat' b' (1 + (w + r)) z)
              (let z : 0 + i ≡ i = omega arith in z)
          ∙ ap (λ z. contenidos bs dat' b' i 0 ++ z)
              (contenidos-usado dat' b' (w + r) i test-movido
                ∙ ap (λ z. bloque bs dat' i ∷ z)
                    (contenidos-append bs dat' b' w r (suc i)
                      ∙ ap (λ z. z ++ contenidos bs dat' b' r (suc i + w))
                          (contenidos-Libres bs dat' b' w (suc i)
                            (λ j le lt. Libres-movido j le (omega arith))))) in
        let prefijo =
          contenidos-ap bs dat dat' b b' i 0 (λ j le lt. test-otro j (omega arith) (omega arith))
            (λ j le lt. m.otros j (omega arith) (omega arith)) in
        let cola =
          ap (contenidos bs dat' b' r) (let z : suc i + w ≡ suc (i + w) = omega arith in z)
          ∙ contenidos-ap bs dat dat' b b' r (suc (i + w))
              (λ j le lt. test-otro j (omega arith) (omega arith))
              (λ j le lt. m.otros j (omega arith) (omega arith)) in
        despues ∙ rw (prefijo, m.movido, cola) refl ∙ sym antes

  -- What the compaction of `f`, of `n` blocks, must give: the used blocks are those below some
  -- block, and hold what the used blocks of `f` held, in the same order.
  pub record Compactado (f g : Fs) : Type 0 where
    pub config_igual : g.config ≡ f.config
    pub largo_igual : length g.bloques_dat ≡ length f.bloques_dat
    pub hasta : ℕ
    pub hasta_le : hasta ≤ f.config.block_count
    pub usados : Usados g.bitmap_bloques 0 hasta
    pub libres : Libres g.bitmap_bloques hasta f.config.block_count
    pub mismos :
        contenidos f.config.block_size g.bloques_dat g.bitmap_bloques f.config.block_count 0
        ≡ contenidos f.config.block_size f.bloques_dat f.bitmap_bloques f.config.block_count 0
    pub con_metadata : ConMetadata g.directorio g.lista_archivos_abierto

  -- The blocks of the disk are in the bitmap and in bloques.dat, and each open file has its metadata.
  pub record Montado (f : Fs) : Type 0 where
    pub en_bitmap : f.config.block_count ≤ max_bit f.bitmap_bloques
    pub en_dat : f.config.block_count * f.config.block_size ≤ length f.bloques_dat
    pub metadatos : ConMetadata f.directorio f.lista_archivos_abierto

  -- A round at a free block `i` below which all is used, of `n` blocks of `bs` bytes that hold
  -- `ini`.
  record Ronda (n bs largo : ℕ) (ini : List (List ℕ)) (b : Bits) (dat : List ℕ) (i : ℕ)
      : Type 0 where
    en_bitmap : n ≤ max_bit b
    largo_igual : length dat ≡ largo
    antes : Usados b 0 i
    libre : i < n → test_bit b i ≡ false
    mismos : contenidos bs dat b n 0 ≡ ini

  Ronda-suc :
      (n bs largo : ℕ) (ini : List (List ℕ)) (b b' : Bits) (dat dat' : List ℕ) (i w : ℕ)
      → Ronda n bs largo ini b dat i
      → 0 < w
      → i + w < n
      → Libres b i (i + w)
      → test_bit b (i + w) ≡ true
      → Movido bs n (i + w) i b b' dat dat'
      → Ronda n bs largo ini b' dat' (suc i)
  Ronda-suc n bs largo ini b b' dat dat' i w v hw hn l u m =
      let r = n - (i + w) - 1 in
      let hr : n ≡ i + (w + (1 + r)) = omega arith in
      record {
        en_bitmap = omega (arith, m.bits_max, v.en_bitmap);
        largo_igual = m.largo ∙ v.largo_igual;
        antes = λ j le lt. elim (Bool-cases (i == j)) [
          | inl y ↦
              subst (λ z. test_bit b' z ≡ true) (==→≡ i j y)
                (test-movido bs n i w r b b' dat dat' hw hr l u m)
          | inr z ↦
              let ne = ==→ne i j z in
              test-otro bs n i w r b b' dat dat' hw hr l u m j ne (omega arith)
              ∙ v.antes j le (omega arith)
        ];
        libre = λ h.
            Libres-movido bs n i w r b b' dat dat' hw hr l u m (suc i) (omega arith) (omega arith);
        mismos = contenidos-movido bs n i w r b b' dat dat' hw hr l u m ∙ v.mismos;
      }

  ronda_lem :
      (cf : ConfigStruct) (f : Fs) (ini : List (List ℕ)) (largo i p : ℕ)
      → f.config ≡ cf
      → Ronda cf.block_count cf.block_size largo ini f.bitmap_bloques f.bloques_dat i
      → cf.block_count * cf.block_size ≤ largo
      → ConMetadata f.directorio f.lista_archivos_abierto
      → i < cf.block_count
      → primer_bloque true f.bitmap_bloques (f.config.block_count - i) i ≡ some p
      → (h : Fs) × (g : Fs) × (mover_bloque p i f ≡ some h)
        × (mover_archivo p i h ≡ some g)
        × (g.config ≡ cf)
        × Ronda cf.block_count cf.block_size largo ini g.bitmap_bloques g.bloques_dat (suc i)
        × ConMetadata g.directorio g.lista_archivos_abierto
  ronda_lem cf f ini largo i p ec v hl c hi e =
      let n = cf.block_count in
      let b = f.bitmap_bloques in
      let s = primer_bloque-some b (f.config.block_count - i) i p e in
      let ip = s.0 in
      let pn = s.1 in
      let nb : f.config.block_count ≡ n = ap (λ z. z.block_count) ec in
      let ne : i ≢ p =
        λ q. (let x = v.libre hi in let y = subst (λ z. test_bit b z ≡ true) (sym q) s.3 in cc) in
      let en : n * f.config.block_size ≤ length f.bloques_dat =
        subst (λ z. n * z.block_size ≤ length f.bloques_dat) (sym ec)
          (omega (arith, v.largo_igual)) in
      let mb = mover_bloque_lem f n p i v.en_bitmap en (omega arith) hi in
      let h = mb.0 in
      let ch =
        subst (λ z. ConMetadata z h.lista_archivos_abierto) (sym mb.2.1)
          (subst (ConMetadata f.directorio) (sym mb.2.2) c) in
      let ma = mover_archivo_lem p i h ch in
      let w = p - i in
      let wp : p ≡ i + w = omega arith in
      let mv =
        subst (λ z. Movido z.block_size n p i b h.bitmap_bloques f.bloques_dat h.bloques_dat) ec
          mb.3 in
      let mvw =
        subst (λ z. Movido cf.block_size n z i b h.bitmap_bloques f.bloques_dat h.bloques_dat) wp
          mv in
      let r =
        Ronda-suc n cf.block_size largo ini b h.bitmap_bloques f.bloques_dat h.bloques_dat i w v
          (omega arith) (omega arith) (subst (Libres b i) wp s.2)
          (subst (λ z. test_bit b z ≡ true) wp s.3) mvw in
      (
        h,
        ma.0,
        mb.1,
        ma.1,
        ma.2 ∙ mb.2.0 ∙ ec,
        subst (λ z. Ronda n cf.block_size largo ini z ma.0.bloques_dat (suc i)) (sym ma.3)
            (subst (λ z. Ronda n cf.block_size largo ini h.bitmap_bloques z (suc i)) (sym ma.4) r),
        ma.5,
      )

  -- The loop at block `i`, from a mounted disk.
  compactar_bucle_lem :
      (cf : ConfigStruct) (f : Fs) (ini : List (List ℕ)) (largo k i : ℕ)
      → f.config ≡ cf
      → Ronda cf.block_count cf.block_size largo ini f.bitmap_bloques f.bloques_dat i
      → cf.block_count * cf.block_size ≤ largo
      → ConMetadata f.directorio f.lista_archivos_abierto
      → i + k ≡ cf.block_count
      → (g : Fs) × (compactar_bucle k i f ≡ some g)
        × (g.config ≡ cf)
        × (length g.bloques_dat ≡ largo)
        × ConMetadata g.directorio g.lista_archivos_abierto
        × ((m : ℕ) × (m ≤ cf.block_count)
            × Usados g.bitmap_bloques 0 m
            × Libres g.bitmap_bloques m cf.block_count)
        × (contenidos cf.block_size g.bloques_dat g.bitmap_bloques cf.block_count 0 ≡ ini)
  unfolding compactar_bucle primer_bloque_usado
  compactar_bucle_lem cf f ini largo zero i ec v hl c hk = (
    f,
    refl,
    ec,
    v.largo_igual,
    c,
    (i, omega arith, v.antes, λ j le lt. absurd (omega arith)),
    v.mismos,
  )
  compactar_bucle_lem cf f ini largo (suc k) i ec v hl c hk =
      let b = f.bitmap_bloques in
      let nb : f.config.block_count ≡ cf.block_count = ap (λ z. z.block_count) ec in
      elim (Option-cases (primer_bloque true b (f.config.block_count - i) i)) [
        | inl e ↦
            let l = primer_bloque-none b (f.config.block_count - i) i e in
            (
              f,
              rw (e, compactar_bucle) refl,
              ec,
              v.largo_igual,
              c,
              (i, omega arith, v.antes, λ j le lt. l j le (omega arith)),
              v.mismos,
            )
        | inr (p, e) ↦
            let r = ronda_lem cf f ini largo i p ec v hl c (omega arith) e in
            let ih = compactar_bucle_lem cf r.1 ini largo k (suc i) r.4 r.5 hl r.6 (omega arith) in
            (
              ih.0,
              rw (e, compactar_bucle) (rw (r.2, ◌>>=◌) (rw (r.3, ◌>>=◌) ih.1)),
              ih.2,
              ih.3,
              ih.4,
              ih.5,
              ih.6,
            )
      ]

  -- The first free block from `i` on, and that there is none.
  libre_none : (b : Bits) (k i : ℕ) → primer_bloque false b k i ≡ none → Usados b i (i + k)
  unfolding primer_bloque
  libre_none b zero i e = λ j le lt. absurd (omega arith)
  libre_none b (suc k) i e = elim (Bool-cases (test_bit b i)) [
    | inr y ↦ absurd (let h = (rw y at e) in cc)
    | inl n ↦
        let ih = libre_none b k (suc i) (rw n at e) in
        λ j le lt. elim (Bool-cases (i == j)) [
          | inl q ↦ subst (λ x. test_bit b x ≡ true) (==→≡ i j q) n
          | inr q ↦ let d = ==→ne i j q in ih j (omega arith) (omega arith)
        ]
  ]

  libre_some :
      (b : Bits) (k i p : ℕ)
      → primer_bloque false b k i ≡ some p
      → (i ≤ p) × (p < i + k) × Usados b i p × (test_bit b p ≡ false)
  unfolding primer_bloque
  libre_some b zero i p e = absurd cc
  libre_some b (suc k) i p e = elim (Bool-cases (test_bit b i)) [
    | inr y ↦
        let h : some i ≡ some p = (rw y at e) in
        let ip : i ≡ p = cc in
        (
          omega arith,
          omega arith,
          λ j le lt. absurd (omega arith),
          subst (λ x. test_bit b x ≡ false) ip y,
        )
    | inl n ↦
        let ih = libre_some b k (suc i) p (rw n at e) in
        let ih1 = ih.0 in
        (
          omega arith,
          omega (arith, ih.1),
          (λ j le lt. elim (Bool-cases (i == j)) [
            | inl q ↦ subst (λ x. test_bit b x ≡ true) (==→≡ i j q) n
            | inr q ↦ let d = ==→ne i j q in ih.2 j (omega arith) (omega arith)
          ]),
          ih.3,
        )
  ]

  -- The compaction of a mounted disk ends with a disk whose used blocks are those below some block,
  -- and hold, in the same order, what the used blocks held before; each open file still has its
  -- metadata file.
  pub compactar_bloques_lem :
      (f : Fs) → Montado f → (g : Fs) × (compactar_bloques f ≡ some g) × Compactado f g
  unfolding compactar_bloques primer_bloque_libre
  compactar_bloques_lem f m =
      let b = f.bitmap_bloques in
      let n = f.config.block_count in
      elim (Option-cases (primer_bloque false b n 0)) [
        | inl e ↦
            let u = libre_none b n 0 e in
            (
              f,
              rw (e, compactar_bloques) refl,
              record {
                config_igual = refl;
                largo_igual = refl;
                hasta = n;
                hasta_le = omega arith;
                usados = λ j le lt. u j le (omega arith);
                libres = λ j le lt. absurd (omega arith);
                mismos = refl;
                con_metadata = m.metadatos;
              },
            )
        | inr (p, e) ↦
            let u = libre_some b n 0 p e in
            let pn = u.1 in
            let r =
              compactar_bucle_lem f.config f (contenidos f.config.block_size f.bloques_dat b n 0)
                (length f.bloques_dat) (n - p) p refl
                (record {
                  en_bitmap = m.en_bitmap;
                  largo_igual = refl;
                  antes = u.2;
                  libre = λ _. u.3;
                  mismos = refl;
                })
                m.en_dat m.metadatos (omega arith) in
            (
              r.0,
              rw (e, compactar_bloques) r.1,
              record {
                config_igual = r.2;
                largo_igual = r.3;
                hasta = r.5.0;
                hasta_le = r.5.1;
                usados = r.5.2;
                libres = r.5.3;
                mismos = r.6;
                con_metadata = r.4;
              },
            )
      ]
