-- ===== src/Memoria/Marcos.antt =====
-- The search for free frames of paginacion.c (`buscar_marcos_libres`) and the marking of bits.
use tp_2024_1c_pccsc.Common.{
  ℕ, zero, suc, ◌+◌, ◌≤◌, ◌<◌, min, true, false, none, some, List, [], ◌∷◌, ◌≡◌, refl, ◌∙◌, arith,
  length, count, bit, ltb, if◌then◌else◌, Bool-cases, inl, inr, lt→ltb, ge→ltb,
}
use tp_2024_1c_pccsc.Common.Bitarray.{Bitarray}
use tp_2024_1c_pccsc.Memoria.{
  libres_desde, marcar_ocupados, buscar_marcos_libres, limpiar_desde, init_bitmap_marcos,
  tamanio_bitmap,
}

-- All the numbers of a list lie below `n`.
abbrev pub Acotados : ℕ → List ℕ → Type 0
Acotados n [] = Unit {0}
Acotados n (x ∷ xs) = (x < n) × Acotados n xs

pub Acotados-mono : {m n : ℕ} (xs : List ℕ) → m ≤ n → Acotados m xs → Acotados n xs
Acotados-mono [] h a = tt
Acotados-mono (x ∷ xs) h a = (omega arith, Acotados-mono xs h a.1)

module _ ⦃bits : Bitarray⦄ where
  open bits use {Bits, max_bit, test_bit, set_bit, clean_bit}

  -- How many of the `k` bits from `i` on are clear.
  pub contar_libres : Bits → ℕ → ℕ → ℕ
  contar_libres b zero i = 0
  contar_libres b (suc k) i = bit (if test_bit b i then false else true) + contar_libres b k (suc i)

  -- The search stops at the number asked for, or with every free frame.
  pub length-libres_desde :
      (b : Bits) (k i f : ℕ) → length (libres_desde b k i f) ≡ min f (contar_libres b k i)
  unfolding libres_desde contar_libres
  length-libres_desde b zero i f = omega arith
  length-libres_desde b (suc k) i zero = omega arith
  length-libres_desde b (suc k) i (suc f) = elim (Bool-cases (test_bit b i)) [
    | inl e ↦ rw e (omega (arith, length-libres_desde b k (suc i) (suc f)))
    | inr e ↦ rw e (omega (arith, length-libres_desde b k (suc i) f))
  ]

  pub libres_desde-Acotados : (b : Bits) (k i f : ℕ) → Acotados (i + k) (libres_desde b k i f)
  unfolding libres_desde
  libres_desde-Acotados b zero i f = tt
  libres_desde-Acotados b (suc k) i zero = tt
  libres_desde-Acotados b (suc k) i (suc f) = elim (Bool-cases (test_bit b i)) [
    | inl e ↦ rw e (Acotados-mono _ (omega arith) (libres_desde-Acotados b k (suc i) (suc f)))
    | inr e ↦
        rw e (omega arith, Acotados-mono _ (omega arith) (libres_desde-Acotados b k (suc i) f))
  ]

  -- Nothing below the start is found.
  pub count-libres_desde_lt : (b : Bits) (k i f j : ℕ) → j < i → count j (libres_desde b k i f) ≡ 0
  unfolding libres_desde
  count-libres_desde_lt b zero i f j h = refl
  count-libres_desde_lt b (suc k) i zero j h = refl
  count-libres_desde_lt b (suc k) i (suc f) j h = elim (Bool-cases (test_bit b i)) [
    | inl e ↦ rw e (count-libres_desde_lt b k (suc i) (suc f) j (omega arith))
    | inr e ↦ rw e (ground (arith, count-libres_desde_lt b k (suc i) f j (omega arith)))
  ]

  -- A frame is found at most once, and only if its bit is clear.
  pub count-libres_desde :
      (b : Bits) (k i f j : ℕ) → count j (libres_desde b k i f) + bit (test_bit b j) ≤ 1
  unfolding libres_desde
  count-libres_desde b zero i f j = ground arith
  count-libres_desde b (suc k) i zero j = ground arith
  count-libres_desde b (suc k) i (suc f) j = elim (Bool-cases (test_bit b i)) [
    | inl e ↦ rw e (count-libres_desde b k (suc i) (suc f) j)
    | inr e ↦
        rw e (
          ground (arith, count-libres_desde b k (suc i) f j, count-libres_desde_lt b k (suc i) f j))
  ]

  pub max_bit-marcar_ocupados :
      (b : Bits) (is : List ℕ)
      → Acotados (max_bit b) is
      → max_bit (marcar_ocupados b is) ≡ max_bit b
  unfolding marcar_ocupados
  max_bit-marcar_ocupados b [] a = refl
  max_bit-marcar_ocupados b (i ∷ is) a =
      let e = bits.max_bit-set b i a.0 in max_bit-marcar_ocupados (set_bit b i) is (rw e a.1) ∙ e

  -- Marking free, distinct frames sets exactly their bits.
  pub test-marcar_ocupados :
      (b : Bits) (is : List ℕ) (j : ℕ)
      → Acotados (max_bit b) is
      → count j is + bit (test_bit b j) ≤ 1
      → bit (test_bit (marcar_ocupados b is) j) ≡ count j is + bit (test_bit b j)
  unfolding marcar_ocupados
  test-marcar_ocupados b [] j a h = omega arith
  test-marcar_ocupados b (i ∷ is) j a h =
      let e = bits.max_bit-set b i a.0 in
      let s = bits.test-set b i j a.0 in
      let rec = test-marcar_ocupados (set_bit b i) is j (rw e a.1) in ground (arith, s, rec)

  -- `buscar_marcos_libres` fails exactly when fewer frames are free than asked for.
  pub buscar_marcos_libres-none :
      (n k : ℕ) (b : Bits) → contar_libres b n 0 < k → buscar_marcos_libres n k b ≡ none
  unfolding buscar_marcos_libres
  buscar_marcos_libres-none n k b h =
      rw (lt→ltb (length (libres_desde b n 0 k)) k (omega (arith, length-libres_desde b n 0 k)))

  pub buscar_marcos_libres-some :
      (n k : ℕ) (b : Bits)
      → k ≤ contar_libres b n 0
      → buscar_marcos_libres n k b
        ≡ some (libres_desde b n 0 k, marcar_ocupados b (libres_desde b n 0 k))
  unfolding buscar_marcos_libres
  buscar_marcos_libres-some n k b h =
      rw (ge→ltb (length (libres_desde b n 0 k)) k (omega (arith, length-libres_desde b n 0 k)))

  -- Cleaning the bits from `i` on leaves no bit set there.
  pub limpiar_desde_lem :
      (k i : ℕ) (b : Bits)
      → i + k ≤ max_bit b
      → (max_bit (limpiar_desde k i b) ≡ max_bit b)
        × ((j : ℕ)
            → bit (test_bit (limpiar_desde k i b) j) ≡ (
                if ltb j i
                then bit (test_bit b j)
                else if ltb j (i + k)
                then 0
                else bit (test_bit b j)))
  unfolding limpiar_desde
  limpiar_desde_lem zero i b h = (refl, λ j. ground arith)
  limpiar_desde_lem (suc k) i b h =
      let e = bits.max_bit-clean b i (omega arith) in
      let r = limpiar_desde_lem k (suc i) (clean_bit b i) (rw e (omega arith)) in
      (r.0 ∙ e, λ j. ground (arith, r.1 j, bits.test-clean b i j (omega arith)))

  -- Whatever the new bytes hold, the bitmap has room for every frame and all are free.
  pub init_bitmap_marcos_lem :
      (n : ℕ)
      → (n ≤ max_bit (init_bitmap_marcos n))
        × ((j : ℕ) → j < n → test_bit (init_bitmap_marcos n) j ≡ false)
  unfolding init_bitmap_marcos tamanio_bitmap
  init_bitmap_marcos_lem n =
      let b = bits.create_with_mode (tamanio_bitmap n) in
      let room : n ≤ max_bit b = ground (arith, bits.max_bit-create (tamanio_bitmap n)) in
      let r = limpiar_desde_lem n 0 b (omega arith) in (rw r.0 room, λ j h. ground (arith, r.1 j))
