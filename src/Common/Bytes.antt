-- ===== src/Common/Bytes.antt =====
-- Bytes in memory: `memcpy` into and out of a region, and the little-endian bytes of a number.
-- An access outside the region is a fault, `none`.
use Prim.Native.Nat.{ℕ, zero, suc, ◌+◌, ◌-◌, ◌*◌, ◌/◌, ◌%◌, ◌^◌, ◌≤◌, ◌<◌}
use mathlib.Core.Path.{◌≡◌, refl, ap, ◌∙◌}
use mathlib.Core.List.{List, [], ◌∷◌, ◌++◌}
use mathlib.Core.Option.{Option, none, some}
use native.Mathlib.Omega.{arith}
use tp_2024_1c_pccsc.Common.Tests.{ltb, if◌then◌else◌, ge→ltb, lt→ltb}
use tp_2024_1c_pccsc.Common.Lists.{length, take, drop, length-append, length-take, length-drop}

-- `memcpy(region + pos, datos, n)`, n the length of `datos`.
unfoldable pub copiar_a : List ℕ → ℕ → List ℕ → Option (List ℕ)
copiar_a region pos datos =
    if ltb (length region) (pos + length datos)
    then none
    else some (take pos region ++ (datos ++ drop (pos + length datos) region))

-- `memcpy(datos, region + pos, n)`
unfoldable pub copiar_de : List ℕ → ℕ → ℕ → Option (List ℕ)
copiar_de region pos n =
    if ltb (length region) (pos + n) then none else some (take n (drop pos region))

module _ {ℓ} {A : Type ℓ} where
  pub take-append_left : (xs ys : List A) (n : ℕ) → n ≤ length xs → take n (xs ++ ys) ≡ take n xs
  take-append_left xs ys zero h = refl
  take-append_left [] ys (suc n) h = absurd (omega arith)
  take-append_left (x ∷ xs) ys (suc n) h = ap (◌∷◌ x) (take-append_left xs ys n (omega arith))

  pub drop-append_right : (xs ys : List A) (n : ℕ) → drop (length xs + n) (xs ++ ys) ≡ drop n ys
  drop-append_right [] ys n = ap (λ k. drop k ys) (omega arith)
  drop-append_right (x ∷ xs) ys n =
      ap (λ k. drop k (x ∷ (xs ++ ys)))
        (let e : suc (length xs) + n ≡ suc (length xs + n) = omega arith in e)
      ∙ drop-append_right xs ys n

  pub take-length : (xs ys : List A) → take (length xs) (xs ++ ys) ≡ xs
  take-length [] ys = refl
  take-length (x ∷ xs) ys = ap (◌∷◌ x) (take-length xs ys)

  pub take-drop-append_left :
      (xs ys : List A) (n p : ℕ)
      → p + n ≤ length xs
      → take n (drop p (xs ++ ys)) ≡ take n (drop p xs)
  take-drop-append_left xs ys n zero h = take-append_left xs ys n (omega arith)
  take-drop-append_left [] ys n (suc p) h = absurd (omega arith)
  take-drop-append_left (x ∷ xs) ys n (suc p) h = take-drop-append_left xs ys n p (omega arith)

  pub drop-drop : (m n : ℕ) (xs : List A) → drop m (drop n xs) ≡ drop (n + m) xs
  drop-drop m zero xs = ap (λ k. drop k xs) (omega arith)
  drop-drop zero (suc n) [] =
      ap (λ k. drop {A = A} k []) (let e : suc n ≡ suc n + 0 = omega arith in e)
  drop-drop (suc m) (suc n) [] =
      ap (λ k. drop {A = A} k []) (let e : suc (n + suc m) ≡ suc n + suc m = omega arith in e)
  drop-drop m (suc n) (x ∷ xs) =
      drop-drop m n xs
      ∙ ap (λ k. drop k (x ∷ xs)) (let e : suc (n + m) ≡ suc n + m = omega arith in e)

  pub take-take_le : (k n : ℕ) (t : List A) → k ≤ n → take k (take n t) ≡ take k t
  take-take_le zero n t h = refl
  take-take_le (suc k) zero t h = absurd (omega arith)
  take-take_le (suc k) (suc n) [] h = refl
  take-take_le (suc k) (suc n) (p ∷ t) h = ap (◌∷◌ p) (take-take_le k n t (omega arith))

  pub take-drop-take :
      (n p q : ℕ) (t : List A) → p + n ≤ q → take n (drop p (take q t)) ≡ take n (drop p t)
  take-drop-take n zero q t h = take-take_le n q t (omega arith)
  take-drop-take n (suc p) zero t h = absurd (omega arith)
  take-drop-take n (suc p) (suc q) [] h = refl
  take-drop-take n (suc p) (suc q) (x ∷ t) h = take-drop-take n p q t (omega arith)

pub copiar_a-fits :
    (r : List ℕ) (p : ℕ) (d : List ℕ)
    → p + length d ≤ length r
    → copiar_a r p d ≡ some (take p r ++ (d ++ drop (p + length d) r))
unfolding copiar_a
copiar_a-fits r p d h = rw (ge→ltb (length r) (p + length d) h) refl

pub copiar_a-none :
    (r : List ℕ) (p : ℕ) (d : List ℕ) → length r < p + length d → copiar_a r p d ≡ none
unfolding copiar_a
copiar_a-none r p d h = rw (lt→ltb (length r) (p + length d) h) refl

pub copiar_de-fits :
    (r : List ℕ) (p n : ℕ) → p + n ≤ length r → copiar_de r p n ≡ some (take n (drop p r))
unfolding copiar_de
copiar_de-fits r p n h = rw (ge→ltb (length r) (p + n) h) refl

pub length-copiado :
    (r : List ℕ) (p : ℕ) (d : List ℕ)
    → p + length d ≤ length r
    → length (take p r ++ (d ++ drop (p + length d) r)) ≡ length r
length-copiado r p d h = omega (
  arith,
  length-append (take p r) (d ++ drop (p + length d) r),
  length-append d (drop (p + length d) r),
  length-take p r,
  length-drop (p + length d) r,
)

-- What was written is read back.
pub leer-copiado :
    (r : List ℕ) (p : ℕ) (d : List ℕ)
    → p + length d ≤ length r
    → take (length d) (drop p (take p r ++ (d ++ drop (p + length d) r))) ≡ d
leer-copiado r p d h =
    let l : p ≡ length (take p r) + 0 = omega (arith, length-take p r) in
    let e = ap (λ k. drop k (take p r ++ (d ++ drop (p + length d) r))) l in
    rw (e, drop-append_right (take p r) (d ++ drop (p + length d) r) 0)
      (take-length d (drop (p + length d) r))

-- Bytes before and behind the written range are as before.
pub leer-copiado_antes :
    (r : List ℕ) (p : ℕ) (d : List ℕ) (q n : ℕ)
    → p + length d ≤ length r
    → q + n ≤ p
    → take n (drop q (take p r ++ (d ++ drop (p + length d) r))) ≡ take n (drop q r)
leer-copiado_antes r p d q n h k =
    take-drop-append_left (take p r) (d ++ drop (p + length d) r) n q
      (omega (arith, length-take p r))
    ∙ take-drop-take n q p r k

pub leer-copiado_despues :
    (r : List ℕ) (p : ℕ) (d : List ℕ) (q n : ℕ)
    → p + length d ≤ length r
    → p + length d ≤ q
    → take n (drop q (take p r ++ (d ++ drop (p + length d) r))) ≡ take n (drop q r)
leer-copiado_despues r p d q n h k =
    let m = q - (p + length d) in
    let l : q ≡ length (take p r) + (length d + m) = omega (arith, length-take p r) in
    let e = ap (λ k. drop k (take p r ++ (d ++ drop (p + length d) r))) l in
    ap (take n) (
      e
      ∙ drop-append_right (take p r) (d ++ drop (p + length d) r) (length d + m)
      ∙ drop-append_right d (drop (p + length d) r) m
      ∙ drop-drop m (p + length d) r
      ∙ ap (λ k. drop k r) (let s : p + length d + m ≡ q = omega arith in s))

-- The four bytes of an unsigned 32-bit number, the lowest first.
unfoldable pub bytes_uint32 : ℕ → List ℕ
bytes_uint32 x = x % 256 ∷ x / 256 % 256 ∷ x / 65536 % 256 ∷ x / 16777216 % 256 ∷ []

unfoldable pub valor_uint32 : List ℕ → ℕ
valor_uint32 (a ∷ b ∷ c ∷ d ∷ _) = a + 256 * b + 65536 * c + 16777216 * d
valor_uint32 _ = 0

pub length-bytes_uint32 : (x : ℕ) → length (bytes_uint32 x) ≡ 4
unfolding bytes_uint32
length-bytes_uint32 x = refl

pub valor-bytes_uint32 : (x : ℕ) → x < 2 ^ 32 → valor_uint32 (bytes_uint32 x) ≡ x
unfolding bytes_uint32 valor_uint32
valor-bytes_uint32 x h = omega arith
