-- ===== src/Common/Celdas.antt =====
-- A region of memory by its cells.
use tp_2024_1c_pccsc.Common.Lists.{length, take, drop, length-take}
use Prim.Native.Nat.{ℕ, zero, suc, ◌+◌, ◌-◌, ◌≤◌, ◌<◌}
use mathlib.Core.Path.{◌≡◌, refl, ap, ◌∙◌}
use mathlib.Core.Logic.{◌⊎◌, inl, inr}
use mathlib.Core.List.{List, [], ◌∷◌, ◌++◌, map}
use native.Mathlib.Omega.{arith}

-- The cell at a place; behind the end it is 0.
abbrev pub celda : List ℕ → ℕ → ℕ
celda [] i = 0
celda (x ∷ xs) zero = x
celda (x ∷ xs) (suc i) = celda xs i

-- The `n` places from `a` on.
abbrev pub rango : ℕ → ℕ → List ℕ
rango a zero = []
rango a (suc n) = a ∷ rango (suc a) n

pub length-rango : (a n : ℕ) → length (rango a n) ≡ n
length-rango a zero = refl
length-rango a (suc n) = ap suc (length-rango (suc a) n)

pub length-map : (f : ℕ → ℕ) (xs : List ℕ) → length (map f xs) ≡ length xs
length-map f [] = refl
length-map f (x ∷ xs) = ap suc (length-map f xs)

pub celda-append_antes : (xs ys : List ℕ) (i : ℕ) → i < length xs → celda (xs ++ ys) i ≡ celda xs i
celda-append_antes [] ys i h = absurd (omega arith)
celda-append_antes (x ∷ xs) ys zero h = refl
celda-append_antes (x ∷ xs) ys (suc i) h = celda-append_antes xs ys i (omega arith)

pub celda-append_despues : (xs ys : List ℕ) (i : ℕ) → celda (xs ++ ys) (length xs + i) ≡ celda ys i
celda-append_despues [] ys i = ap (celda ys) (omega arith)
celda-append_despues (x ∷ xs) ys i =
    ap (celda (x ∷ (xs ++ ys)))
      (let e : suc (length xs) + i ≡ suc (length xs + i) = omega arith in e)
    ∙ celda-append_despues xs ys i

pub celda-take : (n : ℕ) (xs : List ℕ) (i : ℕ) → i < n → celda (take n xs) i ≡ celda xs i
celda-take zero xs i h = absurd (omega arith)
celda-take (suc n) [] i h = refl
celda-take (suc n) (x ∷ xs) zero h = refl
celda-take (suc n) (x ∷ xs) (suc i) h = celda-take n xs i (omega arith)

pub celda-drop : (n : ℕ) (xs : List ℕ) (i : ℕ) → celda (drop n xs) i ≡ celda xs (n + i)
celda-drop zero xs i = ap (celda xs) (omega arith)
celda-drop (suc n) [] i = refl
celda-drop (suc n) (x ∷ xs) i =
    celda-drop n xs i ∙ ap (celda (x ∷ xs)) (let e : suc (n + i) ≡ suc n + i = omega arith in e)

pub celda-append_resto :
    (xs ys : List ℕ) (i : ℕ) → length xs ≤ i → celda (xs ++ ys) i ≡ celda ys (i - length xs)
celda-append_resto xs ys i h =
    ap (celda (xs ++ ys)) (let e : i ≡ length xs + (i - length xs) = omega arith in e)
    ∙ celda-append_despues xs ys (i - length xs)

map-celda-suc :
    (n d x : ℕ) (xs : List ℕ) → map (celda (x ∷ xs)) (rango (suc d) n) ≡ map (celda xs) (rango d n)
map-celda-suc zero d x xs = refl
map-celda-suc (suc n) d x xs = ap (◌∷◌ (celda xs d)) (map-celda-suc n (suc d) x xs)

-- A list by its cells.
pub map-celda-rango :
    (n d : ℕ) (xs : List ℕ) → d + n ≤ length xs → map (celda xs) (rango d n) ≡ take n (drop d xs)
map-celda-rango zero d xs h = refl
map-celda-rango (suc n) zero [] h = absurd (omega arith)
map-celda-rango (suc n) zero (x ∷ xs) h =
    ap (◌∷◌ x) (map-celda-suc n 0 x xs ∙ map-celda-rango n 0 xs (omega arith))
map-celda-rango (suc n) (suc d) [] h = absurd (omega arith)
map-celda-rango (suc n) (suc d) (x ∷ xs) h =
    map-celda-suc (suc n) d x xs ∙ map-celda-rango (suc n) d xs (omega arith)

-- The cells of a region after `memcpy` of `w` to place `d`.
pub celda-copiado_dentro :
    (r : List ℕ) (d : ℕ) (w : List ℕ) (x : ℕ)
    → d + length w ≤ length r
    → d ≤ x
    → x < d + length w
    → celda (take d r ++ (w ++ drop (d + length w) r)) x ≡ celda w (x - d)
celda-copiado_dentro r d w x h a b =
    let t = length-take d r in
    celda-append_resto (take d r) (w ++ drop (d + length w) r) x (omega arith)
    ∙ ap (celda (w ++ drop (d + length w) r))
        (let e : x - length (take d r) ≡ x - d = omega arith in e)
    ∙ celda-append_antes w (drop (d + length w) r) (x - d) (omega arith)

pub celda-copiado_fuera :
    (r : List ℕ) (d : ℕ) (w : List ℕ) (x : ℕ)
    → d + length w ≤ length r
    → (x < d) ⊎ (d + length w ≤ x)
    → celda (take d r ++ (w ++ drop (d + length w) r)) x ≡ celda r x
celda-copiado_fuera r d w x h (inl a) =
    let t = length-take d r in
    celda-append_antes (take d r) (w ++ drop (d + length w) r) x (omega arith) ∙ celda-take d r x a
celda-copiado_fuera r d w x h (inr b) =
    let t = length-take d r in
    celda-append_resto (take d r) (w ++ drop (d + length w) r) x (omega arith)
    ∙ celda-append_resto w (drop (d + length w) r) (x - length (take d r)) (omega arith)
    ∙ celda-drop (d + length w) r (x - length (take d r) - length w)
    ∙ ap (celda r)
        (let e : d + length w + (x - length (take d r) - length w) ≡ x = omega arith in e)

pub map-map : (g f : ℕ → ℕ) (xs : List ℕ) → map g (map f xs) ≡ map (λ x. g (f x)) xs
map-map g f [] = refl
map-map g f (x ∷ xs) = ap (◌∷◌ (g (f x))) (map-map g f xs)
