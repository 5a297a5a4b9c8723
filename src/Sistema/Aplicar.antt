-- ===== src/Sistema/Aplicar.antt =====
-- What the writes of a list of requests do to the cells of the memory.
use tp_2024_1c_pccsc.Common.{
  ℕ, zero, suc, ◌+◌, ◌≤◌, ◌<◌, some, List, [], ◌∷◌, ◌++◌, ◌≡◌, ◌⊎◌, inl, inr, refl, sym, ◌∙◌, ap,
  subst, arith, length, take, drop, length-take, length-drop, length-append, map, count,
  count-append, ◌==◌, ltb, Bool-cases, ltb→lt, ltb→ge, ==→ne, ◌>>=◌,
}
use mathlib.Core.List.{map-append}
use tp_2024_1c_pccsc.Common.Bitarray.{Bitarray}
use tp_2024_1c_pccsc.Common.Celdas.{
  celda, rango, map-celda-rango, celda-copiado_fuera, length-rango,
}
use tp_2024_1c_pccsc.Common.Bytes.{length-copiado, leer-copiado, drop-drop}
use tp_2024_1c_pccsc.Cpu.Mmu.{Peticion}
use tp_2024_1c_pccsc.Cpu.Mmu.Traduccion.{expandir, Contiguas}
use tp_2024_1c_pccsc.Memoria.{Memoria}
use tp_2024_1c_pccsc.Memoria.Espacio.Accesos.{escribir_memoria_lem}
use tp_2024_1c_pccsc.Sistema.Mensajes.{parte, Dentro, aplicar}

-- No place is reached twice.
abbrev pub SinRepetir : List ℕ → Type 0
SinRepetir xs = (x : ℕ) → count x xs ≤ 1

-- Every request lies in a memory of `n` bytes.
abbrev pub EnMemoria : ℕ → List Peticion → Type 0
EnMemoria n [] = Unit {0}
EnMemoria n (p ∷ ps) = (p.direccion_fisica + p.bytes ≤ n) × EnMemoria n ps

abbrev pub partes : List ℕ → List Peticion → List ℕ
partes dato [] = []
partes dato (p ∷ ps) = parte dato p ++ partes dato ps

pub count-rango : (x a n : ℕ) → (x < a) ⊎ (a + n ≤ x) → count x (rango a n) ≡ 0
count-rango x a zero h = refl
count-rango x a (suc n) (inl h) =
    let i = count-rango x (suc a) n (inl (omega arith)) in ground arith
count-rango x a (suc n) (inr h) =
    let i = count-rango x (suc a) n (inr (omega arith)) in ground arith

pub count-rango_dentro : (x a n : ℕ) → a ≤ x → x < a + n → 0 < count x (rango a n)
count-rango_dentro x a zero h k = absurd (omega arith)
count-rango_dentro x a (suc n) h k = elim (Bool-cases (a == x)) [
  | inl y ↦ rw y (omega arith)
  | inr z ↦
      let ne = ==→ne a x z in
      let i = count-rango_dentro x (suc a) n (omega arith) (omega arith) in omega arith
]

map-celda_igual :
    (f g : ℕ → ℕ) (xs : List ℕ) → ((x : ℕ) → 0 < count x xs → f x ≡ g x) → map f xs ≡ map g xs
map-celda_igual f g [] h = refl
map-celda_igual f g (x ∷ xs) h =
    let c : 0 < count x (x ∷ xs) = ground arith in
    rw (h x c, map-celda_igual f g xs (λ y k. h y (omega arith))) refl

length-parte :
    (dato : List ℕ) (p : Peticion)
    → p.desde + p.bytes ≤ length dato
    → length (parte dato p) ≡ p.bytes
length-parte dato p h =
    omega (arith, length-take p.bytes (drop p.desde dato), length-drop p.desde dato)

take-suma : (a b : ℕ) (xs : List ℕ) → take (a + b) xs ≡ take a xs ++ take b (drop a xs)
take-suma zero b xs = ap (λ z. take z xs) (omega arith)
take-suma (suc a) zero [] =
    ap (λ z. take z []) (let e : suc a + zero ≡ suc (a + 0) = omega arith in e)
take-suma (suc a) (suc b) [] =
    ap (λ z. take z []) (let e : suc a + suc b ≡ suc (a + suc b) = omega arith in e)
take-suma (suc a) b (x ∷ xs) =
    ap (λ z. take z (x ∷ xs)) (let e : suc a + b ≡ suc (a + b) = omega arith in e)
    ∙ ap (◌∷◌ x) (take-suma a b xs)

-- The parts together are what the datum holds from the first on.
pub partes-Contiguas :
    (dato : List ℕ) (ps : List Peticion) (e : ℕ)
    → Contiguas e ps
    → Dentro dato ps
    → partes dato ps ≡ take (length (expandir ps)) (drop e dato)
partes-Contiguas dato [] e c h = refl
partes-Contiguas dato (p ∷ ps) e c h =
    let l = length-append (rango p.direccion_fisica p.bytes) (expandir ps) in
    let n : p.bytes + length (expandir ps) ≡ length (expandir (p ∷ ps)) =
      omega (arith, length-rango p.direccion_fisica p.bytes) in
    rw (partes-Contiguas dato ps (e + p.bytes) c.1 h.1) (
      ap (λ z. take p.bytes (drop z dato) ++ take (length (expandir ps)) (drop (e + p.bytes) dato))
        c.0
      ∙ ap (λ z. take p.bytes (drop e dato) ++ take (length (expandir ps)) z)
          (sym (drop-drop p.bytes e dato))
      ∙ sym (take-suma p.bytes (length (expandir ps)) (drop e dato))
      ∙ ap (λ z. take z (drop e dato)) n)

fuera : (d n x k : ℕ) → k ≡ n → count x (rango d n) ≡ 0 → (x < d) ⊎ (d + k ≤ x)
fuera d n x k e c = elim (Bool-cases (ltb x d)) [
  | inl y ↦ inl (ltb→lt x d y)
  | inr z ↦ elim (Bool-cases (ltb x (d + k))) [
    | inl y ↦
        let a = ltb→ge x d z in
        let b = ltb→lt x (d + k) y in
        absurd (omega (arith, count-rango_dentro x d n a (omega arith)))
    | inr v ↦ inr (ltb→ge x (d + k) v)
  ]
]

module _ ⦃bits : Bitarray⦄ where
  pub aplicar_lem :
      (dato : List ℕ) (ps : List Peticion) (m : Memoria)
      → Dentro dato ps
      → EnMemoria (length m.memoria) ps
      → SinRepetir (expandir ps)
      → (s : List ℕ) × (aplicar dato ps m ≡ some (record m { memoria = s }))
        × (length s ≡ length m.memoria)
        × ((x : ℕ) → count x (expandir ps) ≡ 0 → celda s x ≡ celda m.memoria x)
        × (map (celda s) (expandir ps) ≡ partes dato ps)
  unfolding aplicar
  aplicar_lem dato [] m h e u = (m.memoria, refl, refl, λ x c. refl, refl)
  aplicar_lem dato (p ∷ ps) m h e u =
      let w = parte dato p in
      let d = p.direccion_fisica in
      let lw = length-parte dato p h.0 in
      let cabe : d + length w ≤ length m.memoria = omega (arith, e.0) in
      let s1 = take d m.memoria ++ (w ++ drop (d + length w) m.memoria) in
      let l1 = length-copiado m.memoria d w cabe in
      let c : (x : ℕ)
          → count x (expandir (p ∷ ps)) ≡ count x (rango d p.bytes) + count x (expandir ps) =
        λ x. count-append x (rango d p.bytes) (expandir ps) in
      let (s, run, l, otros, propios) =
        aplicar_lem dato ps (record m { memoria = s1 }) h.1
          (subst (λ n. EnMemoria n ps) (sym l1) e.1) (λ x. omega (arith, u x, c x)) in
      (
        s,
        rw (escribir_memoria_lem d w m cabe, ◌>>=◌) run,
        l ∙ l1,
        (λ x z.
            let en_ps : count x (expandir ps) ≡ 0 = omega (arith, z, c x) in
            let no_aqui : count x (rango d p.bytes) ≡ 0 = omega (arith, z, c x) in
            otros x en_ps
            ∙ celda-copiado_fuera m.memoria d w x cabe (fuera d p.bytes x (length w) lw no_aqui)),
        map-append (celda s) (rango d p.bytes) (expandir ps)
            ∙ rw propios (
                ap (λ z. z ++ partes dato ps)
                  (map-celda_igual (celda s) (celda s1) (rango d p.bytes)
                      (λ x k. otros x (let ux = u x in omega (arith, c x)))
                    ∙ map-celda-rango p.bytes d s1 (omega arith)
                    ∙ ap (λ z. take z (drop d s1)) (sym lw)
                    ∙ leer-copiado m.memoria d w cabe)),
      )
