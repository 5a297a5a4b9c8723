-- ===== src/Cpu/Interrupciones/Insercion.antt =====
-- An insertion sort by priority, which does what is asked of the library's `list_sort`.
use mathlib.Core.List.{Memᴰ}
use mathlib.Core.List.Memᴰ
use tp_2024_1c_pccsc.Common.{
  ◌≤◌, false, List, [], ◌∷◌, ◌≡◌, inl, inr, ap, arith, if◌then◌else◌, Bool-cases, ltb→ge, ltb→lt,
  ge→ltb,
}
use tp_2024_1c_pccsc.Cpu.Interrupciones.{Pic, comparar_prioridad}
use tp_2024_1c_pccsc.Cpu.Interrupciones.Prioridad.{Ordenada, Ordena}

unfoldable pub insertar : Pic → List Pic → List Pic
insertar x [] = x ∷ []
insertar x (y ∷ ys) =
    let resto = insertar x ys in if comparar_prioridad y x then y ∷ resto else x ∷ y ∷ ys

unfoldable pub ordenar : List Pic → List Pic
unfolding insertar
ordenar [] = []
ordenar (x ∷ xs) = insertar x (ordenar xs)

Mem-insertar : (x j : Pic) (ys : List Pic) → Memᴰ j (x ∷ ys) → Memᴰ j (insertar x ys)
unfolding insertar
Mem-insertar x j [] h = h
Mem-insertar x j (y ∷ ys) h = elim (Bool-cases (comparar_prioridad y x)) [
  | inr n ↦ rw n h
  | inl s ↦ elim (Memᴰ.cases_cons h) [
    | inl e ↦ rw s (Memᴰ.tail (Mem-insertar x j ys (Memᴰ.head e)))
    | inr m ↦ elim (Memᴰ.cases_cons m) [
      | inl e ↦ rw s (Memᴰ.head e)
      | inr k ↦ rw s (Memᴰ.tail (Mem-insertar x j ys (Memᴰ.tail k)))
    ]
  ]
]

insertar-Mem : (x j : Pic) (ys : List Pic) → Memᴰ j (insertar x ys) → Memᴰ j (x ∷ ys)
unfolding insertar
insertar-Mem x j [] h = h
insertar-Mem x j (y ∷ ys) h = elim (Bool-cases (comparar_prioridad y x)) [
  | inr n ↦ (rw n at h)
  | inl s ↦ elim (Memᴰ.cases_cons (rw s at h)) [
    | inl e ↦ Memᴰ.tail (Memᴰ.head e)
    | inr k ↦ elim (Memᴰ.cases_cons (insertar-Mem x j ys k)) [
      | inl e ↦ Memᴰ.head e
      | inr m ↦ Memᴰ.tail (Memᴰ.tail m)
    ]
  ]
]

no_antes : (a b : Pic) → b.bit_prioridad ≤ a.bit_prioridad → comparar_prioridad a b ≡ false
no_antes a b h = ge→ltb a.bit_prioridad b.bit_prioridad h

insertar-Ordenada : (x : Pic) (ys : List Pic) → Ordenada ys → Ordenada (insertar x ys)
unfolding insertar
insertar-Ordenada x [] o = ((λ j h. absurd (Memᴰ.not-nil h)), tt)
insertar-Ordenada x (y ∷ ys) o = elim (Bool-cases (comparar_prioridad y x)) [
  | inl s ↦
      let l = ltb→lt y.bit_prioridad x.bit_prioridad s in
      rw s (
        (λ j h. elim (Memᴰ.cases_cons (insertar-Mem x j ys h)) [
          | inl e ↦ let q = ap (λ z. z.bit_prioridad) e in no_antes j y (omega arith)
          | inr m ↦ o.0 j m
        ]),
        insertar-Ordenada x ys o.1,
      )
  | inr n ↦
      let l = ltb→ge y.bit_prioridad x.bit_prioridad n in
      rw n (
        (λ j h. elim (Memᴰ.cases_cons h) [
          | inl e ↦ let q = ap (λ z. z.bit_prioridad) e in no_antes j x (omega arith)
          | inr m ↦
              let r = ltb→ge j.bit_prioridad y.bit_prioridad (o.0 j m) in no_antes j x (omega arith)
        ]),
        o,
      )
]

ordenar-Mem : (i : Pic) (is : List Pic) → Memᴰ i is → Memᴰ i (ordenar is)
unfolding ordenar
ordenar-Mem i [] h = h
ordenar-Mem i (x ∷ xs) h = elim (Memᴰ.cases_cons h) [
  | inl e ↦ Mem-insertar x i (ordenar xs) (Memᴰ.head e)
  | inr m ↦ Mem-insertar x i (ordenar xs) (Memᴰ.tail (ordenar-Mem i xs m))
]

Mem-ordenar : (i : Pic) (is : List Pic) → Memᴰ i (ordenar is) → Memᴰ i is
unfolding ordenar
Mem-ordenar i [] h = h
Mem-ordenar i (x ∷ xs) h = elim (Memᴰ.cases_cons (insertar-Mem x i (ordenar xs) h)) [
  | inl e ↦ Memᴰ.head e
  | inr m ↦ Memᴰ.tail (Mem-ordenar i xs m)
]

ordenar-Ordenada : (is : List Pic) → Ordenada (ordenar is)
unfolding ordenar
ordenar-Ordenada [] = tt
ordenar-Ordenada (x ∷ xs) = insertar-Ordenada x (ordenar xs) (ordenar-Ordenada xs)

pub ordenar-Ordena : Ordena ordenar
ordenar-Ordena = record { entra = ordenar-Mem; sale = Mem-ordenar; ordenada = ordenar-Ordenada }
