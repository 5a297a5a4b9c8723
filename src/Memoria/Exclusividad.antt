-- ===== src/Memoria/Exclusividad.antt =====
-- From the invariant: a frame is of one page of one process, and lies in the memory.
use native.Mathlib.Nat.{mul-le-mul_right}
use tp_2024_1c_pccsc.Common.{
  ℕ, zero, suc, ◌+◌, ◌*◌, ◌≤◌, ◌<◌, some, List, [], ◌∷◌, ◌≡◌, ◌≢◌, refl, sym, ◌∙◌, ap, subst, arith,
  length, get_elem?, count, ◌==◌, ltb, if◌then◌else◌, ◌>>=◌, Bool-cases, inl, inr, ==→≡, ne→==,
  ltb→lt, ltb→ge,
}
use tp_2024_1c_pccsc.Common.Bitarray.{Bitarray}
use tp_2024_1c_pccsc.Common.Celdas.{celda}
use tp_2024_1c_pccsc.Memoria.{
  Pagina, Pcb, Memoria, buscar_pcb, quitar_pcb, get_element_from_pid, obtener_marco_proceso,
}
use tp_2024_1c_pccsc.Memoria.Paginas.{marcos, count-quitar_pcb}
use tp_2024_1c_pccsc.Memoria.Invariante.{Inv, usos, ocupado}

-- The frame of page `q` of a process.
abbrev pub marco_de : Pcb → ℕ → ℕ
marco_de p q = celda (marcos p.tabla_paginas) q

pub length-marcos : (t : List Pagina) → length (marcos t) ≡ length t
length-marcos [] = refl
length-marcos (p ∷ t) = ap suc (length-marcos t)

get_elem-marcos :
    (t : List Pagina) (q : ℕ)
    → q < length t
    → (g : Pagina) × (get_elem? t q ≡ some g) × (g.id_marco ≡ celda (marcos t) q)
get_elem-marcos [] q h = absurd (omega arith)
get_elem-marcos (p ∷ t) zero h = (p, refl, refl)
get_elem-marcos (p ∷ t) (suc q) h = get_elem-marcos t q (omega arith)

count-celda : (xs : List ℕ) (q : ℕ) → q < length xs → 0 < count (celda xs q) xs
count-celda [] q h = absurd (omega arith)
count-celda (x ∷ xs) zero h = ground arith
count-celda (x ∷ xs) (suc q) h = let c = count-celda xs q (omega arith) in omega arith

count-celda_dos :
    (xs : List ℕ) (q r : ℕ)
    → q < r
    → r < length xs
    → celda xs q ≡ celda xs r
    → 1 < count (celda xs r) xs
count-celda_dos [] q r h k e = absurd (omega arith)
count-celda_dos (x ∷ xs) q zero h k e = absurd (omega arith)
count-celda_dos (x ∷ xs) zero (suc r) h k e = let c = count-celda xs r (omega arith) in ground arith
count-celda_dos (x ∷ xs) (suc q) (suc r) h k e =
    let c = count-celda_dos xs q r (omega arith) (omega arith) e in omega arith

buscar-quitar_pcb :
    (pid j : ℕ) (ps : List Pcb) → pid ≢ j → buscar_pcb j (quitar_pcb pid ps) ≡ buscar_pcb j ps
unfolding buscar_pcb quitar_pcb
buscar-quitar_pcb pid j [] h = refl
buscar-quitar_pcb pid j (p ∷ ps) h = elim (Bool-cases (p.pid == pid)) [
  | inl y ↦
      let e = ==→≡ p.pid pid y in
      let ne : p.pid ≢ j = λ z. h (sym e ∙ z) in rw y (rw (ne→== p.pid j ne) refl)
  | inr n ↦ rw n (ap (λ z. if p.pid == j then some p else z) (buscar-quitar_pcb pid j ps h))
]

module _ ⦃bits : Bitarray⦄ (m : Memoria) (v : Inv m) where
  count_le : (i : ℕ) → usos m i ≤ 1
  count_le i = let e = v.duenio i in ground arith

  module _ (pid : ℕ) (p : Pcb) (e : buscar_pcb pid m.lista_pcb_tablas_paginas ≡ some p) where
    pub obtener_marco_lem :
        (q : ℕ) → q < length p.tabla_paginas → obtener_marco_proceso pid q m ≡ some (marco_de p q)
    unfolding obtener_marco_proceso get_element_from_pid
    obtener_marco_lem q h =
        let (g, eg, ig) = get_elem-marcos p.tabla_paginas q h in
        rw (e, ◌>>=◌) (rw (eg, ◌>>=◌) (ap some ig))

    usos-marco :
        (q : ℕ) → q < length p.tabla_paginas → 0 < count (marco_de p q) (marcos p.tabla_paginas)
    usos-marco q h =
        count-celda (marcos p.tabla_paginas) q (omega (arith, length-marcos p.tabla_paginas))

    pub marco_acotado :
        (q : ℕ)
        → q < length p.tabla_paginas
        → marco_de p q * m.config.tam_pagina + m.config.tam_pagina ≤ length m.memoria
    marco_acotado q h =
        let i = marco_de p q in
        let d = v.duenio i in
        let c = count-quitar_pcb pid i m.lista_pcb_tablas_paginas p e in
        let u = usos-marco q h in
        let lt : i < m.cantidad_marcos_totales =
          elim (Bool-cases (ltb i m.cantidad_marcos_totales)) [
            | inl y ↦ ltb→lt i m.cantidad_marcos_totales y
            | inr n ↦ absurd (let z : ocupado m i ≡ 0 = rw n refl in omega (arith, d, c, u, z))
          ] in
        let s : suc i * m.config.tam_pagina ≤ m.cantidad_marcos_totales * m.config.tam_pagina =
          mul-le-mul_right m.config.tam_pagina
            (let z : suc i ≤ m.cantidad_marcos_totales = omega arith in z) in
        omega (arith, s, v.espacio)

    pub marco_unico :
        (q r : ℕ)
        → q < length p.tabla_paginas
        → r < length p.tabla_paginas
        → marco_de p q ≡ marco_de p r
        → q ≡ r
    marco_unico q r hq hr k =
        let i = marco_de p r in
        let l = length-marcos p.tabla_paginas in
        let c = count-quitar_pcb pid i m.lista_pcb_tablas_paginas p e in
        let u = count_le i in
        elim (Bool-cases (ltb q r)) [
          | inl y ↦
              let d = count-celda_dos (marcos p.tabla_paginas) q r (ltb→lt q r y) (omega arith) k in
              absurd (omega arith)
          | inr y ↦ elim (Bool-cases (ltb r q)) [
            | inl z ↦
                let d =
                  count-celda_dos (marcos p.tabla_paginas) r q (ltb→lt r q z) (omega arith)
                    (sym k) in
                let d' = subst (λ x. 1 < count x (marcos p.tabla_paginas)) k d in
                absurd (omega arith)
            | inr z ↦ let a = ltb→ge q r y in let b = ltb→ge r q z in omega arith
          ]
        ]

    pub marco_ajeno :
        (j : ℕ) (pj : Pcb) (q r : ℕ)
        → pid ≢ j
        → buscar_pcb j m.lista_pcb_tablas_paginas ≡ some pj
        → q < length p.tabla_paginas
        → r < length pj.tabla_paginas
        → marco_de p q ≢ marco_de pj r
    marco_ajeno j pj q r h ej hq hr k =
        let i = marco_de p q in
        let c = count-quitar_pcb pid i m.lista_pcb_tablas_paginas p e in
        let c2 =
          count-quitar_pcb j i (quitar_pcb pid m.lista_pcb_tablas_paginas) pj
            (buscar-quitar_pcb pid j m.lista_pcb_tablas_paginas h ∙ ej) in
        let u = count_le i in
        let a = usos-marco q hq in
        let l = length-marcos pj.tabla_paginas in
        let b =
          subst (λ x. 0 < count x (marcos pj.tabla_paginas)) (sym k)
            (count-celda (marcos pj.tabla_paginas) r (omega arith)) in
        omega arith
