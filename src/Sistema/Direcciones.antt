-- ===== src/Sistema/Direcciones.antt =====
-- Physical addresses of the bytes of processes: inside the memory, each of one byte of one process.
use native.Mathlib.Nat.{
  div-eq_of_lt-le, mod-lt, mod-eq-sub-div-mul, div-mul-le_self, mul-le-mul_right,
}
use tp_2024_1c_pccsc.Common.{
  ℕ, ◌+◌, ◌*◌, ◌/◌, ◌%◌, ◌<◌, some, ◌≡◌, ◌≢◌, sym, ◌∙◌, ap, arith, length, inl, inr, ltb,
  Bool-cases, ltb→lt, ltb→ge,
}
use tp_2024_1c_pccsc.Common.Bitarray.{Bitarray}
use tp_2024_1c_pccsc.Common.Celdas.{celda}
use tp_2024_1c_pccsc.Cpu.Mmu.Traduccion.{traducir}
use tp_2024_1c_pccsc.Memoria.{Pcb, Memoria, buscar_pcb}
use tp_2024_1c_pccsc.Memoria.Invariante.{Inv}
use tp_2024_1c_pccsc.Memoria.Exclusividad.{marco_de, marco_acotado, marco_unico, marco_ajeno}

cociente_unico : (t x y r s : ℕ) → r < t → s < t → x * t + r ≡ y * t + s → x ≡ y
cociente_unico t x y r s hr hs e =
    let a : (x * t + r) / t ≡ x = div-eq_of_lt-le t (omega arith) (grind arith) in
    let b : (y * t + s) / t ≡ y = div-eq_of_lt-le t (omega arith) (grind arith) in
    sym a ∙ ap (λ z. z / t) e ∙ b

division : (t a : ℕ) → a ≡ a / t * t + a % t
division t a = let m = mod-eq-sub-div-mul a t in let l = div-mul-le_self a t in omega arith

pub pagina_lt : (t a n : ℕ) → 0 < t → a < n * t → a / t < n
pagina_lt t a n ht h = elim (Bool-cases (ltb (a / t) n)) [
  | inl y ↦ ltb→lt (a / t) n y
  | inr z ↦
      let g = mul-le-mul_right t (ltb→ge (a / t) n z) in
      let l = div-mul-le_self a t in absurd (omega arith)
]

module _ ⦃bits : Bitarray⦄ where
  -- The physical address of a logical one.
  abbrev pub fisica_de : Memoria → Pcb → ℕ → ℕ
  fisica_de m p a = traducir m.config.tam_pagina (marco_de p) a

  -- The address space of a process, as the program that runs in it sees it.
  abbrev pub espacio_de : Memoria → Pcb → ℕ → ℕ
  espacio_de m p a = celda m.memoria (fisica_de m p a)

  abbrev pub tamanio_de : Memoria → Pcb → ℕ
  tamanio_de m p = length p.tabla_paginas * m.config.tam_pagina

module _ ⦃bits : Bitarray⦄ (m : Memoria) (v : Inv m) (pid : ℕ) (p : Pcb)
    (e : buscar_pcb pid m.lista_pcb_tablas_paginas ≡ some p) where
  -- In a memory that keeps its invariant, every logical address below the size of a process has a
  -- physical address inside the user space.
  pub fisica_de_lt : (a : ℕ) → a < tamanio_de m p → fisica_de m p a < length m.memoria
  fisica_de_lt a h =
      let t = m.config.tam_pagina in
      let q = pagina_lt t a (length p.tabla_paginas) v.pagina_pos h in
      omega (arith, marco_acotado m v pid p e (a / t) q, mod-lt a v.pagina_pos)

  pub fisica_de_unica :
      (a b : ℕ)
      → a < tamanio_de m p
      → b < tamanio_de m p
      → fisica_de m p a ≡ fisica_de m p b
      → a ≡ b
  fisica_de_unica a b ha hb k =
      let t = m.config.tam_pagina in
      let n = length p.tabla_paginas in
      let qa = pagina_lt t a n v.pagina_pos ha in
      let qb = pagina_lt t b n v.pagina_pos hb in
      let ra = mod-lt a v.pagina_pos in
      let rb = mod-lt b v.pagina_pos in
      let f = cociente_unico t (marco_de p (a / t)) (marco_de p (b / t)) (a % t) (b % t) ra rb k in
      let q = marco_unico m v pid p e (a / t) (b / t) qa qb f in
      let f' = ap (λ z. z * t) f in
      let q' = ap (λ z. z * t) q in omega (arith, division t a, division t b)

  -- In a memory that keeps its invariant, no byte of a process has the physical address of a byte of
  -- another process.
  pub fisica_de_ajena :
      (j : ℕ) (pj : Pcb) (a b : ℕ)
      → pid ≢ j
      → buscar_pcb j m.lista_pcb_tablas_paginas ≡ some pj
      → a < tamanio_de m p
      → b < tamanio_de m pj
      → fisica_de m p a ≢ fisica_de m pj b
  fisica_de_ajena j pj a b h ej ha hb k =
      let t = m.config.tam_pagina in
      let qa = pagina_lt t a (length p.tabla_paginas) v.pagina_pos ha in
      let qb = pagina_lt t b (length pj.tabla_paginas) v.pagina_pos hb in
      marco_ajeno m v pid p e j pj (a / t) (b / t) h ej qa qb (
        cociente_unico t (marco_de p (a / t)) (marco_de pj (b / t)) (a % t) (b % t)
          (mod-lt a v.pagina_pos) (mod-lt b v.pagina_pos) k)
