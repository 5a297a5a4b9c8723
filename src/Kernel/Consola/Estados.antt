-- ===== src/Kernel/Consola/Estados.antt =====
-- PROCESO_ESTADO shows each process under its state.
use tp_2024_1c_pccsc.Common.{
  ℕ, ◌+◌, Bool, true, false, List, [], ◌∷◌, ◌++◌, ◌≡◌, ◌≢◌, inl, inr, refl, sym, ◌∙◌, ap, arith,
  count, count-append, ◌==◌, if◌then◌else◌, Bool-cases, ==→≡, ==→ne, ne→==,
}
use tp_2024_1c_pccsc.Kernel.{Pcb, Estado, new, ready, exec, blocked, exit, poner}
use tp_2024_1c_pccsc.Kernel.Consola.{estado_real, clasificar, listas_por_estado}

-- The state that is shown of a process, from NEW (0) to EXIT (4): EXIT if its end has been asked for,
-- else the one that it has.
pub data Mostrado (p : Pcb) : ℕ → Type 0 where
  pedido : p.pedido_exit ≡ true → Mostrado p 4
  es_new : p.pedido_exit ≡ false → p.estado ≡ new → Mostrado p 0
  es_ready : p.pedido_exit ≡ false → p.estado ≡ ready → Mostrado p 1
  es_exec : p.pedido_exit ≡ false → p.estado ≡ exec → Mostrado p 2
  es_blocked : p.pedido_exit ≡ false → p.estado ≡ blocked → Mostrado p 3
  es_exit : p.pedido_exit ≡ false → p.estado ≡ exit → Mostrado p 4

estado_real-Mostrado : (p : Pcb) → Mostrado p (estado_real p)
unfolding estado_real
estado_real-Mostrado p = con (p.pedido_exit) (p.estado) refl refl
  where
    con :
        (b : Bool) (e : Estado)
        → p.pedido_exit ≡ b
        → p.estado ≡ e
        → Mostrado p
            (if b then 4 else elim e [ new ↦ 0 | ready ↦ 1 | exec ↦ 2 | blocked ↦ 3 | exit ↦ 4 ])
    con true e n h = pedido n
    con false new n h = es_new n h
    con false ready n h = es_ready n h
    con false exec n h = es_exec n h
    con false blocked n h = es_blocked n h
    con false exit n h = es_exit n h

-- One process more, in the list of the state of `q` and in the others.
agregar_propia :
    (q p e e' : ℕ) (ls : ℕ → List ℕ)
    → (p ≡ q → e ≡ e')
    → count q (poner e (ls e ++ p ∷ []) ls e') ≡ count q (ls e') + count q (p ∷ [])
agregar_propia q p e e' ls h = elim (Bool-cases (e == e')) [
  | inl y ↦
      let z = ap (λ x. count q (ls x)) (==→≡ e e' y) in
      rw y (omega (arith, z, count-append q (ls e) (p ∷ [])))
  | inr n ↦
      let pq : (p == q) ≡ false = ne→== p q (λ z. ==→ne e e' n (h z)) in
      let cero : count q (p ∷ []) ≡ 0 = rw pq (omega arith) in rw n (omega (arith, cero))
]

agregar_ajena :
    (q p e j : ℕ) (ls : ℕ → List ℕ)
    → (p ≡ q → e ≢ j)
    → count q (poner e (ls e ++ p ∷ []) ls j) ≡ count q (ls j)
agregar_ajena q p e j ls h = elim (Bool-cases (e == j)) [
  | inl y ↦
      let pq : (p == q) ≡ false = ne→== p q (λ z. h z (==→≡ e j y)) in
      let cero : count q (p ∷ []) ≡ 0 = rw pq (omega arith) in
      let z = ap (λ x. count q (ls x)) (==→≡ e j y) in
      rw y (omega (arith, z, cero, count-append q (ls e) (p ∷ [])))
  | inr n ↦ rw n refl
]

-- The list of the state of `q`, and the others.
clasificar_propia :
    (q : ℕ) (pcbs : ℕ → Pcb) (ps : List ℕ) (ls : ℕ → List ℕ)
    → let e = estado_real (pcbs q) in
      count q (clasificar pcbs ps ls e) ≡ count q (ls e) + count q ps
unfolding clasificar
clasificar_propia q pcbs [] ls = omega arith
clasificar_propia q pcbs (p ∷ ps) ls =
    let e = estado_real (pcbs p) in
    let e' = estado_real (pcbs q) in
    let i = clasificar_propia q pcbs ps (poner e (ls e ++ p ∷ []) ls) in
    let a = agregar_propia q p e e' ls (λ z. ap (λ x. estado_real (pcbs x)) z) in omega arith

clasificar_ajena :
    (q j : ℕ) (pcbs : ℕ → Pcb) (ps : List ℕ) (ls : ℕ → List ℕ)
    → j ≢ estado_real (pcbs q)
    → count q (clasificar pcbs ps ls j) ≡ count q (ls j)
unfolding clasificar
clasificar_ajena q j pcbs [] ls h = refl
clasificar_ajena q j pcbs (p ∷ ps) ls h =
    let e = estado_real (pcbs p) in
    let i = clasificar_ajena q j pcbs ps (poner e (ls e ++ p ∷ []) ls) h in
    i ∙ agregar_ajena q p e j ls (λ z k. h (sym k ∙ ap (λ x. estado_real (pcbs x)) z))

-- PROCESO_ESTADO shows each process in the list of one state, and there as often as it is among all
-- processes: in EXIT if its end has been asked for, else in the one of its state.
pub listas_por_estado_lem :
    (q : ℕ) (pcbs : ℕ → Pcb) (ps : List ℕ)
    → (e : ℕ) × Mostrado (pcbs q) e
      × (count q (listas_por_estado pcbs ps e) ≡ count q ps)
      × ((j : ℕ) → j ≢ e → count q (listas_por_estado pcbs ps j) ≡ 0)
unfolding listas_por_estado
listas_por_estado_lem q pcbs ps = (
  estado_real (pcbs q),
  estado_real-Mostrado (pcbs q),
  clasificar_propia q pcbs ps (λ e. []) ∙ (let z : 0 + count q ps ≡ count q ps = omega arith in z),
  λ j. clasificar_ajena q j pcbs ps (λ e. []),
)
