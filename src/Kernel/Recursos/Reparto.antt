-- ===== src/Kernel/Recursos/Reparto.antt =====
-- What the processes hold after `liberar_recursos` has given a resource back.
use tp_2024_1c_pccsc.Common.{
  ℕ, zero, suc, ◌+◌, ◌<◌, true, false, none, List, [], ◌∷◌, ◌++◌, ◌≡◌, ◌≢◌, inl, inr, refl, ◌∙◌, ap,
  count, take, drop, arith, ◌==◌, Bool-cases, ==→≡, ne→==, ltb, ltb→lt, ltb→ge, count-append, subst,
  append-nil,
}
use tp_2024_1c_pccsc.Kernel.{Kernel, Pcb, con_pcb, poner, ready}
use tp_2024_1c_pccsc.Kernel.Recursos.{devolver_instancia, restar_recurso, sumar_recurso}

-- Process `p` has given back `n` instances of resource `i`, one each to the processes `ls`, which are
-- unblocked; nobody's other resources have changed.
pub record Reparto (n p i : ℕ) (ls : List ℕ) (f g : ℕ → Pcb) : Type 0 where
  pub listos : (q : ℕ) → 0 < count q ls → ((g q).estado ≡ ready) × ((g q).cola_bloqueado ≡ none)
  pub otros :
      (q : ℕ)
      → count q ls ≡ 0
      → ((g q).estado ≡ (f q).estado) × ((g q).cola_bloqueado ≡ (f q).cola_bloqueado)
  pub reciben : (q : ℕ) → p ≢ q → (g q).recursos i ≡ (f q).recursos i + count q ls
  pub entrega : (g p).recursos i + n ≡ (f p).recursos i + count p ls
  pub demas : (q j : ℕ) → i ≢ j → (g q).recursos j ≡ (f q).recursos j

-- A process that takes an instance.
abbrev recibir : ℕ → Pcb → Pcb
recibir i q = record (sumar_recurso i q) { estado = ready; cola_bloqueado = none }

pub take-uno : (n : ℕ) (q : List ℕ) → take 1 q ++ take n (drop 1 q) ≡ take (suc n) q
take-uno zero [] = refl
take-uno (suc n) [] = refl
take-uno n (p ∷ q) = refl

igual_a_si : (i : ℕ) → (i == i) ≡ true
igual_a_si i = ground arith

Reparto-recibir :
    (p p0 i : ℕ) (f : ℕ → Pcb) → Reparto 0 p i (p0 ∷ []) f (poner p0 (recibir i (f p0)) f)
Reparto-recibir p p0 i f = record {
  listos = λ q c. rw (let z : (p0 == q) ≡ true = ground arith in z) (refl, refl);
  otros = λ q c. rw (let z : (p0 == q) ≡ false = ground arith in z) (refl, refl);
  reciben = λ q h. suma q;
  entrega = (let s = suma p in omega arith);
  demas = λ q j h. elim (Bool-cases (p0 == q)) [
    | inl y ↦ rw y (rw (ne→== i j h) (ap (λ z. (f z).recursos j) (==→≡ p0 q y)))
    | inr n ↦ rw n refl
  ];
}
  where
    suma :
        (q : ℕ)
        → (poner p0 (recibir i (f p0)) f q).recursos i ≡ (f q).recursos i + count q (p0 ∷ [])
    suma q = elim (Bool-cases (p0 == q)) [
      | inl y ↦
          rw y (rw (igual_a_si i) (let z = ap (λ z. (f z).recursos i) (==→≡ p0 q y) in omega arith))
      | inr n ↦ rw n (omega arith)
    ]

Reparto-restar :
    (p i : ℕ) (f : ℕ → Pcb)
    → 0 < (f p).recursos i
    → Reparto 1 p i [] f (poner p (restar_recurso i (f p)) f)
Reparto-restar p i f h = record {
  listos = λ q c. absurd (omega arith);
  otros = λ q c. elim (Bool-cases (p == q)) [
    | inl y ↦
        rw y (ap (λ z. (f z).estado) (==→≡ p q y), ap (λ z. (f z).cola_bloqueado) (==→≡ p q y))
    | inr n ↦ rw n (refl, refl)
  ];
  reciben = λ q ne. rw (ne→== p q ne) (omega arith);
  entrega = rw (igual_a_si p) (rw (igual_a_si i) (omega arith));
  demas = λ q j ne. elim (Bool-cases (p == q)) [
    | inl y ↦ rw y (rw (ne→== i j ne) (ap (λ z. (f z).recursos j) (==→≡ p q y)))
    | inr n ↦ rw n refl
  ];
}

Reparto-nada : (p i : ℕ) (f : ℕ → Pcb) → Reparto 0 p i [] f f
Reparto-nada p i f = record {
  listos = λ q c. absurd (omega arith);
  otros = λ q c. (refl, refl);
  reciben = λ q h. omega arith;
  entrega = omega arith;
  demas = λ q j h. refl;
}

Reparto-trans :
    (n n' p i : ℕ) (ls ls' : List ℕ) (f g h : ℕ → Pcb)
    → Reparto n p i ls f g
    → Reparto n' p i ls' g h
    → Reparto (n + n') p i (ls ++ ls') f h
Reparto-trans n n' p i ls ls' f g h a b = record {
  listos = λ q c. elim (Bool-cases (ltb 0 (count q ls'))) [
    | inl y ↦ b.listos q (ltb→lt 0 (count q ls') y)
    | inr z ↦
        let r = b.otros q (omega (arith, ltb→ge 0 (count q ls') z)) in
        let s = a.listos q (omega (arith, ltb→ge 0 (count q ls') z, count-append q ls ls')) in
        (r.0 ∙ s.0, r.1 ∙ s.1)
  ];
  otros = λ q c.
      (let r = b.otros q (omega (arith, count-append q ls ls')) in
        let s = a.otros q (omega (arith, count-append q ls ls')) in (r.0 ∙ s.0, r.1 ∙ s.1));
  reciben = λ q ne. omega (arith, a.reciben q ne, b.reciben q ne, count-append q ls ls');
  entrega = omega (arith, a.entrega, b.entrega, count-append p ls ls');
  demas = λ q j ne. b.demas q j ne ∙ a.demas q j ne;
}

-- The processes that one instance goes to.
devolver_instancia-Reparto :
    (p i : ℕ) (k : Kernel)
    → Reparto 0 p i (take 1 (k.cola_recursos_bloqueados i)) k.pcbs (devolver_instancia i k).pcbs
unfolding devolver_instancia
devolver_instancia-Reparto p i k = con (k.cola_recursos_bloqueados i) refl
  where
    con :
        (q : List ℕ)
        → k.cola_recursos_bloqueados i ≡ q
        → Reparto 0 p i (take 1 q) k.pcbs (devolver_instancia i k).pcbs
    con [] e = rw (e, devolver_instancia) (Reparto-nada p i k.pcbs)
    con (p0 ∷ ps) e = rw (e, devolver_instancia) (Reparto-recibir p p0 i k.pcbs)

-- One round of the inner loop of `liberar_recursos`.
pub vuelta-Reparto :
    (p i : ℕ) (k : Kernel)
    → 0 < (k.pcbs p).recursos i
    → Reparto 1 p i
        (take 1 (k.cola_recursos_bloqueados i))
        k.pcbs
        (con_pcb p (restar_recurso i) (devolver_instancia i k)).pcbs
vuelta-Reparto p i k h =
    let q = take 1 (k.cola_recursos_bloqueados i) in
    let a = devolver_instancia-Reparto p i k in
    let k1 = devolver_instancia i k in
    let r =
      Reparto-trans 0 1 p i q [] k.pcbs k1.pcbs (con_pcb p (restar_recurso i) k1).pcbs a
        (Reparto-restar p i k1.pcbs (let e = a.entrega in omega arith)) in
    subst (λ z. Reparto 1 p i z k.pcbs (con_pcb p (restar_recurso i) k1).pcbs) (append-nil q) r

pub Reparto-suc :
    (n p i : ℕ) (q : List ℕ) (f g h : ℕ → Pcb)
    → Reparto 1 p i (take 1 q) f g
    → Reparto n p i (take n (drop 1 q)) g h
    → Reparto (suc n) p i (take (suc n) q) f h
Reparto-suc n p i q f g h a b =
    let t = Reparto-trans 1 n p i (take 1 q) (take n (drop 1 q)) f g h a b in
    subst (λ m. Reparto m p i (take (suc n) q) f h) (let z : 1 + n ≡ suc n = omega arith in z)
      (subst (λ z. Reparto (1 + n) p i z f h) (take-uno n q) t)

pub Reparto-zero : (p i : ℕ) (q : List ℕ) (f : ℕ → Pcb) → Reparto 0 p i (take 0 q) f f
Reparto-zero p i q f = Reparto-nada p i f
