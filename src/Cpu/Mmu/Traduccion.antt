-- ===== src/Cpu/Mmu/Traduccion.antt =====
-- The requests of `mmu` against the translation of an address byte by byte.
use mathlib.Core.List.{map-append}
use native.Mathlib.Nat.{
  div-eq_of_lt-le, mod-eq-sub-div-mul, mod-lt, lt-div-mul-add, div-mul-le_self,
}
use tp_2024_1c_pccsc.Common.{
  ℕ, zero, suc, ◌+◌, ◌-◌, ◌*◌, ◌/◌, ◌%◌, ◌^◌, ◌≤◌, ◌<◌, Option, some, List, [], ◌∷◌, ◌++◌, ◌≡◌, ◌≢◌,
  inl, inr, refl, sym, ◌∙◌, ap, subst, arith, map, append-nil, ◌==◌, ◌>>=◌, Bool-cases, ne→==,
}
use tp_2024_1c_pccsc.Common.Celdas.{rango}
use tp_2024_1c_pccsc.Cpu.Tlb.{Tlb, obtener_marco}
use tp_2024_1c_pccsc.Cpu.Tlb.Coherencia.{Coherente, obtener_marco-Coherente}
use tp_2024_1c_pccsc.Cpu.Mmu.{
  Peticion, fisica, bytes_a_enviar, mmu_bucle, cantidad_peticiones, mmu_peticiones,
}

-- The physical bytes that the requests reach, in order.
abbrev pub expandir : List Peticion → List ℕ
expandir [] = []
expandir (p ∷ ps) = rango p.direccion_fisica p.bytes ++ expandir ps

-- The parts follow one another in the datum, from byte `e` on.
abbrev pub Contiguas : ℕ → List Peticion → Type 0
Contiguas e [] = Unit {0}
Contiguas e (p ∷ ps) = (p.desde ≡ e) × Contiguas (e + p.bytes) ps

-- No request is empty.
abbrev pub Positivas : List Peticion → Type 0
Positivas [] = Unit {0}
Positivas (p ∷ ps) = (0 < p.bytes) × Positivas ps

rango-append : (a m n : ℕ) → rango a (m + n) ≡ rango a m ++ rango (a + m) n
rango-append a zero n =
    ap (λ k. rango a k) (let e : zero + n ≡ n = omega arith in e)
    ∙ ap (λ k. rango k n) (omega arith)
rango-append a (suc m) n =
    ap (λ k. rango a k) (let e : suc m + n ≡ suc (m + n) = omega arith in e)
    ∙ ap (◌∷◌ a) (rango-append (suc a) m n ∙ ap (λ k. rango (suc a) m ++ rango k n) (omega arith))

-- A logical address is a page and an offset in it.
abbrev pub traducir : ℕ → (ℕ → ℕ) → ℕ → ℕ
traducir tam marco a = marco (a / tam) * tam + a % tam

traducir-pagina :
    (tam : ℕ) (marco : ℕ → ℕ) (q d : ℕ)
    → d < tam
    → traducir tam marco (q * tam + d) ≡ marco q * tam + d
traducir-pagina tam marco q d h =
    let a = q * tam + d in
    let e : a / tam ≡ q = div-eq_of_lt-le tam (omega arith) (grind arith) in
    let r : a % tam ≡ d =
      mod-eq-sub-div-mul a tam
      ∙ ap (λ k. a - k * tam) e
      ∙ (let z : a - q * tam ≡ d = omega arith in z) in
    rw (e, r) refl

-- Inside one page the addresses stay together.
traducir-rango :
    (tam : ℕ) (marco : ℕ → ℕ) (q n d : ℕ)
    → d + n ≤ tam
    → map (traducir tam marco) (rango (q * tam + d) n) ≡ rango (marco q * tam + d) n
traducir-rango tam marco q zero d h = refl
traducir-rango tam marco q (suc n) d h =
    let s : suc (q * tam + d) ≡ q * tam + suc d = omega arith in
    let z : marco q * tam + suc d ≡ suc (marco q * tam + d) = omega arith in
    let cola =
      ap (λ k. map (traducir tam marco) (rango k n)) s
      ∙ traducir-rango tam marco q n (suc d) (omega arith)
      ∙ ap (λ k. rango k n) z in
    rw (traducir-pagina tam marco q d (omega arith), cola) refl

-- Which part of the datum a round sends.
bytes_ultima :
    (tam cantidad i d pend : ℕ)
    → cantidad ≢ 1
    → i + 1 ≡ cantidad
    → bytes_a_enviar tam cantidad i d pend ≡ pend
bytes_ultima tam cantidad i d pend h e =
    let i_ne : i ≢ 0 = λ z. h (omega arith) in rw (ne→== i 0 i_ne) (ground arith)

bytes_intermedia :
    (tam cantidad v i d pend : ℕ)
    → i + suc (suc v) ≡ cantidad
    → (i ≢ 0 → d ≡ 0)
    → bytes_a_enviar tam cantidad i d pend ≡ tam - d
bytes_intermedia tam cantidad v i d pend e h = elim (Bool-cases (i == 0)) [
  | inl y ↦ rw y refl
  | inr n ↦ rw n (ground (arith, h (ground arith)))
]

module _ (tam : ℕ) (memoria : ℕ → ℕ → Option ℕ) (pid : ℕ) (marco : ℕ → ℕ) (fin : ℕ) where
  -- Memory knows the pages below `fin`, and they lie below 4 GiB.
  pub record Paginas : Type 0 where
    pub pagina_pos : 0 < tam
    pub conocida : (q : ℕ) → q < fin → memoria pid q ≡ some (marco q)
    pub acotada : (q : ℕ) → q < fin → marco q * tam + tam ≤ 2 ^ 32

  -- What a run of lookups over a logical range gives.
  abbrev pub Traduce : ℕ → ℕ → ℕ → Option (List Peticion × Tlb) → Type 0
  Traduce desde a n r =
      (ps : List Peticion) × (t : Tlb) × (r ≡ some (ps, t))
      × (expandir ps ≡ map (traducir tam marco) (rango a n))
      × Contiguas desde ps
      × Coherente memoria t.tlb_list
      × (0 < n → Positivas ps)

  pieza :
      (q d n : ℕ)
      → Paginas
      → q < fin
      → d < tam
      → d + n ≤ tam
      → rango (fisica tam (marco q) d) n ≡ map (traducir tam marco) (rango (q * tam + d) n)
  pieza q d n w hq hd hn =
      let e : fisica tam (marco q) d ≡ marco q * tam + d = omega (arith, w.acotada q hq) in
      rw e (sym (traducir-rango tam marco q n d hn))

  mmu_bucle_paso :
      (cantidad v i q d pend env m k pend' : ℕ) (t t' t2 : Tlb) (ps : List Peticion)
      → bytes_a_enviar tam cantidad i d pend ≡ k
      → (pend + 2 ^ 32 - k) % 2 ^ 32 ≡ pend'
      → obtener_marco memoria pid q t ≡ some (m, t')
      → mmu_bucle tam memoria pid cantidad v (suc i) (suc q) 0 pend' (env + k) t' ≡ some (ps, t2)
      → mmu_bucle tam memoria pid cantidad (suc v) i q d pend env t
        ≡ some (record { direccion_fisica = fisica tam m d; desde = env; bytes = k } ∷ ps, t2)
  unfolding mmu_bucle
  mmu_bucle_paso cantidad v i q d pend env m k pend' t t' t2 ps hk hp run sigue =
      rw (run, ◌>>=◌) (rw (hk, hp) (rw (sigue, ◌>>=◌) refl))

  mmu_bucle_lem :
      (cantidad vueltas i q d pend env : ℕ) (t : Tlb)
      → Paginas
      → cantidad ≢ 1
      → i + vueltas ≡ cantidad
      → (i ≢ 0 → d ≡ 0)
      → d < tam
      → d + pend ≤ vueltas * tam
      → vueltas * tam < d + pend + tam
      → pend < 2 ^ 32
      → q + vueltas ≤ fin
      → Coherente memoria t.tlb_list
      → Traduce env (q * tam + d) pend (mmu_bucle tam memoria pid cantidad vueltas i q d pend env t)
  unfolding mmu_bucle
  mmu_bucle_lem cantidad zero i q d zero env t w h e hd hdt hi lo hp hq c =
      ([], t, refl, refl, tt, c, λ _. tt)
  mmu_bucle_lem cantidad zero i q d (suc pend) env t w h e hd hdt hi lo hp hq c =
      absurd (omega arith)
  mmu_bucle_lem cantidad (suc zero) i q d pend env t w h e hd hdt hi lo hp hq c =
      let (t', run, c') =
        obtener_marco-Coherente memoria pid q (marco q) t c (w.conocida q (omega arith)) in
      let n = bytes_ultima tam cantidad i d pend h (omega arith) in
      (
        record { direccion_fisica = fisica tam (marco q) d; desde = env; bytes = pend } ∷ [],
        t',
        rw (run, ◌>>=◌) (rw n refl),
        append-nil _ ∙ pieza q d pend w (omega arith) hdt (omega arith),
        (refl, tt),
        c',
        λ b. (b, tt),
      )
  mmu_bucle_lem cantidad (suc (suc v)) i q d pend env t w h e hd hdt hi lo hp hq c =
      let (t', run, c') =
        obtener_marco-Coherente memoria pid q (marco q) t c (w.conocida q (omega arith)) in
      let n = bytes_intermedia tam cantidad v i d pend (omega arith) hd in
      let k = tam - d in
      let resta : (pend + 2 ^ 32 - k) % 2 ^ 32 ≡ pend - k = omega arith in
      let (ps, t2, sigue, ex, cont, c2, posi) =
        mmu_bucle_lem cantidad (suc v) (suc i) (suc q) 0 (pend - k) (env + k) t' w h (omega arith)
          (λ _. refl) w.pagina_pos (omega arith) (omega arith) (omega arith) (omega arith) c' in
      (
        record { direccion_fisica = fisica tam (marco q) d; desde = env; bytes = k } ∷ ps,
        t2,
        mmu_bucle_paso cantidad (suc v) i q d pend env (marco q) k (pend - k) t t' t2 ps n resta run
            sigue,
        rw (pieza q d k w (omega arith) hdt (omega arith), ex)
            (sym (map-append _ _ _)
              ∙ ap (map (traducir tam marco)) (
                  ap (λ x. rango (q * tam + d) k ++ rango x (pend - k)) (omega arith)
                  ∙ sym (rango-append (q * tam + d) k (pend - k))
                  ∙ ap (rango (q * tam + d)) (omega arith))),
        (refl, cont),
        c2,
        λ b. (omega arith, posi (omega arith)),
      )

  -- `mmu` on `bytes` bytes from a logical address, at most 4 GiB together, over pages that memory
  -- knows and with a TLB that agrees with memory: it answers with requests that reach, in order,
  -- exactly the physical bytes of the range as translated one by one; their parts of the datum
  -- follow one another from its start; none is empty if the range is not; and the TLB still agrees.
  pub mmu_peticiones_lem :
      (a bytes : ℕ) (t : Tlb)
      → Paginas
      → a % tam + bytes < 2 ^ 32
      → a / tam + cantidad_peticiones tam a bytes ≤ fin
      → Coherente memoria t.tlb_list
      → Traduce 0 a bytes (mmu_peticiones tam memoria pid a bytes t)
  unfolding mmu_peticiones
  mmu_peticiones_lem a bytes t w hb hf c =
      let q = a / tam in
      let d = a - q * tam in
      let dm : a % tam ≡ d = mod-eq-sub-div-mul a tam in
      let d_lt : d < tam = omega (arith, mod-lt a w.pagina_pos) in
      let k = cantidad_peticiones tam a bytes in
      let total : (d + bytes) % 2 ^ 32 ≡ d + bytes = omega arith in
      let kd : k ≡ (d + bytes + tam - 1) / tam = ap (λ x. (x + tam - 1) / tam) total in
      let hi : d + bytes ≤ k * tam = omega (
        arith,
        lt-div-mul-add {a = d + bytes + tam - 1} {b = tam} w.pagina_pos,
        ap (λ x. x * tam) kd,
      ) in
      let lo : k * tam < d + bytes + tam =
        omega
          (arith, div-mul-le_self (d + bytes + tam - 1) tam, ap (λ x. x * tam) kd, w.pagina_pos) in
      let origen : q * tam + d ≡ a = omega (arith, div-mul-le_self a tam) in
      subst (λ x. Traduce 0 x bytes (mmu_peticiones tam memoria pid a bytes t)) origen
        (elim (Bool-cases (k == 1)) [
          | inl uno ↦
              let k1 : k ≡ 1 = ground arith in
              let (t', run, c') =
                obtener_marco-Coherente memoria pid q (marco q) t c
                  (w.conocida q (omega (arith, k1))) in
              (
                record { direccion_fisica = fisica tam (marco q) d; desde = 0; bytes = bytes } ∷ [],
                t',
                rw (uno, mmu_peticiones) (rw (run, ◌>>=◌) refl),
                append-nil _
                    ∙ pieza q d bytes w (omega (arith, k1)) d_lt
                        (omega (arith, hi, ap (λ x. x * tam) k1)),
                (refl, tt),
                c',
                λ b. (b, tt),
              )
          | inr varias ↦
              rw (varias, mmu_peticiones)
                (mmu_bucle_lem k k 0 q d bytes 0 t w (λ e. ground arith) (omega arith)
                  (λ z. absurd (z refl)) d_lt hi lo (omega arith) hf c)
        ])
