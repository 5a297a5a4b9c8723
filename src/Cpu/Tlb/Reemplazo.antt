-- ===== src/Cpu/Tlb/Reemplazo.antt =====
-- What the TLB keeps through lookups and replacements.
use tp_2024_1c_pccsc.Common.{
  ℕ, zero, suc, ◌+◌, ◌-◌, ◌≤◌, ◌<◌, Option, none, some, List, [], ◌∷◌, ◌++◌, ◌≡◌, refl, sym, ◌∙◌,
  ap, subst, arith, length, get_elem?, remove_at, length-append, ltb, bit, ◌==◌, if◌then◌else◌,
  Bool-cases, Option-cases, inl, inr, ◌⊎◌, ltb→lt, ltb→ge,
}
use tp_2024_1c_pccsc.Cpu.Tlb.{
  EntradaTlb, Tlb, tlb_habilitada, coincide, obtener_timestamp, buscar_marco_tlb, tocar, uint64_max,
  mas_viejo_desde, remover_entrada_segun_algoritmo, agregar_marco_tlb, obtener_marco,
}

-- How many entries a process and page have.
abbrev pub veces : ℕ → ℕ → List EntradaTlb → ℕ
veces proceso pagina [] = 0
veces proceso pagina (e ∷ es) = bit (coincide proceso pagina e) + veces proceso pagina es

-- The TLB never holds more entries than configured, and no page of a process twice.
pub record TlbInv (t : Tlb) : Type 0 where
  pub capacidad : length t.tlb_list ≤ t.cantidad_entradas_tlb
  pub unica : (p q : ℕ) → veces p q t.tlb_list ≤ 1

-- No entry is older than `m`.
abbrev pub Desde : ℕ → List EntradaTlb → Type 0
Desde m [] = Unit {0}
Desde m (e ∷ es) = (m ≤ e.timestamp) × Desde m es

pub buscar-none :
    (p q : ℕ) (es : List EntradaTlb) → buscar_marco_tlb p q es ≡ none → veces p q es ≡ 0
unfolding buscar_marco_tlb
buscar-none p q [] h = refl
buscar-none p q (e ∷ es) h = elim (Bool-cases (coincide p q e)) [
  | inl y ↦ cc (rw (y, buscar_marco_tlb) at h)
  | inr n ↦ rw n (omega (arith, buscar-none p q es (rw (n, buscar_marco_tlb) at h)))
]

pub veces-append :
    (p q : ℕ) (xs ys : List EntradaTlb) → veces p q (xs ++ ys) ≡ veces p q xs + veces p q ys
veces-append p q [] ys = omega arith
veces-append p q (x ∷ xs) ys = omega (arith, veces-append p q xs ys)

pub veces-remove_at : (p q i : ℕ) (es : List EntradaTlb) → veces p q (remove_at es i) ≤ veces p q es
veces-remove_at p q i [] = omega arith
veces-remove_at p q zero (e ∷ es) = omega arith
veces-remove_at p q (suc i) (e ∷ es) = omega (arith, veces-remove_at p q i es)

pub length-remove_at :
    (es : List EntradaTlb) (i : ℕ) → i < length es → length (remove_at es i) + 1 ≡ length es
length-remove_at [] i h = absurd (omega arith)
length-remove_at (e ∷ es) zero h = omega arith
length-remove_at (e ∷ es) (suc i) h = omega (arith, length-remove_at es i)

pub veces-tocar :
    (p q p' q' ahora : ℕ) (es : List EntradaTlb) → veces p q (tocar p' q' ahora es) ≡ veces p q es
unfolding tocar
veces-tocar p q p' q' ahora [] = refl
veces-tocar p q p' q' ahora (e ∷ es) = elim (Bool-cases (coincide p' q' e)) [
  | inl y ↦ rw (y, tocar) refl
  | inr n ↦ rw (n, tocar) (omega (arith, veces-tocar p q p' q' ahora es))
]

pub length-tocar :
    (p' q' ahora : ℕ) (es : List EntradaTlb) → length (tocar p' q' ahora es) ≡ length es
unfolding tocar
length-tocar p' q' ahora [] = refl
length-tocar p' q' ahora (e ∷ es) = elim (Bool-cases (coincide p' q' e)) [
  | inl y ↦ rw (y, tocar) refl
  | inr n ↦ rw (n, tocar) (ap suc (length-tocar p' q' ahora es))
]

-- The scan keeps what it had if no entry is older; otherwise it ends at an entry older than that,
-- and no younger than any other.
mas_viejo_desde_lem :
    (es : List EntradaTlb) (i : ℕ) (o : Option ℕ) (min : ℕ)
    → ((mas_viejo_desde i o min es ≡ o) × Desde min es)
      ⊎ ((j : ℕ) × (r : EntradaTlb) × (mas_viejo_desde i o min es ≡ some (i + j))
          × (get_elem? es j ≡ some r)
          × (r.timestamp < min)
          × Desde r.timestamp es)
unfolding mas_viejo_desde
mas_viejo_desde_lem [] i o min = inl (refl, tt)
mas_viejo_desde_lem (x ∷ es) i o min = elim (Bool-cases (ltb x.timestamp min)) [
  | inl y ↦ rw y (elim (mas_viejo_desde_lem es (suc i) (some i) x.timestamp) [
    | inl h ↦ inr (0, x, h.0 ∙ ap some (omega arith), refl, ltb→lt _ _ y, (omega arith, h.1))
    | inr (j, r, run, g, lt, d) ↦
        inr
          (suc j, r, run ∙ ap some (omega arith), g, omega (arith, ltb→lt _ _ y), (omega arith, d))
  ])
  | inr n ↦ rw n (elim (mas_viejo_desde_lem es (suc i) o min) [
    | inl h ↦ inl (h.0, (ltb→ge _ _ n, h.1))
    | inr (j, r, run, g, lt, d) ↦
        inr (suc j, r, run ∙ ap some (omega arith), g, lt, (omega (arith, ltb→ge _ _ n), d))
  ])
]

get_elem?-some-lt :
    (es : List EntradaTlb) (i : ℕ) (r : EntradaTlb) → get_elem? es i ≡ some r → i < length es
get_elem?-some-lt [] i r h = cc
get_elem?-some-lt (e ∷ es) zero r h = omega arith
get_elem?-some-lt (e ∷ es) (suc i) r h = omega (arith, get_elem?-some-lt es i r h)

-- The replacement takes one entry out of a table that is not empty and whose times are below
-- UINT64_MAX, and no entry that stays is older than the one taken out.
pub remover_entrada_lem :
    (e : EntradaTlb) (es : List EntradaTlb)
    → e.timestamp < uint64_max
    → (i : ℕ) × (r : EntradaTlb) × (remover_entrada_segun_algoritmo (e ∷ es) ≡ remove_at (e ∷ es) i)
      × (get_elem? (e ∷ es) i ≡ some r)
      × (i < length (e ∷ es))
      × Desde r.timestamp (e ∷ es)
unfolding remover_entrada_segun_algoritmo
remover_entrada_lem e es h = elim (mas_viejo_desde_lem (e ∷ es) 0 none uint64_max) [
  | inl (run, d) ↦ absurd (omega (arith, d.0))
  | inr (j, r, run, g, lt, d) ↦ (
    j,
    r,
    rw (run, remover_entrada_segun_algoritmo) (ap (remove_at (e ∷ es)) (omega arith)),
    g,
    get_elem?-some-lt (e ∷ es) j r g,
    d,
  )
]

-- Every time in the table is below UINT64_MAX.
abbrev pub Tiempos : List EntradaTlb → Type 0
Tiempos [] = Unit {0}
Tiempos (e ∷ es) = (e.timestamp < uint64_max) × Tiempos es

-- A full table loses exactly one entry.
length-remover :
    (es : List EntradaTlb) (n : ℕ)
    → Tiempos es
    → length es ≡ suc n
    → length (remover_entrada_segun_algoritmo es) ≡ n
length-remover [] n t h = absurd (omega arith)
length-remover (e ∷ es) n t h =
    let (i, r, run, g, lt, d) = remover_entrada_lem e es t.0 in
    rw run (omega (arith, length-remove_at (e ∷ es) i lt))

veces-remover :
    (p q : ℕ) (es : List EntradaTlb) → veces p q (remover_entrada_segun_algoritmo es) ≤ veces p q es
unfolding remover_entrada_segun_algoritmo
veces-remover p q es = elim (Option-cases (mas_viejo_desde 0 none uint64_max es)) [
  | inl n ↦ rw (n, remover_entrada_segun_algoritmo) (omega arith)
  | inr (i, y) ↦ rw (y, remover_entrada_segun_algoritmo) (veces-remove_at p q i es)
]

-- The entries that stay when a new one comes.
abbrev pub quedan : Tlb → List EntradaTlb
quedan t =
    if length t.tlb_list == t.cantidad_entradas_tlb
    then remover_entrada_segun_algoritmo t.tlb_list
    else t.tlb_list

quedan_lem :
    (t : Tlb)
    → 0 < t.cantidad_entradas_tlb
    → TlbInv t
    → Tiempos t.tlb_list
    → (length (quedan t) + 1 ≤ t.cantidad_entradas_tlb)
      × ((p q : ℕ) → veces p q (quedan t) ≤ veces p q t.tlb_list)
quedan_lem t pos v tiempos = elim (Bool-cases (length t.tlb_list == t.cantidad_entradas_tlb)) [
  | inl y ↦
      let n = t.cantidad_entradas_tlb - 1 in
      let lleno : length t.tlb_list ≡ suc n = ground arith in
      rw y (
        omega (arith, length-remover t.tlb_list n tiempos lleno),
        λ p q. veces-remover p q t.tlb_list,
      )
  | inr n ↦ rw n (ground (arith, v.capacidad), λ p q. omega arith)
]

-- Inserting a page that is not in the table.
agregar_marco_tlb-TlbInv :
    (p q marco : ℕ) (t : Tlb)
    → 0 < t.cantidad_entradas_tlb
    → TlbInv t
    → Tiempos t.tlb_list
    → veces p q t.tlb_list ≡ 0
    → TlbInv (agregar_marco_tlb p q marco t)
unfolding agregar_marco_tlb obtener_timestamp
agregar_marco_tlb-TlbInv p q marco t pos v tiempos h =
    let (cap, menos) = quedan_lem t pos v tiempos in
    let e : EntradaTlb = record {
      pid = p;
      pagina = q;
      marco = marco;
      timestamp = t.reloj t.lecturas;
    } in
    record {
      capacidad = omega (arith, length-append (quedan t) (e ∷ []), cap);
      unica =
          λ a b. ground (arith, veces-append a b (quedan t) (e ∷ []), menos a b, v.unica a b, h);
    }

some-segundo :
    {a b : ℕ} {t u : Tlb} → ◌≡◌ {A = Option (ℕ × Tlb)} (some (a, t)) (some (b, u)) → t ≡ u
some-segundo h = cc

-- A lookup, hit or miss, under FIFO or LRU, keeps the table within its capacity and free of
-- repeated pages.
pub obtener_marco-TlbInv :
    (memoria : ℕ → ℕ → Option ℕ) (p q marco : ℕ) (t t' : Tlb)
    → TlbInv t
    → Tiempos t.tlb_list
    → obtener_marco memoria p q t ≡ some (marco, t')
    → TlbInv t'
unfolding obtener_marco obtener_timestamp
obtener_marco-TlbInv memoria p q marco t t' v tiempos h =
    elim (Option-cases (buscar_marco_tlb p q t.tlb_list)) [
      | inl n ↦ elim (Bool-cases (tlb_habilitada t)) [
        | inl si ↦ ground (
          arith,
          n,
          agregar_marco_tlb-TlbInv p q marco t (ground arith) v tiempos
              (buscar-none p q t.tlb_list n),
        )
        | inr apagada ↦ ground (arith, n)
      ]
      | inr (e, y) ↦
          let es = tocar p q (t.reloj t.lecturas) t.tlb_list in
          let lru = record t { tlb_list = es; lecturas = t.lecturas + 1 } in
          let lru_inv : TlbInv lru = record {
            capacidad =
                omega (arith, length-tocar p q (t.reloj t.lecturas) t.tlb_list, v.capacidad);
            unica = λ a b.
                omega (arith, veces-tocar a b p q (t.reloj t.lecturas) t.tlb_list, v.unica a b);
          } in
          elim (Bool-cases t.es_lru) [
            | inl si ↦
                let r : obtener_marco memoria p q t ≡ some (e.marco, lru) =
                  rw (y, obtener_marco) (rw si refl) in
                subst TlbInv (some-segundo (sym r ∙ h)) lru_inv
            | inr fifo ↦
                let r : obtener_marco memoria p q t ≡ some (e.marco, t) =
                  rw (y, obtener_marco) (rw fifo refl) in
                subst TlbInv (some-segundo (sym r ∙ h)) v
          ]
    ]
