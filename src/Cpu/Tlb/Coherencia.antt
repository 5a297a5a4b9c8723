-- ===== src/Cpu/Tlb/Coherencia.antt =====
-- The TLB against the page tables that the memory server keeps.
use tp_2024_1c_pccsc.Common.{
  ℕ, zero, suc, ◌+◌, Option, none, some, List, [], ◌∷◌, ◌++◌, ◌≡◌, refl, sym, ◌∙◌, arith, length,
  remove_at, ◌==◌, if◌then◌else◌, ◌>>=◌, Bool-cases, Option-cases, inl, inr,
}
use tp_2024_1c_pccsc.Cpu.Tlb.{
  EntradaTlb, Tlb, tlb_habilitada, coincide, obtener_timestamp, buscar_marco_tlb, tocar, uint64_max,
  mas_viejo_desde, remover_entrada_segun_algoritmo, agregar_marco_tlb, obtener_marco,
}
use tp_2024_1c_pccsc.Cpu.Tlb.Reemplazo.{quedan}

-- Every entry holds the frame that memory gives for its page.
abbrev pub Coherente : (ℕ → ℕ → Option ℕ) → List EntradaTlb → Type 0
Coherente memoria [] = Unit {0}
Coherente memoria (e ∷ es) = (memoria e.pid e.pagina ≡ some e.marco) × Coherente memoria es

module _ (memoria : ℕ → ℕ → Option ℕ) where
  pub Coherente-tocar :
      (p q ahora : ℕ) (es : List EntradaTlb)
      → Coherente memoria es
      → Coherente memoria (tocar p q ahora es)
  unfolding tocar
  Coherente-tocar p q ahora [] c = tt
  Coherente-tocar p q ahora (e ∷ es) c = elim (Bool-cases (coincide p q e)) [
    | inl y ↦ rw (y, tocar) c
    | inr n ↦ rw (n, tocar) (c.0, Coherente-tocar p q ahora es c.1)
  ]

  Coherente-remove_at :
      (es : List EntradaTlb) (i : ℕ) → Coherente memoria es → Coherente memoria (remove_at es i)
  Coherente-remove_at [] i c = tt
  Coherente-remove_at (e ∷ es) zero c = c.1
  Coherente-remove_at (e ∷ es) (suc i) c = (c.0, Coherente-remove_at es i c.1)

  Coherente-append :
      (xs : List EntradaTlb) (e : EntradaTlb)
      → Coherente memoria xs
      → memoria e.pid e.pagina ≡ some e.marco
      → Coherente memoria (xs ++ e ∷ [])
  Coherente-append [] e c h = (h, tt)
  Coherente-append (x ∷ xs) e c h = (c.0, Coherente-append xs e c.1 h)

  pub Coherente-buscar :
      (p q : ℕ) (es : List EntradaTlb) (e : EntradaTlb)
      → Coherente memoria es
      → buscar_marco_tlb p q es ≡ some e
      → memoria p q ≡ some e.marco
  unfolding buscar_marco_tlb
  Coherente-buscar p q [] e c h = cc
  Coherente-buscar p q (x ∷ es) e c h = ground (arith, Coherente-buscar p q es e c.1)

  Coherente-remover :
      (es : List EntradaTlb)
      → Coherente memoria es
      → Coherente memoria (remover_entrada_segun_algoritmo es)
  unfolding remover_entrada_segun_algoritmo
  Coherente-remover es c = elim (Option-cases (mas_viejo_desde 0 none uint64_max es)) [
    | inl n ↦ rw (n, remover_entrada_segun_algoritmo) c
    | inr (i, y) ↦ rw (y, remover_entrada_segun_algoritmo) (Coherente-remove_at es i c)
  ]

-- The insertion after a miss.
Coherente-alta :
    (memoria : ℕ → ℕ → Option ℕ) (p q marco : ℕ) (t : Tlb)
    → Coherente memoria t.tlb_list
    → memoria p q ≡ some marco
    → Coherente memoria (if tlb_habilitada t then agregar_marco_tlb p q marco t else t).tlb_list
unfolding agregar_marco_tlb obtener_timestamp
Coherente-alta memoria p q marco t c h = elim (Bool-cases (tlb_habilitada t)) [
  | inl activa ↦ rw activa (
      Coherente-append memoria (quedan t) _
        (elim (Bool-cases (length t.tlb_list == t.cantidad_entradas_tlb)) [
          | inl y ↦ rw y (Coherente-remover memoria t.tlb_list c)
          | inr n ↦ rw n c
        ])
        h)
  | inr apagada ↦ rw apagada c
]

-- With entries that agree with memory, a lookup answers what memory holds for the page, and its
-- entries still agree.
pub obtener_marco-Coherente :
    (memoria : ℕ → ℕ → Option ℕ) (p q marco : ℕ) (t : Tlb)
    → Coherente memoria t.tlb_list
    → memoria p q ≡ some marco
    → (t' : Tlb) × (obtener_marco memoria p q t ≡ some (marco, t')) × Coherente memoria t'.tlb_list
unfolding obtener_marco obtener_timestamp
obtener_marco-Coherente memoria p q marco t c h =
    elim (Option-cases (buscar_marco_tlb p q t.tlb_list)) [
      | inl n ↦ (
        if tlb_habilitada t then agregar_marco_tlb p q marco t else t,
        rw (n, obtener_marco) (rw (h, ◌>>=◌) refl),
        Coherente-alta memoria p q marco t c h,
      )
      | inr (e, y) ↦
          let igual : some e.marco ≡ some marco =
            sym (Coherente-buscar memoria p q t.tlb_list e c y) ∙ h in
          elim (Bool-cases t.es_lru) [
            | inl lru ↦ (
              record t {
                tlb_list = tocar p q (t.reloj t.lecturas) t.tlb_list;
                lecturas = t.lecturas + 1;
              },
              rw (y, obtener_marco) (rw lru (cc igual)),
              Coherente-tocar memoria p q (t.reloj t.lecturas) t.tlb_list c,
            )
            | inr fifo ↦ (t, rw (y, obtener_marco) (rw fifo (cc igual)), c)
          ]
    ]
