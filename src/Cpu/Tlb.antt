-- ===== src/Cpu/Tlb.antt =====
-- The TLB of cpu/src/main.c: lookup, insertion and replacement.
pub mod Reemplazo
pub mod Coherencia
mod Tests
use tp_2024_1c_pccsc.Common.{
  ℕ, zero, suc, ◌+◌, ◌-◌, ◌^◌, Bool, true, false, ◌&&◌, Option, none, some, List, [], ◌∷◌, ◌++◌,
  length, get_elem?, remove_at, ltb, ◌==◌, if◌then◌else◌, ◌>>=◌,
}

-- `t_tlb`
pub record EntradaTlb : Type 0 where
  pub pid : ℕ
  pub pagina : ℕ
  pub marco : ℕ
  pub timestamp : ℕ

-- `tlb_list` with the configuration that it depends on. `reloj k` is what the k-th call of
-- `gettimeofday` gives, and `lecturas` counts the calls made.
pub record Tlb : Type 0 where
  pub tlb_list : List EntradaTlb
  pub cantidad_entradas_tlb : ℕ
  pub es_lru : Bool
  pub reloj : ℕ → ℕ
  pub lecturas : ℕ

-- `TLB_HABILITADA`
abbrev pub tlb_habilitada : Tlb → Bool
tlb_habilitada t = if t.cantidad_entradas_tlb == 0 then false else true

unfoldable pub obtener_timestamp : Tlb → ℕ × Tlb
obtener_timestamp t = (t.reloj t.lecturas, record t { lecturas = t.lecturas + 1 })

abbrev pub coincide : ℕ → ℕ → EntradaTlb → Bool
coincide proceso nro_pagina e = (e.pid == proceso) && (e.pagina == nro_pagina)

-- The first entry of a process and page, as `list_find` gives it.
unfoldable pub buscar_marco_tlb : ℕ → ℕ → List EntradaTlb → Option EntradaTlb
buscar_marco_tlb proceso nro_pagina [] = none
buscar_marco_tlb proceso nro_pagina (e ∷ es) =
    if coincide proceso nro_pagina e then some e else buscar_marco_tlb proceso nro_pagina es

-- The write of `timestamp` through the pointer that `buscar_marco_tlb` gave.
unfoldable pub tocar : ℕ → ℕ → ℕ → List EntradaTlb → List EntradaTlb
tocar proceso nro_pagina ahora [] = []
tocar proceso nro_pagina ahora (e ∷ es) =
    if coincide proceso nro_pagina e
    then record e { timestamp = ahora } ∷ es
    else e ∷ tocar proceso nro_pagina ahora es

abbrev pub uint64_max : ℕ
uint64_max = 2 ^ 64 - 1

-- The loop of `remover_entrada_segun_algoritmo` from index `i` on: the index of the oldest entry so
-- far (`none` for -1) and its time.
pub mas_viejo_desde : ℕ → Option ℕ → ℕ → List EntradaTlb → Option ℕ
mas_viejo_desde i index_mas_viejo min_timestamp [] = index_mas_viejo
mas_viejo_desde i index_mas_viejo min_timestamp (e ∷ es) =
    let menor = ltb e.timestamp min_timestamp in
    mas_viejo_desde (suc i) (if menor then some i else index_mas_viejo)
      (if menor then e.timestamp else min_timestamp) es

-- `list_remove` at -1 removes nothing (the source tests its NULL).
pub remover_entrada_segun_algoritmo : List EntradaTlb → List EntradaTlb
unfolding mas_viejo_desde
remover_entrada_segun_algoritmo es = elim (mas_viejo_desde 0 none uint64_max es) [
  | none ↦ es
  | some i ↦ remove_at es i
]

unfoldable pub agregar_marco_tlb : ℕ → ℕ → ℕ → Tlb → Tlb
unfolding obtener_timestamp
agregar_marco_tlb proceso pagina marco t =
    let es = t.tlb_list in
    let quedan =
      if length es == t.cantidad_entradas_tlb then remover_entrada_segun_algoritmo es else es in
    let (ahora, t') = obtener_timestamp t in
    record t' {
      tlb_list =
          quedan
          ++ record { pid = proceso; pagina = pagina; marco = marco; timestamp = ahora } ∷ [];
    }

-- How `mmu` gets the frame of a page: from the TLB, or by asking memory, which answers with the
-- frame or, on a fault of the server, not at all. Then the model stops, while the source goes on with
-- frame 0.
unfoldable pub obtener_marco : (ℕ → ℕ → Option ℕ) → ℕ → ℕ → Tlb → Option (ℕ × Tlb)
unfolding obtener_timestamp
obtener_marco memoria proceso nro_pagina t = elim (buscar_marco_tlb proceso nro_pagina t.tlb_list) [
  | none ↦ (do
    marco ← memoria proceso nro_pagina
    some (marco, if tlb_habilitada t then agregar_marco_tlb proceso nro_pagina marco t else t))
  | some e ↦
      let (ahora, t') = obtener_timestamp t in
      some (
        e.marco,
        if t.es_lru then record t' { tlb_list = tocar proceso nro_pagina ahora t.tlb_list } else t,
      )
]
