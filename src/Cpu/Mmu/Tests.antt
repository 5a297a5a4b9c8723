-- ===== src/Cpu/Mmu/Tests.antt =====
-- The translation over concrete pages.
use tp_2024_1c_pccsc.Common.{
  ℕ, ◌+◌, false, Option, none, some, [], ◌∷◌, refl, arith, ◌==◌, if◌then◌else◌,
}
use tp_2024_1c_pccsc.Cpu.Tlb.{Tlb}
use tp_2024_1c_pccsc.Cpu.Mmu.{mmu_peticiones}
use tp_2024_1c_pccsc.Cpu.Mmu.Traduccion.{Paginas, Traduce, mmu_peticiones_lem}

-- Page `q` of process 1 lies in frame `q + 5`.
abbrev memoria : ℕ → ℕ → Option ℕ
memoria p q = if p == 1 then some (q + 5) else none

abbrev tlb : Tlb
tlb = record {
  tlb_list = record { pid = 1; pagina = 1; marco = 6; timestamp = 10 } ∷ [];
  cantidad_entradas_tlb = 2;
  es_lru = false;
  reloj = λ k. k + 20;
  lecturas = 0;
}

paginas : Paginas 4 memoria 1 (λ q. q + 5) 3
paginas = record { pagina_pos = omega arith; conocida = λ q h. refl; acotada = λ q h. omega arith }

-- Six bytes from the last but one of page 0, with pages of four bytes: pages 0 and 1.
mmu_peticiones_lem_example :
    Traduce 4 memoria 1 (λ q. q + 5) 3 0 2 6 (mmu_peticiones 4 memoria 1 2 6 tlb)
mmu_peticiones_lem_example =
    mmu_peticiones_lem 4 memoria 1 (λ q. q + 5) 3 2 6 tlb paginas (omega arith) (omega arith)
      (refl, tt)
