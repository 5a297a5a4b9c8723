-- ===== src/Cpu/Tlb/Tests.antt =====
-- The theorems of the TLB at concrete tables.
use tp_2024_1c_pccsc.Common.{
  ℕ, ◌+◌, ◌<◌, true, Option, none, some, [], ◌∷◌, ◌≡◌, refl, arith, get_elem?, remove_at, ◌==◌,
  if◌then◌else◌,
}
use tp_2024_1c_pccsc.Cpu.Tlb.{
  EntradaTlb, Tlb, buscar_marco_tlb, agregar_marco_tlb, obtener_timestamp, mas_viejo_desde,
  obtener_marco, remover_entrada_segun_algoritmo,
}
use tp_2024_1c_pccsc.Cpu.Tlb.Reemplazo.{TlbInv, Desde, remover_entrada_lem, obtener_marco-TlbInv}
use tp_2024_1c_pccsc.Cpu.Tlb.Coherencia.{Coherente, obtener_marco-Coherente}

-- Page `q` of process 1 lies in frame `q + 5`.
abbrev memoria : ℕ → ℕ → Option ℕ
memoria p q = if p == 1 then some (q + 5) else none

abbrev primera : EntradaTlb
primera = record { pid = 1; pagina = 0; marco = 5; timestamp = 10 }

abbrev segunda : EntradaTlb
segunda = record { pid = 1; pagina = 3; marco = 8; timestamp = 4 }

abbrev tlb : Tlb
tlb = record {
  tlb_list = primera ∷ segunda ∷ [];
  cantidad_entradas_tlb = 2;
  es_lru = true;
  reloj = λ k. k + 20;
  lecturas = 0;
}

remover_entrada_lem_example :
    (i : ℕ) × (r : EntradaTlb) × (remover_entrada_segun_algoritmo tlb.tlb_list
      ≡ remove_at tlb.tlb_list i)
    × (get_elem? tlb.tlb_list i ≡ some r)
    × (i < 2)
    × Desde r.timestamp tlb.tlb_list
remover_entrada_lem_example = remover_entrada_lem primera (segunda ∷ []) (omega arith)

tlb-Inv : TlbInv tlb
tlb-Inv = record { capacidad = omega arith; unica = λ p q. ground arith }

-- Page 4 is not in the full table: the entry of page 3 goes.
abbrev cambiada : Tlb
cambiada = record tlb {
  tlb_list = primera ∷ record { pid = 1; pagina = 4; marco = 9; timestamp = 20 } ∷ [];
  lecturas = 1;
}

obtener_marco-TlbInv_example : TlbInv cambiada
unfolding obtener_marco buscar_marco_tlb agregar_marco_tlb obtener_timestamp
    remover_entrada_segun_algoritmo mas_viejo_desde
obtener_marco-TlbInv_example =
    obtener_marco-TlbInv memoria 1 4 9 tlb cambiada tlb-Inv (omega arith, (omega arith, tt)) refl

obtener_marco-Coherente_example :
    (t' : Tlb) × (obtener_marco memoria 1 4 tlb ≡ some (9, t')) × Coherente memoria t'.tlb_list
obtener_marco-Coherente_example = obtener_marco-Coherente memoria 1 4 9 tlb (refl, (refl, tt)) refl
