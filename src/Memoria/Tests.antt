-- ===== src/Memoria/Tests.antt =====
-- The theorems of the memory server at a memory of four frames of four bytes.
use tp_2024_1c_pccsc.Common.{
  ℕ, ◌+◌, ◌≤◌, ◌<◌, Bool, false, none, some, List, [], ◌∷◌, replicate, ◌≡◌, ◌⊎◌, refl, arith,
  length, take, count, bit, ltb,
}
use tp_2024_1c_pccsc.Common.Int.{pos, negsuc}
use tp_2024_1c_pccsc.Common.Muestra.{muestra}
use tp_2024_1c_pccsc.Memoria.{
  ConfigStruct, Pagina, Pcb, Memoria, continuar, out_of_memory, buscar_pcb, quitar_pcb,
  liberar_paginas, init_memoria, init_bitmap_marcos, crear_proceso, eliminar_proceso,
  resize_proceso,
}
use tp_2024_1c_pccsc.Memoria.Marcos.{init_bitmap_marcos_lem}
use tp_2024_1c_pccsc.Memoria.Paginas.{marcos, liberar_paginas_lem}
use tp_2024_1c_pccsc.Memoria.Invariante.{
  Inv, init_memoria-Inv, crear_proceso-Inv, eliminar_proceso-Inv, ocupado,
}
use tp_2024_1c_pccsc.Memoria.Resize.{Redimensionado, libres, resize_proceso_lem, resize_negativo}

abbrev config : ConfigStruct
config = record { tam_memoria = 16; tam_pagina = 4 }

abbrev proceso : Pcb
proceso = record { pid = 7; path_proceso = []; tabla_paginas = [] }

abbrev arrancada : Memoria
arrancada = crear_proceso 7 [] (init_memoria config)

arrancada-Inv : Inv arrancada
arrancada-Inv = crear_proceso-Inv 7 [] (init_memoria config) (init_memoria-Inv config (omega arith))

init_memoria-Inv_example : Inv (init_memoria config)
init_memoria-Inv_example = init_memoria-Inv config (omega arith)

hallado : buscar_pcb 7 arrancada.lista_pcb_tablas_paginas ≡ some proceso
unfolding buscar_pcb crear_proceso init_memoria
hallado = refl

-- The process with three pages, in the frames 0, 1 and 2.
abbrev tabla : List Pagina
tabla =
    record { id_marco = 0; offset = 0 }
    ∷ record { id_marco = 1; offset = 0 }
    ∷ record { id_marco = 2; offset = 0 }
    ∷ []

abbrev con_paginas : Pcb
con_paginas = record proceso { tabla_paginas = tabla }

abbrev ocupada : Memoria
ocupada = record {
  config = config;
  cantidad_marcos_totales = 4;
  memoria = replicate 16 0;
  bitmap_marcos = (8, λ i. ltb i 3);
  lista_pcb_tablas_paginas = con_paginas ∷ [];
}

ocupada-Inv : Inv ocupada
ocupada-Inv = record {
  pagina_pos = omega arith;
  totales = refl;
  espacio = refl;
  bitmap = omega arith;
  duenio = λ i. ground arith;
}

crear_proceso-Inv_example : Inv (crear_proceso 8 [] ocupada)
crear_proceso-Inv_example = crear_proceso-Inv 8 [] ocupada ocupada-Inv

eliminar_proceso-Inv_example :
    (m' : Memoria) × (eliminar_proceso 7 ocupada ≡ some m')
    × Inv m'
    × (m'.lista_pcb_tablas_paginas ≡ quitar_pcb 7 ocupada.lista_pcb_tablas_paginas)
    × ((i : ℕ) → ocupado m' i + count i (marcos tabla) ≡ ocupado ocupada i)
unfolding buscar_pcb
eliminar_proceso-Inv_example = eliminar_proceso-Inv 7 ocupada con_paginas ocupada-Inv refl

-- 13 bytes want the fourth page too, and 17 do not fit.
resize_proceso_lem_example :
    (13 ≤ 16
      → 4 ≤ length tabla + libres ocupada
      → (m' : Memoria) × (resize_proceso 7 (pos 13) ocupada ≡ some (continuar, m'))
        × Redimensionado ocupada 7 con_paginas 4 m')
    × ((16 < 13) ⊎ (length tabla + libres ocupada < 4)
        → resize_proceso 7 (pos 13) ocupada ≡ some (out_of_memory, ocupada))
unfolding buscar_pcb
resize_proceso_lem_example = resize_proceso_lem ocupada 7 13 con_paginas ocupada-Inv refl

resize_negativo_example : resize_proceso 7 (negsuc 3) ocupada ≡ none
unfolding buscar_pcb
resize_negativo_example = resize_negativo ocupada 7 3 con_paginas ocupada-Inv refl (omega arith)

init_bitmap_marcos_lem_example :
    (9 ≤ muestra.max_bit (init_bitmap_marcos 9))
    × ((j : ℕ) → j < 9 → muestra.test_bit (init_bitmap_marcos 9) j ≡ false)
init_bitmap_marcos_lem_example = init_bitmap_marcos_lem 9

-- The last two of the three pages go.
liberar_paginas_lem_example :
    (b' : ℕ × (ℕ → Bool)) × (liberar_paginas tabla 2 (8, λ i. ltb i 3) ≡ some (b', take 1 tabla))
    × (b'.0 ≡ 8)
    × ((i : ℕ)
        → count i (marcos (take 1 tabla)) + bit (ltb i 3) ≡ count i (marcos tabla) + bit (b'.1 i))
liberar_paginas_lem_example =
    liberar_paginas_lem 2 (8, λ i. ltb i 3) tabla (omega arith)
      (omega arith, (omega arith, (omega arith, tt))) (λ i. ground arith)
