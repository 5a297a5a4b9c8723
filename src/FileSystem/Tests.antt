-- ===== src/FileSystem/Tests.antt =====
-- The theorems of the file system at a disk of six blocks of two bytes.
use tp_2024_1c_pccsc.Common.{
  none, ◌⊎◌, take, drop, ◌≤◌, ◌<◌, ◌+◌, ℕ, Bool, some, [], ◌∷◌, ◌≡◌, refl, arith, ◌==◌, ◌||◌,
}
use tp_2024_1c_pccsc.Common.Muestra.{muestra}
use tp_2024_1c_pccsc.FileSystem.{
  Fs, igual, buscar_metadata, buscar_contiguos, buscar_contiguos_desde, compactar_bloques,
}
use tp_2024_1c_pccsc.FileSystem.Busqueda.{
  Correcto, CorrectoDesde, buscar_contiguos_lem, buscar_contiguos_desde_lem,
}
use tp_2024_1c_pccsc.FileSystem.Archivos.{io_fs_write, io_fs_read}
use tp_2024_1c_pccsc.FileSystem.Archivos.Escritura.{io_fs_write_lem}
use tp_2024_1c_pccsc.FileSystem.Indice.{ConMetadata}
use tp_2024_1c_pccsc.FileSystem.Compactacion.{Montado, Compactado, compactar_bloques_lem}

-- Blocks 0, 2, 3 and 5 are in use: one file at 0, one of two blocks at 2, one at 5.
abbrev usados : ℕ × (ℕ → Bool)
usados = (8, λ i. (i == 0) || (i == 2) || (i == 3) || (i == 5))

abbrev disco : Fs
disco = record {
  config = record { block_size = 2; block_count = 6 };
  bitmap_bloques = usados;
  bloques_dat = 1 ∷ 2 ∷ 0 ∷ 0 ∷ 3 ∷ 4 ∷ 5 ∷ 6 ∷ 0 ∷ 0 ∷ 7 ∷ 8 ∷ [];
  directorio =
      record { nombre = 97 ∷ []; bloque_inicial = 0; tamanio_archivo = 2 }
      ∷ record { nombre = 98 ∷ []; bloque_inicial = 2; tamanio_archivo = 3 }
      ∷ record { nombre = 99 ∷ []; bloque_inicial = 5; tamanio_archivo = 0 }
      ∷ [];
  lista_archivos_abierto =
      record { nombre_archivo_dialfs = 97 ∷ []; bloque_inicial = 0 }
      ∷ record { nombre_archivo_dialfs = 99 ∷ []; bloque_inicial = 5 }
      ∷ record { nombre_archivo_dialfs = 98 ∷ []; bloque_inicial = 2 }
      ∷ [];
}

disco-Montado : Montado disco
unfolding igual buscar_metadata ConMetadata
disco-Montado = record {
  en_bitmap = omega arith;
  en_dat = omega arith;
  metadatos = ((_, refl), ((_, refl), ((_, refl), tt)));
}

compactar_bloques_lem_example : (g : Fs) × (compactar_bloques disco ≡ some g) × Compactado disco g
compactar_bloques_lem_example = compactar_bloques_lem disco disco-Montado

-- No two free blocks in a row.
buscar_contiguos_lem_example : Correcto usados 6 2 0 (buscar_contiguos 6 2 usados)
buscar_contiguos_lem_example = buscar_contiguos_lem 6 2 usados (omega arith)

buscar_contiguos_desde_lem_example :
    CorrectoDesde usados 6 1 4 (buscar_contiguos_desde 6 1 4 usados)
buscar_contiguos_desde_lem_example =
    buscar_contiguos_desde_lem 6 1 4 usados (omega arith) (omega arith)

-- Five bytes at position 1 of the file of four bytes at block 2: three are written.
io_fs_write_lem_example :
    (1 ≤ 4
      → (g : Fs) × (io_fs_write (98 ∷ []) (50 ∷ 51 ∷ 52 ∷ 53 ∷ 54 ∷ []) 1 disco ≡ some g)
        × (io_fs_read (98 ∷ []) 3 1 g ≡ some (50 ∷ 51 ∷ 52 ∷ []))
        × ((pos n : ℕ)
            → (pos + n ≤ 4) ⊎ (8 ≤ pos)
            → take n (drop pos g.bloques_dat) ≡ take n (drop pos disco.bloques_dat))
        × (g.bitmap_bloques ≡ usados)
        × (g.directorio ≡ disco.directorio)
        × (g.lista_archivos_abierto ≡ disco.lista_archivos_abierto))
    × (4 < 1 → io_fs_write (98 ∷ []) (50 ∷ 51 ∷ 52 ∷ 53 ∷ 54 ∷ []) 1 disco ≡ none)
unfolding igual buscar_metadata
io_fs_write_lem_example =
    io_fs_write_lem disco (98 ∷ [])
      (record { nombre = 98 ∷ []; bloque_inicial = 2; tamanio_archivo = 3 })
      (50 ∷ 51 ∷ 52 ∷ 53 ∷ 54 ∷ []) 1 refl (omega arith)
