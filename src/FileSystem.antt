-- ===== src/FileSystem.antt =====
-- entradasalida/src/filesystem.c: DialFS, a file system of contiguous blocks under a bitmap.
-- A file has a metadata file in the directory and an entry in `lista_archivos_abierto`. `none` is a
-- fault: a metadata file or an entry that is not there, an access outside bloque.dat, a call of
-- `exit`. The bitmap is mapped to bitmap.dat, so the bitmap is also what is on disk.
pub mod Busqueda
pub mod Contenido
pub mod Indice
pub mod Compactacion
mod Tests
pub mod Archivos
use tp_2024_1c_pccsc.Common.{
  ℕ, zero, suc, ◌+◌, ◌-◌, ◌*◌, ◌/◌, ◌≤◌, Bool, true, false, ◌&&◌, Option, none, some, List, [], ◌∷◌,
  ◌++◌, length, take, ltb, ◌==◌, if◌then◌else◌, ◌>>=◌,
}
use tp_2024_1c_pccsc.Common.Bitarray.{Bitarray}
use tp_2024_1c_pccsc.Common.Bytes.{copiar_a, copiar_de}

pub record ConfigStruct : Type 0 where
  pub block_size : ℕ
  pub block_count : ℕ

-- A name by its characters.
abbrev pub Nombre : Type 0
Nombre = List ℕ

-- `strcmp(a, b) == 0`
unfoldable pub igual : Nombre → Nombre → Bool
igual [] [] = true
igual [] (d ∷ b) = false
igual (c ∷ a) [] = false
igual (c ∷ a) (d ∷ b) = (c == d) && igual a b

-- A metadata file: its name and the values of its two keys.
pub record Metadata : Type 0 where
  pub nombre : Nombre
  pub bloque_inicial : ℕ
  pub tamanio_archivo : ℕ

-- `t_archivos_metadata`
pub record ArchivosMetadata : Type 0 where
  pub nombre_archivo_dialfs : Nombre
  pub bloque_inicial : ℕ

pub buscar_metadata : Nombre → List Metadata → Option Metadata
unfolding igual
buscar_metadata n [] = none
buscar_metadata n (m ∷ ms) = if igual m.nombre n then some m else buscar_metadata n ms

-- `config_set_value` and `config_save` on a file that exists.
pub guardar_metadata : Metadata → List Metadata → List Metadata
unfolding igual
guardar_metadata d [] = []
guardar_metadata d (m ∷ ms) = if igual m.nombre d.nombre then d ∷ ms else m ∷ guardar_metadata d ms

pub borrar_metadata : Nombre → List Metadata → List Metadata
unfolding igual
borrar_metadata n [] = []
borrar_metadata n (m ∷ ms) = if igual m.nombre n then ms else m ∷ borrar_metadata n ms

-- The first entry that starts at a block.
pub buscar_por_bloque_inicial : ℕ → List ArchivosMetadata → Option ArchivosMetadata
buscar_por_bloque_inicial i [] = none
buscar_por_bloque_inicial i (a ∷ ls) =
    if a.bloque_inicial == i then some a else buscar_por_bloque_inicial i ls

-- The write of `bloque_inicial` through the pointer that the search for block `i` gave.
pub cambiar_bloque_inicial : ℕ → ℕ → List ArchivosMetadata → List ArchivosMetadata
cambiar_bloque_inicial i nuevo [] = []
cambiar_bloque_inicial i nuevo (a ∷ ls) =
    if a.bloque_inicial == i
    then record a { bloque_inicial = nuevo } ∷ ls
    else a ∷ cambiar_bloque_inicial i nuevo ls

-- `list_remove_element` of the entry that the search for block `i` gave.
pub quitar_abierto : ℕ → List ArchivosMetadata → List ArchivosMetadata
quitar_abierto i [] = []
quitar_abierto i (a ∷ ls) = if a.bloque_inicial == i then ls else a ∷ quitar_abierto i ls

-- The results of `buscar_bloques_libres_contiguos`: a position, -1, -2 and -3.
pub data Hallazgo : Type 0 where
  posicion : ℕ → Hallazgo
  no_contiguos pasa_el_final no_hay : Hallazgo

-- Blocks of a file of a size: at least one, else the size rounded up.
abbrev pub bloques_de : ℕ → ℕ → ℕ
bloques_de block_size tamanio = if tamanio == 0 then 1 else (tamanio + block_size - 1) / block_size

module _ ⦃bits : Bitarray⦄ where
  open bits use {Bits, test_bit, set_bit, clean_bit}

  pub record Fs : Type 0 where
    pub config : ConfigStruct
    pub bitmap_bloques : Bits
    pub bloques_dat : List ℕ
    pub directorio : List Metadata
    pub lista_archivos_abierto : List ArchivosMetadata

  -- `asignar_bloque` and `desasignar_bloque` on `k` blocks, from block `i` up.
  pub asignar_bloques : ℕ → ℕ → Bits → Bits
  asignar_bloques zero i b = b
  asignar_bloques (suc k) i b = asignar_bloques k (suc i) (set_bit b i)

  pub desasignar_bloques : ℕ → ℕ → Bits → Bits
  desasignar_bloques zero i b = b
  desasignar_bloques (suc k) i b = desasignar_bloques k (suc i) (clean_bit b i)

  -- `desasignar_bloque` on `k` blocks, from block `i` down.
  pub desasignar_bajando : ℕ → ℕ → Bits → Bits
  desasignar_bajando zero i b = b
  desasignar_bajando (suc k) i b = desasignar_bajando k (i - 1) (clean_bit b i)

  -- The loop over all blocks: blocks left, block, free blocks in a row.
  pub contiguos_bucle : ℕ → Bits → ℕ → ℕ → ℕ → Hallazgo
  contiguos_bucle cant b zero i encontrados = no_hay
  contiguos_bucle cant b (suc k) i encontrados =
      let libre = if test_bit b i then false else true in
      let resto = contiguos_bucle cant b k (suc i) (if libre then encontrados + 1 else 0) in
      if libre && (encontrados + 1 == cant) then posicion (i + 1 - cant) else resto

  -- The loop from a given block, which must be free with those that follow.
  pub desde_bucle : ℕ → ℕ → Bits → ℕ → ℕ → ℕ → Hallazgo
  desde_bucle cant pos b zero i encontrados = pasa_el_final
  desde_bucle cant pos b (suc k) i encontrados =
      let resto = desde_bucle cant pos b k (suc i) (encontrados + 1) in
      if test_bit b i then no_contiguos else if encontrados + 1 == cant then posicion pos else resto

  -- `buscar_bloques_libres_contiguos(cant, -1)`, and with a position.
  pub buscar_contiguos : ℕ → ℕ → Bits → Hallazgo
  unfolding contiguos_bucle
  buscar_contiguos block_count cant b = contiguos_bucle cant b block_count 0 0

  pub buscar_contiguos_desde : ℕ → ℕ → ℕ → Bits → Hallazgo
  unfolding desde_bucle
  buscar_contiguos_desde block_count cant pos b = desde_bucle cant pos b (block_count - pos) pos 0

  pub contar_libres_desde : Bits → ℕ → ℕ → ℕ → ℕ
  contar_libres_desde b zero i encontrados = encontrados
  contar_libres_desde b (suc k) i encontrados =
      contar_libres_desde b k (suc i) (if test_bit b i then encontrados else encontrados + 1)

  pub contar_bloques_libres : Fs → ℕ
  unfolding contar_libres_desde
  contar_bloques_libres f = contar_libres_desde f.bitmap_bloques f.config.block_count 0 0

  -- The first of `k` blocks from `i` whose bit is `v`; `none` for -1.
  pub primer_bloque : Bool → Bits → ℕ → ℕ → Option ℕ
  primer_bloque v b zero i = none
  primer_bloque v b (suc k) i =
      let resto = primer_bloque v b k (suc i) in
      let hit = if v then test_bit b i else if test_bit b i then false else true in
      if hit then some i else resto

  pub primer_bloque_libre : ℕ → Bits → Option ℕ
  primer_bloque_libre block_count b = primer_bloque false b block_count 0

  pub primer_bloque_usado : ℕ → ℕ → Bits → Option ℕ
  primer_bloque_usado block_count i b = primer_bloque true b (block_count - i) i

  -- Step 3 of the compaction: the file that started at `usado`, if any, starts at `i` now, in the
  -- list and in its metadata.
  pub mover_archivo : ℕ → ℕ → Fs → Option Fs
  unfolding buscar_por_bloque_inicial cambiar_bloque_inicial buscar_metadata guardar_metadata
  mover_archivo usado i f = elim (buscar_por_bloque_inicial usado f.lista_archivos_abierto) [
    | none ↦ some f
    | some a ↦ (do
      m ← buscar_metadata a.nombre_archivo_dialfs f.directorio
      some (record f {
        lista_archivos_abierto = cambiar_bloque_inicial usado i f.lista_archivos_abierto;
        directorio = guardar_metadata (record m { bloque_inicial = i }) f.directorio;
      }))
  ]

  -- Steps 1 and 2: the content of block `usado` and its bit go to block `i`.
  pub mover_bloque : ℕ → ℕ → Fs → Option Fs
  mover_bloque usado i f = do
    aux ← copiar_de f.bloques_dat (usado * f.config.block_size) f.config.block_size
    dat ← copiar_a f.bloques_dat (i * f.config.block_size) aux
    some (record f {
      bloques_dat = dat;
      bitmap_bloques = set_bit (clean_bit f.bitmap_bloques usado) i;
    })

  -- The loop of `compactar_bloques`: blocks left and block `i`.
  pub compactar_bucle : ℕ → ℕ → Fs → Option Fs
  unfolding primer_bloque_usado primer_bloque
  compactar_bucle zero i f = some f
  compactar_bucle (suc k) i f = elim (primer_bloque_usado f.config.block_count i f.bitmap_bloques) [
    | none ↦ some f
    | some usado ↦ (do
      f' ← mover_bloque usado i f
      f'' ← mover_archivo usado i f'
      compactar_bucle k (suc i) f'')
  ]

  pub compactar_bloques : Fs → Option Fs
  unfolding compactar_bucle primer_bloque_libre primer_bloque
  compactar_bloques f = elim (primer_bloque_libre f.config.block_count f.bitmap_bloques) [
    | none ↦ some f
    | some libre ↦ compactar_bucle (f.config.block_count - libre) libre f
  ]
