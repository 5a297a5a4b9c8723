-- ===== src/FileSystem/Archivos.antt =====
-- The requests of filesystem.c: create, delete, truncate, write and read a file.
pub mod Escritura
use tp_2024_1c_pccsc.Common.{
  ℕ, ◌+◌, ◌-◌, ◌*◌, Bool, true, false, Option, none, some, List, [], ◌∷◌, ◌++◌, length, take, ltb,
  ◌==◌, if◌then◌else◌, ◌>>=◌,
}
use tp_2024_1c_pccsc.Common.Bitarray.{Bitarray}
use tp_2024_1c_pccsc.Common.Bytes.{copiar_a, copiar_de}
use tp_2024_1c_pccsc.FileSystem.{
  Nombre, Metadata, Hallazgo, posicion, Fs, bloques_de, buscar_metadata, guardar_metadata,
  borrar_metadata, buscar_por_bloque_inicial, cambiar_bloque_inicial, quitar_abierto,
  asignar_bloques, desasignar_bloques, desasignar_bajando, buscar_contiguos, buscar_contiguos_desde,
  contar_bloques_libres, compactar_bloques,
}

-- The bytes that a write at `pointer` of a file of `tamanio_real` bytes puts down.
abbrev pub a_escribir : ℕ → ℕ → List ℕ → List ℕ
a_escribir tamanio_real pointer datos =
    if ltb (tamanio_real - pointer) (length datos)
    then take (tamanio_real - pointer) datos
    else datos

module _ ⦃bits : Bitarray⦄ where
  open bits use {set_bit}

  -- A search whose failure the source does not test.
  abbrev pub posicion_de : Hallazgo → Option ℕ
  posicion_de h = elim h [ posicion p ↦ some p | _ ↦ none ]

  -- The result is the flag that the source returns.
  pub io_fs_create : Nombre → Fs → Option (Bool × Fs)
  io_fs_create nombre f =
      if contar_bloques_libres f == 0
      then some (false, f)
      else elim (buscar_metadata nombre f.directorio) [
        | some m ↦ some (true, f)
        | none ↦ (do
          inicial ← posicion_de (buscar_contiguos f.config.block_count 1 f.bitmap_bloques)
          some (
            true,
            record f {
              directorio =
                  f.directorio
                  ++ record { nombre = nombre; bloque_inicial = inicial; tamanio_archivo = 0 } ∷ [];
              lista_archivos_abierto =
                  f.lista_archivos_abierto
                  ++ record { nombre_archivo_dialfs = nombre; bloque_inicial = inicial } ∷ [];
              bitmap_bloques = set_bit f.bitmap_bloques inicial;
            },
          ))
      ]

  pub io_fs_delete : Nombre → Fs → Option Fs
  io_fs_delete nombre f = do
    m ← buscar_metadata nombre f.directorio
    a ← buscar_por_bloque_inicial m.bloque_inicial f.lista_archivos_abierto
    some (record f {
      bitmap_bloques =
          desasignar_bloques (bloques_de f.config.block_size m.tamanio_archivo) m.bloque_inicial
            f.bitmap_bloques;
      lista_archivos_abierto = quitar_abierto a.bloque_inicial f.lista_archivos_abierto;
      directorio = borrar_metadata nombre f.directorio;
    })

  -- The file's blocks go to `pos` on, where `nueva` blocks are taken, and `contenido` with them;
  -- the metadata and the list entry that starts at `m.bloque_inicial` follow.
  pub reubicar : Metadata → ℕ → ℕ → ℕ → List ℕ → Fs → Option Fs
  reubicar m nuevo_tamanio nueva pos contenido f = do
    dat ← copiar_a f.bloques_dat (pos * f.config.block_size) contenido
    a ← buscar_por_bloque_inicial m.bloque_inicial f.lista_archivos_abierto
    some (record f {
      bitmap_bloques = asignar_bloques nueva pos f.bitmap_bloques;
      bloques_dat = dat;
      directorio =
          guardar_metadata (record m { bloque_inicial = pos; tamanio_archivo = nuevo_tamanio })
            f.directorio;
      lista_archivos_abierto = cambiar_bloque_inicial a.bloque_inicial pos f.lista_archivos_abierto;
    })

  -- The branch of `io_fs_truncate` that cannot grow in place: to a free run elsewhere, or after a
  -- compaction to the end of the used blocks.
  pub crecer_reubicando : Metadata → ℕ → ℕ → ℕ → Fs → Option Fs
  crecer_reubicando m nuevo_tamanio cant nueva f = do
    contenido ←
        copiar_de f.bloques_dat (m.bloque_inicial * f.config.block_size)
          (cant * f.config.block_size)
    let sin = record f {
      bitmap_bloques = desasignar_bloques cant m.bloque_inicial f.bitmap_bloques;
    }
    elim (buscar_contiguos f.config.block_count nueva f.bitmap_bloques) [
      | posicion pos ↦ reubicar m nuevo_tamanio nueva pos contenido sin
      | _ ↦ (do
        g ← compactar_bloques sin
        pos ← posicion_de (buscar_contiguos g.config.block_count nueva g.bitmap_bloques)
        reubicar m nuevo_tamanio nueva pos contenido g)
    ]

  -- The metadata with the new size.
  abbrev pub con_tamanio : Metadata → ℕ → Fs → Fs
  con_tamanio m nuevo_tamanio f = record f {
    directorio = guardar_metadata (record m { tamanio_archivo = nuevo_tamanio }) f.directorio;
  }

  -- More blocks than before: in place, if the blocks behind the file are free.
  pub crecer : Metadata → ℕ → ℕ → ℕ → Fs → Option Fs
  unfolding crecer_reubicando reubicar
  crecer m nuevo_tamanio cant nueva f =
      let siguiente = m.bloque_inicial + cant in
      let k = nueva - cant in
      elim (buscar_contiguos_desde f.config.block_count k siguiente f.bitmap_bloques) [
        | posicion p ↦ some (record (con_tamanio m nuevo_tamanio f) {
          bitmap_bloques =
              asignar_bloques (m.bloque_inicial + nueva - siguiente) siguiente f.bitmap_bloques;
        })
        | _ ↦ crecer_reubicando m nuevo_tamanio cant nueva f
      ]

  -- Fewer blocks: those at the end are freed, the last one first.
  pub achicar : Metadata → ℕ → ℕ → ℕ → Fs → Fs
  achicar m nuevo_tamanio cant nueva f = record (con_tamanio m nuevo_tamanio f) {
    bitmap_bloques =
        desasignar_bajando (cant - nueva) (m.bloque_inicial + cant - 1) f.bitmap_bloques;
  }

  -- With `cant` blocks held and `nueva` wanted. With as many as before nothing is written, not even
  -- the size.
  pub truncar : Metadata → ℕ → ℕ → ℕ → Fs → Option Fs
  unfolding crecer achicar
  truncar m nuevo_tamanio cant nueva f =
      if ltb cant nueva
      then if ltb (contar_bloques_libres f) (nueva - cant)
        then some f
        else crecer m nuevo_tamanio cant nueva f
      else if ltb nueva cant
      then some (achicar m nuevo_tamanio cant nueva f)
      else some f

  pub io_fs_truncate : Nombre → ℕ → Fs → Option Fs
  unfolding truncar
  io_fs_truncate nombre nuevo_tamanio f = do
    m ← buscar_metadata nombre f.directorio
    truncar m nuevo_tamanio (bloques_de f.config.block_size m.tamanio_archivo)
        (bloques_de f.config.block_size nuevo_tamanio) f

  -- `datos` is what the memory server sent, `pointer` the position in the file.
  pub io_fs_write : Nombre → List ℕ → ℕ → Fs → Option Fs
  io_fs_write nombre datos pointer f = do
    m ← buscar_metadata nombre f.directorio
    let tamanio_real = bloques_de f.config.block_size m.tamanio_archivo * f.config.block_size
    let lugar = pointer + m.bloque_inicial * f.config.block_size
    let escrito = copiar_a f.bloques_dat lugar (a_escribir tamanio_real pointer datos)
    dat ← (if ltb tamanio_real pointer then none else escrito)
    some (record f { bloques_dat = dat })

  -- A read past the end of the file of blocks, which leaves bytes of the result unwritten, is `none`.
  pub io_fs_read : Nombre → ℕ → ℕ → Fs → Option (List ℕ)
  io_fs_read nombre size offset f = do
    m ← buscar_metadata nombre f.directorio
    copiar_de f.bloques_dat (m.bloque_inicial * f.config.block_size + offset) size
