-- ===== src/FileSystem/Archivos/Escritura.antt =====
-- A write of a file and the reads that follow it.
use tp_2024_1c_pccsc.Common.{
  ℕ, ◌+◌, ◌-◌, ◌*◌, ◌≤◌, ◌<◌, none, some, List, ◌++◌, length, take, drop, ltb, ◌≡◌, ◌⊎◌, inl, inr,
  refl, ◌∙◌, ap, arith, Bool-cases, ltb→ge, lt→ltb, ge→ltb, ◌>>=◌, length-take,
}
use tp_2024_1c_pccsc.Common.Bitarray.{Bitarray}
use tp_2024_1c_pccsc.Common.Bytes.{
  copiar_de, copiar_a-fits, copiar_de-fits, length-copiado, leer-copiado, leer-copiado_antes,
  leer-copiado_despues,
}
use tp_2024_1c_pccsc.FileSystem.{Nombre, Metadata, Fs, bloques_de, buscar_metadata}
use tp_2024_1c_pccsc.FileSystem.Archivos.{io_fs_write, io_fs_read, a_escribir}

length-a_escribir : (t p : ℕ) (d : List ℕ) → p ≤ t → p + length (a_escribir t p d) ≤ t
length-a_escribir t p d h = elim (Bool-cases (ltb (t - p) (length d))) [
  | inl y ↦ rw y (omega (arith, length-take (t - p) d))
  | inr n ↦ rw n (let z = ltb→ge (t - p) (length d) n in omega arith)
]

module _ ⦃bits : Bitarray⦄ where
  -- A write at a position within the blocks of a file that lies on the disk puts down the datum, cut
  -- at the end of those blocks: a read there gives it back, every byte outside the file's blocks is
  -- as before, and so are bitmap, directory and list of files. A position behind the blocks is
  -- refused.
  pub io_fs_write_lem :
      (f : Fs) (nombre : Nombre) (m : Metadata) (datos : List ℕ) (pointer : ℕ)
      → buscar_metadata nombre f.directorio ≡ some m
      → let bs = f.config.block_size in
        let inicio = m.bloque_inicial * bs in
        let tamanio = bloques_de bs m.tamanio_archivo * bs in
        let escrito = a_escribir tamanio pointer datos in
        inicio + tamanio ≤ length f.bloques_dat
        → (pointer ≤ tamanio
            → (g : Fs) × (io_fs_write nombre datos pointer f ≡ some g)
              × (io_fs_read nombre (length escrito) pointer g ≡ some escrito)
              × ((pos n : ℕ)
                  → (pos + n ≤ inicio) ⊎ (inicio + tamanio ≤ pos)
                  → take n (drop pos g.bloques_dat) ≡ take n (drop pos f.bloques_dat))
              × (g.bitmap_bloques ≡ f.bitmap_bloques)
              × (g.directorio ≡ f.directorio)
              × (g.lista_archivos_abierto ≡ f.lista_archivos_abierto))
          × (tamanio < pointer → io_fs_write nombre datos pointer f ≡ none)
  unfolding io_fs_write io_fs_read
  io_fs_write_lem f nombre m datos pointer e h =
      let bs = f.config.block_size in
      let inicio = m.bloque_inicial * bs in
      let tamanio = bloques_de bs m.tamanio_archivo * bs in
      let escrito = a_escribir tamanio pointer datos in
      let r = f.bloques_dat in
      let lugar = pointer + inicio in
      (
        λ hp.
            let l = length-a_escribir tamanio pointer datos hp in
            let cabe : lugar + length escrito ≤ length r = omega arith in
            let nuevo = take lugar r ++ (escrito ++ drop (lugar + length escrito) r) in
            let ln = length-copiado r lugar escrito cabe in
            (
              record f { bloques_dat = nuevo },
              rw (e, ◌>>=◌)
                  (rw (ge→ltb tamanio pointer hp) (rw (copiar_a-fits r lugar escrito cabe) refl)),
              rw (e, ◌>>=◌)
                  (ap (λ z. copiar_de nuevo z (length escrito))
                      (let z : inicio + pointer ≡ lugar = omega arith in z)
                    ∙ copiar_de-fits nuevo lugar (length escrito) (omega arith)
                    ∙ ap some (leer-copiado r lugar escrito cabe)),
              (λ pos n fuera. elim fuera [
                | inl a ↦ leer-copiado_antes r lugar escrito pos n cabe (omega arith)
                | inr b ↦ leer-copiado_despues r lugar escrito pos n cabe (omega arith)
              ]),
              refl,
              refl,
              refl,
            ),
        λ lt. rw (e, ◌>>=◌) (rw (lt→ltb tamanio pointer lt) refl),
      )
