-- ===== src/FileSystem/Indice.antt =====
-- The directory and the list of open files while files change their first block.
use tp_2024_1c_pccsc.Common.{
  ℕ, true, false, some, List, [], ◌∷◌, ◌≡◌, inl, inr, refl, ◌∙◌, ap, subst, ◌==◌, ◌&&◌,
  if◌then◌else◌, ◌>>=◌, Bool-cases, Option-cases, ==→≡,
}
use tp_2024_1c_pccsc.Common.Bitarray.{Bitarray}
use tp_2024_1c_pccsc.FileSystem.{
  Nombre, Metadata, ArchivosMetadata, Fs, igual, buscar_metadata, guardar_metadata,
  buscar_por_bloque_inicial, cambiar_bloque_inicial, mover_archivo,
}

igual→≡ : (a b : Nombre) → igual a b ≡ true → a ≡ b
unfolding igual
igual→≡ [] [] h = refl
igual→≡ [] (d ∷ b) h = absurd cc
igual→≡ (c ∷ a) [] h = absurd cc
igual→≡ (c ∷ a) (d ∷ b) h = elim (Bool-cases (c == d)) [
  | inl y ↦
      let t = subst (λ x. (x && igual a b) ≡ true) y h in
      let e1 = ==→≡ c d y in let e2 = igual→≡ a b t in cc
  | inr n ↦ absurd (let t = subst (λ x. (x && igual a b) ≡ true) n h in cc)
]

-- A name that has a metadata file.
abbrev pub Existe : List Metadata → Nombre → Type 0
Existe ms n = (m : Metadata) × (buscar_metadata n ms ≡ some m)

-- Each open file has its metadata file.
unfoldable pub ConMetadata : List Metadata → List ArchivosMetadata → Type 0
ConMetadata ms [] = Unit {0}
ConMetadata ms (a ∷ ls) = Existe ms a.nombre_archivo_dialfs × ConMetadata ms ls

Existe-guardar_metadata :
    (d : Metadata) (ms : List Metadata) (n : Nombre)
    → Existe ms n
    → Existe (guardar_metadata d ms) n
unfolding buscar_metadata guardar_metadata
Existe-guardar_metadata d [] n e = e
Existe-guardar_metadata d (m ∷ ms) n (x, e) = elim (Bool-cases (igual m.nombre d.nombre)) [
  | inl y ↦ rw y (elim (Bool-cases (igual d.nombre n)) [
    | inl v ↦ (d, rw v refl)
    | inr f ↦
        let g : igual m.nombre n ≡ false = ap (λ z. igual z n) (igual→≡ m.nombre d.nombre y) ∙ f in
        let h = subst (λ t. (if t then some m else buscar_metadata n ms) ≡ some x) g e in
        (x, rw f h)
  ])
  | inr f ↦ rw f (elim (Bool-cases (igual m.nombre n)) [
    | inl v ↦ (m, rw v refl)
    | inr g ↦
        let h = subst (λ t. (if t then some m else buscar_metadata n ms) ≡ some x) g e in
        let ih = Existe-guardar_metadata d ms n (x, h) in (ih.0, rw g ih.1)
  ])
]

ConMetadata-guardar_metadata :
    (d : Metadata) (ms : List Metadata) (ls : List ArchivosMetadata)
    → ConMetadata ms ls
    → ConMetadata (guardar_metadata d ms) ls
unfolding ConMetadata
ConMetadata-guardar_metadata d ms [] c = tt
ConMetadata-guardar_metadata d ms (a ∷ ls) (e, c) =
    (Existe-guardar_metadata d ms a.nombre_archivo_dialfs e, ConMetadata-guardar_metadata d ms ls c)

ConMetadata-cambiar :
    (i j : ℕ) (ms : List Metadata) (ls : List ArchivosMetadata)
    → ConMetadata ms ls
    → ConMetadata ms (cambiar_bloque_inicial i j ls)
unfolding ConMetadata cambiar_bloque_inicial
ConMetadata-cambiar i j ms [] c = tt
ConMetadata-cambiar i j ms (a ∷ ls) (e, c) = elim (Bool-cases (a.bloque_inicial == i)) [
  | inl y ↦ rw y (e, c)
  | inr n ↦ rw n (e, ConMetadata-cambiar i j ms ls c)
]

ConMetadata-buscar :
    (i : ℕ) (ms : List Metadata) (ls : List ArchivosMetadata) (a : ArchivosMetadata)
    → ConMetadata ms ls
    → buscar_por_bloque_inicial i ls ≡ some a
    → Existe ms a.nombre_archivo_dialfs
unfolding ConMetadata buscar_por_bloque_inicial
ConMetadata-buscar i ms [] a c h = absurd cc
ConMetadata-buscar i ms (x ∷ ls) a (e, c) h = elim (Bool-cases (x.bloque_inicial == i)) [
  | inl y ↦
      let t = subst (λ z. (if z then some x else buscar_por_bloque_inicial i ls) ≡ some a) y h in
      let q : x ≡ a = cc in subst (λ z. Existe ms z.nombre_archivo_dialfs) q e
  | inr n ↦
      let t = subst (λ z. (if z then some x else buscar_por_bloque_inicial i ls) ≡ some a) n h in
      ConMetadata-buscar i ms ls a c t
]

module _ ⦃bits : Bitarray⦄ where
  pub mover_archivo_lem :
      (usado i : ℕ) (f : Fs)
      → ConMetadata f.directorio f.lista_archivos_abierto
      → (g : Fs) × (mover_archivo usado i f ≡ some g)
        × (g.config ≡ f.config)
        × (g.bitmap_bloques ≡ f.bitmap_bloques)
        × (g.bloques_dat ≡ f.bloques_dat)
        × ConMetadata g.directorio g.lista_archivos_abierto
  unfolding mover_archivo
  mover_archivo_lem usado i f c =
      elim (Option-cases (buscar_por_bloque_inicial usado f.lista_archivos_abierto)) [
        | inl e ↦ (f, rw (e, mover_archivo) refl, refl, refl, refl, c)
        | inr (a, e) ↦
            let ex = ConMetadata-buscar usado f.directorio f.lista_archivos_abierto a c e in
            (
              record f {
                lista_archivos_abierto = cambiar_bloque_inicial usado i f.lista_archivos_abierto;
                directorio = guardar_metadata (record ex.0 { bloque_inicial = i }) f.directorio;
              },
              rw (e, mover_archivo) (rw (ex.1, ◌>>=◌) refl),
              refl,
              refl,
              refl,
              ConMetadata-guardar_metadata _ f.directorio _
                  (ConMetadata-cambiar usado i f.directorio f.lista_archivos_abierto c),
            )
      ]
