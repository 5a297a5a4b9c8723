-- ===== src/Buffer/Registros.antt =====
-- The context of a process, `t_registros_cpu`, in a buffer.
use tp_2024_1c_pccsc.Common.{
  ℕ, ◌+◌, ◌^◌, ◌≤◌, ◌<◌, Option, none, some, List, [], ◌∷◌, ◌++◌, ◌≡◌, refl, sym, ◌∙◌, arith,
  length, ◌>>=◌, append_assoc, subst,
}
use tp_2024_1c_pccsc.Common.Bytes.{bytes_uint32}
use tp_2024_1c_pccsc.Buffer.{
  Sbuffer, RegistrosCpu, buffer_read_uint32, buffer_read_uint8, buffer_add_registros,
  buffer_read_registros,
}
use tp_2024_1c_pccsc.Buffer.Lectura.{
  Escrito, Pendiente, buffer_read_uint32-Pendiente, buffer_read_uint8-Pendiente,
}
use tp_2024_1c_pccsc.Buffer.Campos.{
  Campo, entero, octeto, EnRango, bytes_campos, agregar_campo, agregar_campos,
  agregar_campos-Escrito,
}

-- The context of a process as fields.
abbrev pub campos_registros : RegistrosCpu → List Campo
campos_registros r =
    entero r.pc
    ∷ octeto r.ax
    ∷ octeto r.bx
    ∷ octeto r.cx
    ∷ octeto r.dx
    ∷ entero r.eax
    ∷ entero r.ebx
    ∷ entero r.ecx
    ∷ entero r.edx
    ∷ entero r.si
    ∷ entero r.di
    ∷ []

bind-some : (m : Option Sbuffer) → (m >>= λ b. some b) ≡ m
bind-some none = refl
bind-some (some b) = refl

pub agregar-registros :
    (b : Sbuffer) (r : RegistrosCpu)
    → agregar_campos b (campos_registros r) ≡ buffer_add_registros b r
unfolding agregar_campos agregar_campo buffer_add_registros
agregar-registros b r = simp bind-some

paso32 :
    (x : ℕ) (cs : List Campo) (resto : List ℕ) (b : Sbuffer)
    → x < 2 ^ 32
    → Pendiente (bytes_campos (entero x ∷ cs) ++ resto) b
    → (b' : Sbuffer) × (buffer_read_uint32 b ≡ some (x, b'))
      × Pendiente (bytes_campos cs ++ resto) b'
paso32 x cs resto b h v =
    buffer_read_uint32-Pendiente x (bytes_campos cs ++ resto) b h
      (subst (λ l. Pendiente l b) (append_assoc (bytes_uint32 x) (bytes_campos cs) resto) v)

paso8 :
    (x : ℕ) (cs : List Campo) (resto : List ℕ) (b : Sbuffer)
    → x < 256
    → Pendiente (bytes_campos (octeto x ∷ cs) ++ resto) b
    → (b' : Sbuffer) × (buffer_read_uint8 b ≡ some (x, b'))
      × Pendiente (bytes_campos cs ++ resto) b'
paso8 x cs resto b h v = buffer_read_uint8-Pendiente x (bytes_campos cs ++ resto) b h v

-- The context read from where it stands.
leer_registros :
    (r : RegistrosCpu) (resto : List ℕ) (c : Sbuffer)
    → EnRango (campos_registros r)
    → Pendiente (bytes_campos (campos_registros r) ++ resto) c
    → (c' : Sbuffer) × (buffer_read_registros c ≡ some (r, c')) × Pendiente resto c'
unfolding buffer_read_registros
leer_registros r resto c h p =
    let (c0, e0, p0) =
      paso32 r.pc
        (octeto r.ax
          ∷ octeto r.bx
          ∷ octeto r.cx
          ∷ octeto r.dx
          ∷ entero r.eax
          ∷ entero r.ebx
          ∷ entero r.ecx
          ∷ entero r.edx
          ∷ entero r.si
          ∷ entero r.di
          ∷ [])
        resto c (h.0) p in
    let (c1, e1, p1) =
      paso8 r.ax
        (octeto r.bx
          ∷ octeto r.cx
          ∷ octeto r.dx
          ∷ entero r.eax
          ∷ entero r.ebx
          ∷ entero r.ecx
          ∷ entero r.edx
          ∷ entero r.si
          ∷ entero r.di
          ∷ [])
        resto c0 (h.1.0) p0 in
    let (c2, e2, p2) =
      paso8 r.bx
        (octeto r.cx
          ∷ octeto r.dx
          ∷ entero r.eax
          ∷ entero r.ebx
          ∷ entero r.ecx
          ∷ entero r.edx
          ∷ entero r.si
          ∷ entero r.di
          ∷ [])
        resto c1 (h.1.1.0) p1 in
    let (c3, e3, p3) =
      paso8 r.cx
        (octeto r.dx
          ∷ entero r.eax
          ∷ entero r.ebx
          ∷ entero r.ecx
          ∷ entero r.edx
          ∷ entero r.si
          ∷ entero r.di
          ∷ [])
        resto c2 (h.1.1.1.0) p2 in
    let (c4, e4, p4) =
      paso8 r.dx
        (entero r.eax ∷ entero r.ebx ∷ entero r.ecx ∷ entero r.edx ∷ entero r.si ∷ entero r.di ∷ [])
        resto c3 (h.1.1.1.1.0) p3 in
    let (c5, e5, p5) =
      paso32 r.eax (entero r.ebx ∷ entero r.ecx ∷ entero r.edx ∷ entero r.si ∷ entero r.di ∷ [])
        resto c4 (h.1.1.1.1.1.0) p4 in
    let (c6, e6, p6) =
      paso32 r.ebx (entero r.ecx ∷ entero r.edx ∷ entero r.si ∷ entero r.di ∷ []) resto c5
        (h.1.1.1.1.1.1.0) p5 in
    let (c7, e7, p7) =
      paso32 r.ecx (entero r.edx ∷ entero r.si ∷ entero r.di ∷ []) resto c6 (h.1.1.1.1.1.1.1.0)
        p6 in
    let (c8, e8, p8) =
      paso32 r.edx (entero r.si ∷ entero r.di ∷ []) resto c7 (h.1.1.1.1.1.1.1.1.0) p7 in
    let (c9, e9, p9) = paso32 r.si (entero r.di ∷ []) resto c8 (h.1.1.1.1.1.1.1.1.1.0) p8 in
    let (c10, e10, p10) = paso32 r.di ([]) resto c9 (h.1.1.1.1.1.1.1.1.1.1.0) p9 in
    (
      c10,
      rw (e0, ◌>>=◌)
          (rw (e1, ◌>>=◌)
            (rw (e2, ◌>>=◌)
              (rw (e3, ◌>>=◌)
                (rw (e4, ◌>>=◌)
                  (rw (e5, ◌>>=◌)
                    (rw (e6, ◌>>=◌)
                      (rw (e7, ◌>>=◌)
                        (rw (e8, ◌>>=◌) (rw (e9, ◌>>=◌) (rw (e10, ◌>>=◌) refl)))))))))),
      p10,
    )

-- Registers written into a buffer of at least 32 free bytes are read back unchanged from the
-- place where they were written, whatever follows them.
pub registros_ida_vuelta :
    (r : RegistrosCpu) (n : ℕ) (pre resto : List ℕ) (b c : Sbuffer)
    → EnRango (campos_registros r)
    → Escrito n pre b
    → length pre + 32 ≤ n
    → Pendiente (bytes_campos (campos_registros r) ++ resto) c
    → (b' : Sbuffer) × (c' : Sbuffer) × (buffer_add_registros b r ≡ some b')
      × Escrito n (pre ++ bytes_campos (campos_registros r)) b'
      × (buffer_read_registros c ≡ some (r, c'))
      × Pendiente resto c'
unfolding buffer_add_registros buffer_read_registros
registros_ida_vuelta r n pre resto b c hr v h p =
    let (b', escribe, v') = agregar_campos-Escrito n (campos_registros r) pre b v (omega arith) in
    let (c', lee, p') = leer_registros r resto c hr p in
    (b', c', sym (agregar-registros b r) ∙ escribe, v', lee, p')
