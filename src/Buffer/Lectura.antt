-- ===== src/Buffer/Lectura.antt =====
-- What each operation of buffer.c does to the bytes before and behind the offset.
use tp_2024_1c_pccsc.Common.{
  ℕ, zero, suc, ◌+◌, ◌%◌, ◌^◌, ◌≤◌, ◌<◌, some, List, [], ◌∷◌, ◌++◌, ◌≡◌, refl, sym, ◌∙◌, ap, arith,
  length, take, drop, length-append, length-replicate, ◌>>=◌, append_assoc, subst,
}
use tp_2024_1c_pccsc.Common.Bytes.{
  copiar_a-fits, copiar_de-fits, length-copiado, drop-append_right, take-length, bytes_uint32,
  length-bytes_uint32, valor-bytes_uint32, drop-drop,
}
use tp_2024_1c_pccsc.Buffer.{
  Sbuffer, add_uint32, buffer_create, buffer_add, buffer_read, buffer_add_uint32,
  buffer_read_uint32, buffer_read_uint8, valor_uint8, buffer_add_string, buffer_read_string,
}

-- A buffer of `n` bytes in which `pre` has been written.
pub record Escrito (n : ℕ) (pre : List ℕ) (b : Sbuffer) : Type 0 where
  pub acotado : n < 2 ^ 32
  pub tamanio : b.size ≡ n
  pub largo : length b.stream ≡ n
  pub posicion : b.offset ≡ length pre
  pub contenido : take (length pre) b.stream ≡ pre

-- A buffer that still has `resto` to read.
pub record Pendiente (resto : List ℕ) (b : Sbuffer) : Type 0 where
  pub acotado : length b.stream < 2 ^ 32
  pub posicion : b.offset + length resto ≡ length b.stream
  pub contenido : drop b.offset b.stream ≡ resto

pub buffer_create-Escrito : (n : ℕ) → n < 2 ^ 32 → Escrito n [] (buffer_create n)
unfolding buffer_create
buffer_create-Escrito n h = record {
  acotado = h;
  tamanio = refl;
  largo = length-replicate n 0;
  posicion = refl;
  contenido = refl;
}

-- A write that fits succeeds and appends to what was written.
pub buffer_add-Escrito :
    (n : ℕ) (pre d : List ℕ) (b : Sbuffer)
    → Escrito n pre b
    → length pre + length d ≤ n
    → (b' : Sbuffer) × (buffer_add b d ≡ some b') × Escrito n (pre ++ d) b'
unfolding buffer_add
buffer_add-Escrito n pre d b v h =
    let cabe : b.offset + length d ≤ length b.stream = omega (arith, v.largo, v.posicion) in
    let s = take b.offset b.stream ++ (d ++ drop (b.offset + length d) b.stream) in
    let e : take b.offset b.stream ≡ pre = rw v.posicion v.contenido in
    let f : s ≡ (pre ++ d) ++ drop (b.offset + length d) b.stream =
      rw e (sym (append_assoc pre d _)) in
    (
      record b { stream = s; offset = add_uint32 b.offset (length d) },
      rw (copiar_a-fits b.stream b.offset d cabe, ◌>>=◌) refl,
      record {
        acotado = v.acotado;
        tamanio = v.tamanio;
        largo = length-copiado b.stream b.offset d cabe ∙ v.largo;
        posicion = omega (arith, length-append pre d, v.posicion, v.acotado);
        contenido = rw f (take-length (pre ++ d) (drop (b.offset + length d) b.stream));
      },
    )

-- Once the whole size is written the stream is what was written.
pub Escrito-stream :
    (n : ℕ) (pre : List ℕ) (b : Sbuffer) → Escrito n pre b → length pre ≡ n → b.stream ≡ pre
Escrito-stream n pre b v h =
    sym (take-todo (length pre) b.stream (omega (arith, v.largo))) ∙ v.contenido
  where
    take-todo : (k : ℕ) (t : List ℕ) → length t ≡ k → take k t ≡ t
    take-todo zero [] e = refl
    take-todo zero (x ∷ t) e = absurd (omega arith)
    take-todo (suc k) [] e = refl
    take-todo (suc k) (x ∷ t) e = ap (◌∷◌ x) (take-todo k t (omega arith))

-- A read of the next bytes.
pub buffer_read-Pendiente :
    (d resto : List ℕ) (b : Sbuffer)
    → Pendiente (d ++ resto) b
    → (b' : Sbuffer) × (buffer_read b (length d) ≡ some (d, b')) × Pendiente resto b'
unfolding buffer_read
buffer_read-Pendiente d resto b v =
    let l = length-append d resto in
    let cabe : b.offset + length d ≤ length b.stream = omega (arith, v.posicion, l) in
    let o : add_uint32 b.offset (length d) ≡ b.offset + length d = omega (arith, v.acotado) in
    let e : take (length d) (drop b.offset b.stream) ≡ d = rw v.contenido (take-length d resto) in
    let sigue : drop (b.offset + length d) b.stream ≡ resto =
      sym (drop-drop (length d) b.offset b.stream)
      ∙ ap (drop (length d)) v.contenido
      ∙ ap (λ k. drop k (d ++ resto)) (let z : length d ≡ length d + 0 = omega arith in z)
      ∙ drop-append_right d resto 0 in
    (
      record b { offset = add_uint32 b.offset (length d) },
      rw (copiar_de-fits b.stream b.offset (length d) cabe, ◌>>=◌) (rw e refl),
      record {
        acotado = v.acotado;
        posicion = omega (arith, v.posicion, l);
        contenido = rw o sigue;
      },
    )

pub buffer_read_uint32-Pendiente :
    (x : ℕ) (resto : List ℕ) (b : Sbuffer)
    → x < 2 ^ 32
    → Pendiente (bytes_uint32 x ++ resto) b
    → (b' : Sbuffer) × (buffer_read_uint32 b ≡ some (x, b')) × Pendiente resto b'
unfolding buffer_read_uint32
buffer_read_uint32-Pendiente x resto b h v =
    let (b', run, p) = buffer_read-Pendiente (bytes_uint32 x) resto b v in
    let run' : buffer_read b 4 ≡ some (bytes_uint32 x, b') =
      subst (λ k. buffer_read b k ≡ some (bytes_uint32 x, b')) (length-bytes_uint32 x) run in
    (b', rw (run', ◌>>=◌) (ap (λ y. some (y, b')) (valor-bytes_uint32 x h)), p)

pub buffer_read_uint8-Pendiente :
    (x : ℕ) (resto : List ℕ) (b : Sbuffer)
    → x < 256
    → Pendiente (x % 256 ∷ resto) b
    → (b' : Sbuffer) × (buffer_read_uint8 b ≡ some (x, b')) × Pendiente resto b'
unfolding buffer_read_uint8 valor_uint8
buffer_read_uint8-Pendiente x resto b h v =
    let (b', run, p) = buffer_read-Pendiente (x % 256 ∷ []) resto b v in
    let e : x % 256 ≡ x = omega arith in (b', rw (run, ◌>>=◌) (ap (λ y. some (y, b')) e), p)

pub buffer_add_string-Escrito :
    (n : ℕ) (pre s : List ℕ) (b : Sbuffer)
    → Escrito n pre b
    → length pre + (4 + length s) ≤ n
    → (b' : Sbuffer) × (buffer_add_string b s ≡ some b')
      × Escrito n (pre ++ (bytes_uint32 (length s) ++ s)) b'
unfolding buffer_add_string buffer_add_uint32
buffer_add_string-Escrito n pre s b v h =
    let c = bytes_uint32 (length s) in
    let z = length-bytes_uint32 (length s) in
    let (b1, run1, v1) = buffer_add-Escrito n pre c b v (omega (arith, z)) in
    let (b2, run2, v2) =
      buffer_add-Escrito n (pre ++ c) s b1 v1 (omega (arith, z, length-append pre c)) in
    (b2, rw (run1, ◌>>=◌) run2, subst (λ l. Escrito n l b2) (append_assoc pre c s) v2)

pub buffer_read_string-Pendiente :
    (s resto : List ℕ) (b : Sbuffer)
    → length s < 2 ^ 32
    → Pendiente ((bytes_uint32 (length s) ++ s) ++ resto) b
    → (b' : Sbuffer) × (buffer_read_string b ≡ some (s, b')) × Pendiente resto b'
unfolding buffer_read_string
buffer_read_string-Pendiente s resto b h v =
    let c = bytes_uint32 (length s) in
    let v' = subst (λ l. Pendiente l b) (append_assoc c s resto) v in
    let (b1, run1, v1) = buffer_read_uint32-Pendiente (length s) (s ++ resto) b h v' in
    let (b2, run2, v2) = buffer_read-Pendiente s resto b1 v1 in (b2, rw (run1, ◌>>=◌) run2, v2)
