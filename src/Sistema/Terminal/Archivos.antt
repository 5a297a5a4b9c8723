-- ===== src/Sistema/Terminal/Archivos.antt =====
-- The request that IO_FS_WRITE prepares for memory.
use tp_2024_1c_pccsc.Common.{
  ℕ, zero, suc, ◌+◌, ◌-◌, ◌%◌, ◌^◌, ◌≤◌, ◌<◌, some, List, [], ◌∷◌, ◌++◌, ◌≡◌, refl, ◌∙◌, ap, arith,
  length, length-append, take, drop, append-nil, ◌>>=◌,
}
use tp_2024_1c_pccsc.Common.Bytes.{copiar_de, copiar_de-fits}
use tp_2024_1c_pccsc.Buffer.{Sbuffer, buffer_create, buffer_read_string, buffer_read_void}
use tp_2024_1c_pccsc.Buffer.Lectura.{Pendiente}
use tp_2024_1c_pccsc.Buffer.Campos.{
  Campo, entero, cadena, EnRango, bytes_campos, tamanio_campos, length-bytes_campos,
}
use tp_2024_1c_pccsc.Sistema.Mensajes.{leer_entero, leer_cadena}
use tp_2024_1c_pccsc.Sistema.Terminal.{preparar_fs_write}

drop-append : (n : ℕ) (xs ys : List ℕ) → n ≤ length xs → drop n (xs ++ ys) ≡ drop n xs ++ ys
drop-append zero xs ys h = refl
drop-append (suc n) [] ys h = absurd (omega arith)
drop-append (suc n) (x ∷ xs) ys h = drop-append n xs ys (omega arith)

take-detras : (xs ys : List ℕ) (k : ℕ) → take (length xs + k) (xs ++ ys) ≡ xs ++ take k ys
take-detras [] ys k = ap (λ n. take n ys) (let z : 0 + k ≡ k = omega arith in z)
take-detras (x ∷ xs) ys k =
    ap (λ n. take n (x ∷ (xs ++ ys)))
      (let z : suc (length xs) + k ≡ suc (length xs + k) = omega arith in z)
    ∙ ap (◌∷◌ x) (take-detras xs ys k)

-- A copy of more bytes than are left goes on over those behind.
copiar_de_mas :
    (resto detras : List ℕ) (k : ℕ) (b : Sbuffer)
    → Pendiente resto b
    → k ≤ length detras
    → copiar_de (b.stream ++ detras) b.offset (length resto + k) ≡ some (resto ++ take k detras)
copiar_de_mas resto detras k b v h =
    copiar_de-fits (b.stream ++ detras) b.offset (length resto + k)
      (omega (arith, v.posicion, length-append b.stream detras))
    ∙ ap (λ d. some (take (length resto + k) d))
        (drop-append b.offset b.stream detras (omega (arith, v.posicion))
          ∙ ap (λ d. d ++ detras) v.contenido)
    ∙ ap some (take-detras resto detras k)

leer_nombre :
    (s : List ℕ) (cs : List Campo) (b : Sbuffer)
    → length s < 2 ^ 32
    → Pendiente (bytes_campos (cadena s ∷ cs) ++ []) b
    → (b' : Sbuffer) × (buffer_read_string b ≡ some (s, b')) × Pendiente (bytes_campos cs ++ []) b'
unfolding buffer_read_string buffer_read_void
leer_nombre s cs b h v = leer_cadena s cs [] b h v

-- A whole message of IO_FS_WRITE, with a name, a size, an offset, the length of the buffer of `mmu`, the
-- process and the fields behind it: the request prepared for memory holds the process and those
-- fields, as it should, and behind them as many bytes more as the name is long and eight, from
-- whatever stands in memory behind the message.
pub preparar_fs_write_lem :
    (nombre detras : List ℕ) (s o t pid : ℕ) (cs : List Campo) (b : Sbuffer)
    → EnRango (cadena nombre ∷ entero s ∷ entero o ∷ entero t ∷ entero pid ∷ [])
    → Pendiente
        (bytes_campos (cadena nombre ∷ entero s ∷ entero o ∷ entero t ∷ entero pid ∷ cs) ++ [])
        b
    → b.offset ≡ 0
    → b.size ≡ length b.stream
    → length nombre + 8 ≤ length detras
    → (r : Sbuffer) × (preparar_fs_write detras b ≡ some (nombre, s, o, pid, r))
      × (r.stream ≡ bytes_campos (entero pid ∷ cs) ++ take (length nombre + 8) detras)
      × (r.size ≡ tamanio_campos (entero pid ∷ cs) + (length nombre + 8))
unfolding preparar_fs_write buffer_create
preparar_fs_write_lem nombre detras s o t pid cs b r v z l h =
    let ps = entero pid ∷ cs in
    let fs = cadena nombre ∷ entero s ∷ entero o ∷ entero t ∷ ps in
    let nuevo = (b.size + 2 ^ 32 - 8) % 2 ^ 32 in
    let (b1, e1, v1) = leer_nombre nombre (entero s ∷ entero o ∷ entero t ∷ ps) b r.0 v in
    let (b2, e2, v2) = leer_entero s (entero o ∷ entero t ∷ ps) [] b1 r.1.0 v1 in
    let (b3, e3, v3) = leer_entero o (entero t ∷ ps) [] b2 r.1.1.0 v2 in
    let (b4, e4, v4) = leer_entero t ps [] b3 r.1.1.1.0 v3 in
    let (b5, e5, v5) = leer_entero pid cs [] b4 r.1.1.1.1.0 v4 in
    let largo : length (bytes_campos ps ++ []) ≡ tamanio_campos ps =
      ap length (append-nil (bytes_campos ps)) ∙ length-bytes_campos ps in
    let total : length (bytes_campos fs ++ []) ≡ tamanio_campos fs =
      ap length (append-nil (bytes_campos fs)) ∙ length-bytes_campos fs in
    let mas : nuevo ≡ length (bytes_campos ps ++ []) + (length nombre + 8) =
      omega (arith, v.posicion, v.acotado, largo, total) in
    let copia =
      ap (copiar_de (b4.stream ++ detras) b4.offset) mas
      ∙ copiar_de_mas (bytes_campos ps ++ []) detras (length nombre + 8) b4 v4 h in
    (
      record {
        size = nuevo;
        offset = 0;
        stream = (bytes_campos ps ++ []) ++ take (length nombre + 8) detras;
      },
      rw (e1, ◌>>=◌)
          (rw (e2, ◌>>=◌)
            (rw (e3, ◌>>=◌) (rw (e4, ◌>>=◌) (rw (e5, ◌>>=◌) (rw (copia, ◌>>=◌) refl))))),
      ap (λ d. d ++ take (length nombre + 8) detras) (append-nil (bytes_campos ps)),
      omega (arith, mas, largo),
    )
