-- ===== src/Buffer/Paquete.antt =====
-- A message sent by `cargar_paquete` and received by `recibir_operacion` and `cargar_buffer`.
use tp_2024_1c_pccsc.Common.{
  ℕ, ◌+◌, ◌^◌, ◌<◌, Option, some, List, [], ◌++◌, ◌≡◌, refl, sym, ◌∙◌, ap, arith, length, take,
  drop, length-append, ◌>>=◌, append_assoc, append-nil, ge→ltb,
}
use tp_2024_1c_pccsc.Common.Bytes.{
  take-length, drop-append_right, bytes_uint32, valor_uint32, length-bytes_uint32,
  valor-bytes_uint32,
}
use tp_2024_1c_pccsc.Buffer.{
  Sbuffer, buffer_create, cargar_paquete, recv, recibir_operacion, cargar_buffer,
}
use tp_2024_1c_pccsc.Buffer.Lectura.{Escrito, Pendiente, buffer_create-Escrito, Escrito-stream}
use tp_2024_1c_pccsc.Buffer.Campos.{
  Campo, Forma, formas, EnRango, bytes_campos, tamanio_campos, agregar_campos, leer_campos,
  length-bytes_campos, agregar_campos-Escrito, leer_campos-Pendiente,
}

recv-append : (d resto : List ℕ) (n : ℕ) → length d ≡ n → recv n (d ++ resto) ≡ some (d, resto)
unfolding recv
recv-append d resto n e =
    let l = length-append d resto in
    let t : take n (d ++ resto) ≡ d = rw (sym e) (take-length d resto) in
    let r : drop n (d ++ resto) ≡ resto =
      ap (λ k. drop k (d ++ resto)) (let z : n ≡ length d + 0 = omega arith in z)
      ∙ drop-append_right d resto 0 in
    rw (ge→ltb (length (d ++ resto)) n (omega arith)) (rw (t, r) refl)

-- A packet sent is received whole, and what follows on the connection is untouched.
pub recibir-cargar_paquete :
    (op n : ℕ) (pre resto : List ℕ) (b : Sbuffer)
    → op < 2 ^ 32
    → Escrito n pre b
    → length pre ≡ n
    → (r : List ℕ) × (recibir_operacion (cargar_paquete op b ++ resto) ≡ some (op, r))
      × (cargar_buffer r ≡ some (record { size = n; offset = 0; stream = pre }, resto))
unfolding recibir_operacion cargar_buffer cargar_paquete
recibir-cargar_paquete op n pre resto b h v lleno =
    let c = bytes_uint32 b.size in
    let r = c ++ (pre ++ resto) in
    let s = Escrito-stream n pre b v lleno in
    let valor : valor_uint32 c ≡ n =
      valor-bytes_uint32 b.size (omega (arith, v.acotado, v.tamanio)) ∙ v.tamanio in
    let env : (bytes_uint32 op ++ (c ++ b.stream)) ++ resto ≡ bytes_uint32 op ++ r = rw s (
      append_assoc (bytes_uint32 op) (c ++ pre) resto
      ∙ ap (◌++◌ (bytes_uint32 op)) (append_assoc c pre resto)) in
    (
      r,
      rw env (
          rw (recv-append (bytes_uint32 op) r 4 (length-bytes_uint32 op), ◌>>=◌)
            (ap (λ x. some (x, r)) (valor-bytes_uint32 op h))),
      rw (recv-append c (pre ++ resto) 4 (length-bytes_uint32 b.size), ◌>>=◌)
          (rw valor (rw (recv-append pre resto n lleno, ◌>>=◌) refl)),
    )

-- Receiving a message of a known form: its operation code and its fields.
pub recibir : List Forma → List ℕ → Option (ℕ × List Campo × List ℕ)
recibir fs s = do
  op ← recibir_operacion s
  b ← cargar_buffer op.1
  r ← leer_campos b.0 fs
  some (op.0, r.0, b.1)

-- Any message whose fields fit their C types, packed in a buffer created with the size of its
-- fields and sent, is received with the same operation code and the same fields, and the bytes that
-- follow it on the connection are left for the next message.
pub recibir-enviar :
    (op : ℕ) (cs : List Campo) (resto : List ℕ)
    → op < 2 ^ 32
    → EnRango cs
    → tamanio_campos cs < 2 ^ 32
    → (b : Sbuffer) × (agregar_campos (buffer_create (tamanio_campos cs)) cs ≡ some b)
      × (recibir (formas cs) (cargar_paquete op b ++ resto) ≡ some (op, cs, resto))
unfolding recibir
recibir-enviar op cs resto ho hc hn =
    let n = tamanio_campos cs in
    let (b, run, v) =
      agregar_campos-Escrito n cs [] (buffer_create n) (buffer_create-Escrito n hn) (omega arith) in
    let l = length-bytes_campos cs in
    let (r, op_r, buf_r) = recibir-cargar_paquete op n (bytes_campos cs) resto b ho v l in
    let p : Pendiente (bytes_campos cs ++ [])
        (record { size = n; offset = 0; stream = bytes_campos cs }) =
      record {
        acotado = omega arith;
        posicion = omega (arith, ap length (append-nil (bytes_campos cs)));
        contenido = sym (append-nil (bytes_campos cs));
      } in
    let (b', leer, _) = leer_campos-Pendiente cs [] _ hc p in
    (b, run, rw (op_r, ◌>>=◌) (rw (buf_r, ◌>>=◌) (rw (leer, ◌>>=◌) refl)))
