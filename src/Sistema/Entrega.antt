-- ===== src/Sistema/Entrega.antt =====
-- Messages between the modules: packed by one, delivered, and read by the other up to their requests.
use tp_2024_1c_pccsc.Common.{
  ℕ, ◌+◌, ◌^◌, ◌<◌, some, List, [], ◌∷◌, ◌++◌, ◌≡◌, refl, sym, ◌∙◌, ap, subst, arith, length,
  append-nil, ◌>>=◌, >>=-eq-some,
}
use tp_2024_1c_pccsc.Buffer.{
  Sbuffer, buffer_create, buffer_add_uint32, buffer_add_int, buffer_read_int, buffer_read_uint32,
  cargar_paquete, recibir_operacion,
}
use tp_2024_1c_pccsc.Buffer.Lectura.{Escrito, Pendiente, buffer_create-Escrito}
use tp_2024_1c_pccsc.Buffer.Campos.{
  Campo, entero, bytes_campos, tamanio_campos, agregar_campo, agregar_campos,
  agregar_campos-Escrito, length-bytes_campos,
}
use tp_2024_1c_pccsc.Buffer.Paquete.{recibir-cargar_paquete}
use tp_2024_1c_pccsc.Sistema.{entregar}
use tp_2024_1c_pccsc.Sistema.Mensajes.{leer_entero}

-- A message packed whole and delivered: the reader has all its fields before it.
pub entregar-Escrito :
    (op : ℕ) (cs : List Campo) (b : Sbuffer)
    → op < 2 ^ 32
    → Escrito (tamanio_campos cs) (bytes_campos cs) b
    → (b' : Sbuffer) × (entregar op b ≡ some b') × Pendiente (bytes_campos cs ++ []) b'
unfolding entregar
entregar-Escrito op cs b h v =
    let n = tamanio_campos cs in
    let l = length-bytes_campos cs in
    let (r, op_r, buf_r) = recibir-cargar_paquete op n (bytes_campos cs) [] b h v l in
    let op_r' : recibir_operacion (cargar_paquete op b) ≡ some (op, r) =
      ap recibir_operacion (sym (append-nil (cargar_paquete op b))) ∙ op_r in
    (
      record { size = n; offset = 0; stream = bytes_campos cs },
      rw (op_r', ◌>>=◌) (rw (buf_r, ◌>>=◌) refl),
      record {
        acotado = omega (arith, v.acotado);
        posicion = omega (arith, ap length (append-nil (bytes_campos cs)));
        contenido = sym (append-nil (bytes_campos cs));
      },
    )

-- The number of process and the number of requests that begin a message to memory.
pub record Empaquetado (pid k : ℕ) (cs : List Campo) (b : Sbuffer) : Type 0 where
  pub vacio : ℕ
  pub primero : Sbuffer
  pub segundo : Sbuffer
  pub tamanio : vacio ≡ 8 + tamanio_campos cs
  pub con_pid : buffer_add_uint32 (buffer_create vacio) pid ≡ some primero
  pub con_cantidad : buffer_add_int primero k ≡ some segundo
  pub con_campos : agregar_campos segundo cs ≡ some b
  pub escrito : Escrito (8 + tamanio_campos cs) (bytes_campos (entero pid ∷ entero k ∷ cs)) b

pub empaquetar :
    (pid k : ℕ) (cs : List Campo)
    → 8 + tamanio_campos cs < 2 ^ 32
    → (b : Sbuffer) × Empaquetado pid k cs b
unfolding agregar_campos agregar_campo buffer_add_int buffer_add_uint32
empaquetar pid k cs h =
    let fs = entero pid ∷ entero k ∷ cs in
    let n = 8 + tamanio_campos cs in
    let (b, run, v) =
      agregar_campos-Escrito n fs [] (buffer_create n) (buffer_create-Escrito n h) (omega arith) in
    let (b1, e1, run1) = >>=-eq-some (buffer_add_uint32 (buffer_create n) pid) _ run in
    let (b2, e2, run2) = >>=-eq-some (buffer_add_uint32 b1 k) _ run1 in
    (
      b,
      record {
        vacio = n;
        primero = b1;
        segundo = b2;
        tamanio = refl;
        con_pid = e1;
        con_cantidad = e2;
        con_campos = run2;
        escrito = v;
      },
    )

-- The reader of such a message: both numbers, and the fields still to read.
pub leer_cabecera :
    (op pid k : ℕ) (cs : List Campo) (b : Sbuffer)
    → op < 2 ^ 32
    → pid < 2 ^ 32
    → k < 2 ^ 32
    → Escrito (8 + tamanio_campos cs) (bytes_campos (entero pid ∷ entero k ∷ cs)) b
    → (b0 : Sbuffer) × (b1 : Sbuffer) × (b2 : Sbuffer) × (entregar op b ≡ some b0)
      × (buffer_read_uint32 b0 ≡ some (pid, b1))
      × (buffer_read_int b1 ≡ some (k, b2))
      × Pendiente (bytes_campos cs ++ []) b2
unfolding buffer_read_int buffer_read_uint32
leer_cabecera op pid k cs b ho hp hk v =
    let fs = entero pid ∷ entero k ∷ cs in
    let v' =
      subst (λ n. Escrito n (bytes_campos fs) b)
        (let z : 8 + tamanio_campos cs ≡ tamanio_campos fs = omega arith in z) v in
    let (b0, e0, p0) = entregar-Escrito op fs b ho v' in
    let (b1, e1, p1) = leer_entero pid (entero k ∷ cs) [] b0 hp p0 in
    let (b2, e2, p2) = leer_entero k cs [] b1 hk p1 in (b0, b1, b2, e0, e1, e2, p2)
