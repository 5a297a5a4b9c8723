-- ===== src/Buffer/Campos.antt =====
-- A message as a sequence of fields: packed by the operations of buffer.c and read back.
use tp_2024_1c_pccsc.Common.{
  ℕ, ◌+◌, ◌%◌, ◌^◌, ◌≤◌, ◌<◌, Option, some, List, [], ◌∷◌, ◌++◌, ◌≡◌, refl, sym, arith, length,
  length-append, ◌>>=◌, append_assoc, append-nil, subst,
}
use tp_2024_1c_pccsc.Common.Bytes.{bytes_uint32, length-bytes_uint32}
use tp_2024_1c_pccsc.Buffer.{
  Sbuffer, buffer_add_uint32, buffer_read_uint32, buffer_add_uint8, buffer_read_uint8,
  buffer_add_string, buffer_read_string,
}
use tp_2024_1c_pccsc.Buffer.Lectura.{
  Escrito, Pendiente, buffer_add-Escrito, buffer_read_uint32-Pendiente, buffer_read_uint8-Pendiente,
  buffer_add_string-Escrito, buffer_read_string-Pendiente,
}

pub data Campo : Type 0 where
  entero : ℕ → Campo
  octeto : ℕ → Campo
  cadena : List ℕ → Campo

-- What the reader knows of a field: its kind.
pub data Forma : Type 0 where
  un_entero un_octeto una_cadena : Forma

abbrev pub forma : Campo → Forma
forma (entero x) = un_entero
forma (octeto x) = un_octeto
forma (cadena s) = una_cadena

abbrev pub formas : List Campo → List Forma
formas [] = []
formas (c ∷ cs) = forma c ∷ formas cs

-- The values that the C type of a field can hold.
abbrev pub EnRango : List Campo → Type 0
EnRango [] = Unit {0}
EnRango (entero x ∷ cs) = (x < 2 ^ 32) × EnRango cs
EnRango (octeto x ∷ cs) = (x < 256) × EnRango cs
EnRango (cadena s ∷ cs) = (length s < 2 ^ 32) × EnRango cs

abbrev pub bytes_campo : Campo → List ℕ
bytes_campo (entero x) = bytes_uint32 x
bytes_campo (octeto x) = x % 256 ∷ []
bytes_campo (cadena s) = bytes_uint32 (length s) ++ s

abbrev pub bytes_campos : List Campo → List ℕ
bytes_campos [] = []
bytes_campos (c ∷ cs) = bytes_campo c ++ bytes_campos cs

abbrev pub tamanio_campo : Campo → ℕ
tamanio_campo (entero x) = 4
tamanio_campo (octeto x) = 1
tamanio_campo (cadena s) = 4 + length s

-- The size that a caller passes to `buffer_create` for such a message.
abbrev pub tamanio_campos : List Campo → ℕ
tamanio_campos [] = 0
tamanio_campos (c ∷ cs) = tamanio_campo c + tamanio_campos cs

unfoldable pub agregar_campo : Sbuffer → Campo → Option Sbuffer
agregar_campo b (entero x) = buffer_add_uint32 b x
agregar_campo b (octeto x) = buffer_add_uint8 b x
agregar_campo b (cadena s) = buffer_add_string b s

unfoldable pub agregar_campos : Sbuffer → List Campo → Option Sbuffer
agregar_campos b [] = some b
agregar_campos b (c ∷ cs) = agregar_campo b c >>= λ b'. agregar_campos b' cs

pub leer_campo : Sbuffer → Forma → Option (Campo × Sbuffer)
leer_campo b un_entero = buffer_read_uint32 b >>= λ r. some (entero r.0, r.1)
leer_campo b un_octeto = buffer_read_uint8 b >>= λ r. some (octeto r.0, r.1)
leer_campo b una_cadena = buffer_read_string b >>= λ r. some (cadena r.0, r.1)

pub leer_campos : Sbuffer → List Forma → Option (List Campo × Sbuffer)
leer_campos b [] = some ([], b)
leer_campos b (f ∷ fs) =
    leer_campo b f >>= λ r. leer_campos r.1 fs >>= λ rs. some (r.0 ∷ rs.0, rs.1)

length-bytes_campo : (c : Campo) → length (bytes_campo c) ≡ tamanio_campo c
length-bytes_campo (entero x) = length-bytes_uint32 x
length-bytes_campo (octeto x) = refl
length-bytes_campo (cadena s) =
    omega (arith, length-append (bytes_uint32 (length s)) s, length-bytes_uint32 (length s))

pub length-bytes_campos : (cs : List Campo) → length (bytes_campos cs) ≡ tamanio_campos cs
length-bytes_campos [] = refl
length-bytes_campos (c ∷ cs) = omega (
  arith,
  length-append (bytes_campo c) (bytes_campos cs),
  length-bytes_campo c,
  length-bytes_campos cs,
)

agregar_campo-Escrito :
    (n : ℕ) (pre : List ℕ) (b : Sbuffer) (c : Campo)
    → Escrito n pre b
    → length pre + tamanio_campo c ≤ n
    → (b' : Sbuffer) × (agregar_campo b c ≡ some b') × Escrito n (pre ++ bytes_campo c) b'
unfolding agregar_campo buffer_add_uint32 buffer_add_uint8
agregar_campo-Escrito n pre b (entero x) v h =
    buffer_add-Escrito n pre (bytes_uint32 x) b v (omega (arith, length-bytes_uint32 x))
agregar_campo-Escrito n pre b (octeto x) v h =
    buffer_add-Escrito n pre (x % 256 ∷ []) b v (omega arith)
agregar_campo-Escrito n pre b (cadena s) v h = buffer_add_string-Escrito n pre s b v h

pub agregar_campos-Escrito :
    (n : ℕ) (cs : List Campo) (pre : List ℕ) (b : Sbuffer)
    → Escrito n pre b
    → length pre + tamanio_campos cs ≤ n
    → (b' : Sbuffer) × (agregar_campos b cs ≡ some b') × Escrito n (pre ++ bytes_campos cs) b'
unfolding agregar_campos
agregar_campos-Escrito n [] pre b v h =
    (b, refl, subst (λ l. Escrito n l b) (sym (append-nil pre)) v)
agregar_campos-Escrito n (c ∷ cs) pre b v h =
    let (b1, run1, v1) = agregar_campo-Escrito n pre b c v (omega arith) in
    let (b2, run2, v2) =
      agregar_campos-Escrito n cs (pre ++ bytes_campo c) b1 v1
        (omega (arith, length-append pre (bytes_campo c), length-bytes_campo c)) in
    (
      b2,
      rw (run1, ◌>>=◌) run2,
      subst (λ l. Escrito n l b2) (append_assoc pre (bytes_campo c) (bytes_campos cs)) v2,
    )

leer_campo-Pendiente :
    (c : Campo) (resto : List ℕ) (b : Sbuffer)
    → EnRango (c ∷ [])
    → Pendiente (bytes_campo c ++ resto) b
    → (b' : Sbuffer) × (leer_campo b (forma c) ≡ some (c, b')) × Pendiente resto b'
unfolding leer_campo
leer_campo-Pendiente (entero x) resto b h v =
    let (b', run, p) = buffer_read_uint32-Pendiente x resto b h.0 v in (b', rw (run, ◌>>=◌) refl, p)
leer_campo-Pendiente (octeto x) resto b h v =
    let (b', run, p) = buffer_read_uint8-Pendiente x resto b h.0 v in (b', rw (run, ◌>>=◌) refl, p)
leer_campo-Pendiente (cadena s) resto b h v =
    let (b', run, p) = buffer_read_string-Pendiente s resto b h.0 v in (b', rw (run, ◌>>=◌) refl, p)

EnRango-cabeza : (c : Campo) (cs : List Campo) → EnRango (c ∷ cs) → EnRango (c ∷ []) × EnRango cs
EnRango-cabeza (entero x) cs h = ((h.0, tt), h.1)
EnRango-cabeza (octeto x) cs h = ((h.0, tt), h.1)
EnRango-cabeza (cadena s) cs h = ((h.0, tt), h.1)

pub leer_campos-Pendiente :
    (cs : List Campo) (resto : List ℕ) (b : Sbuffer)
    → EnRango cs
    → Pendiente (bytes_campos cs ++ resto) b
    → (b' : Sbuffer) × (leer_campos b (formas cs) ≡ some (cs, b')) × Pendiente resto b'
unfolding leer_campos
leer_campos-Pendiente [] resto b h v = (b, refl, v)
leer_campos-Pendiente (c ∷ cs) resto b h v =
    let (hc, hs) = EnRango-cabeza c cs h in
    let v' = subst (λ l. Pendiente l b) (append_assoc (bytes_campo c) (bytes_campos cs) resto) v in
    let (b1, run1, v1) = leer_campo-Pendiente c (bytes_campos cs ++ resto) b hc v' in
    let (b2, run2, v2) = leer_campos-Pendiente cs resto b1 hs v1 in
    (b2, rw (run1, ◌>>=◌) (rw (run2, ◌>>=◌) refl), v2)
