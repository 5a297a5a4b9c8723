-- ===== src/Buffer.antt =====
-- utils/src/utils/buffer.c: the buffer that every message between the modules is packed in.
-- `none` is an access outside the stream. A `t_sbuffer` is a byte list with its size and offset;
-- the numbers are copied as little-endian bytes.
pub mod Lectura
pub mod Campos
pub mod Paquete
pub mod Registros
mod Tests
use tp_2024_1c_pccsc.Common.{
  ℕ, ◌+◌, ◌%◌, ◌^◌, Option, none, some, List, [], ◌∷◌, ◌++◌, length, take, drop, replicate, ltb,
  if◌then◌else◌, ◌>>=◌,
}
use tp_2024_1c_pccsc.Common.Bytes.{copiar_a, copiar_de, bytes_uint32, valor_uint32}

-- `uint32_t` addition
abbrev pub add_uint32 : ℕ → ℕ → ℕ
add_uint32 a b = (a + b) % 2 ^ 32

pub record Sbuffer : Type 0 where
  pub size : ℕ
  pub offset : ℕ
  pub stream : List ℕ

unfoldable pub buffer_create : ℕ → Sbuffer
buffer_create size = record { size = size; offset = 0; stream = replicate size 0 }

unfoldable pub buffer_add : Sbuffer → List ℕ → Option Sbuffer
buffer_add b datos = do
  s ← copiar_a b.stream b.offset datos
  some (record b { stream = s; offset = add_uint32 b.offset (length datos) })

unfoldable pub buffer_read : Sbuffer → ℕ → Option (List ℕ × Sbuffer)
buffer_read b n = do
  d ← copiar_de b.stream b.offset n
  some (d, record b { offset = add_uint32 b.offset n })

-- An `int` and a `uint32_t` are the same four bytes; an `int` stands by its bit pattern.
unfoldable pub buffer_add_int : Sbuffer → ℕ → Option Sbuffer
buffer_add_int b x = buffer_add b (bytes_uint32 x)

unfoldable pub buffer_read_int : Sbuffer → Option (ℕ × Sbuffer)
buffer_read_int b = do r ← buffer_read b 4; some (valor_uint32 r.0, r.1)

unfoldable pub buffer_add_uint32 : Sbuffer → ℕ → Option Sbuffer
buffer_add_uint32 b x = buffer_add b (bytes_uint32 x)

unfoldable pub buffer_read_uint32 : Sbuffer → Option (ℕ × Sbuffer)
buffer_read_uint32 b = do r ← buffer_read b 4; some (valor_uint32 r.0, r.1)

unfoldable pub buffer_add_uint8 : Sbuffer → ℕ → Option Sbuffer
buffer_add_uint8 b x = buffer_add b (x % 256 ∷ [])

unfoldable pub valor_uint8 : List ℕ → ℕ
valor_uint8 (a ∷ _) = a
valor_uint8 [] = 0

unfoldable pub buffer_read_uint8 : Sbuffer → Option (ℕ × Sbuffer)
buffer_read_uint8 b = do r ← buffer_read b 1; some (valor_uint8 r.0, r.1)

-- A string goes without its final zero; `string` is its characters.
unfoldable pub buffer_add_string : Sbuffer → List ℕ → Option Sbuffer
buffer_add_string b string = do b' ← buffer_add_uint32 b (length string); buffer_add b' string

unfoldable pub buffer_read_string : Sbuffer → Option (List ℕ × Sbuffer)
buffer_read_string b = do r ← buffer_read_uint32 b; buffer_read r.1 r.0

unfoldable pub buffer_add_void : Sbuffer → List ℕ → Option Sbuffer
buffer_add_void b datos = do b' ← buffer_add_uint32 b (length datos); buffer_add b' datos

unfoldable pub buffer_read_void : Sbuffer → Option (List ℕ × Sbuffer)
buffer_read_void b = do r ← buffer_read_uint32 b; buffer_read r.1 r.0

-- The whole stream of `src` is copied, `src->size` bytes of it.
unfoldable pub buffer_add_buffer : Sbuffer → Sbuffer → Option Sbuffer
buffer_add_buffer dest src = do
  b' ← buffer_add_uint32 dest src.size
  d ← copiar_de src.stream 0 src.size
  buffer_add b' d

pub buffer_read_buffer : Sbuffer → Option (Sbuffer × Sbuffer)
buffer_read_buffer b = do
  r ← buffer_read_uint32 b
  d ← buffer_read r.1 r.0
  some (record (buffer_create r.0) { stream = d.0 }, d.1)

-- `t_registros_cpu`, with the registers in the order of the source.
pub record RegistrosCpu : Type 0 where
  pub pc : ℕ
  pub ax : ℕ
  pub bx : ℕ
  pub cx : ℕ
  pub dx : ℕ
  pub eax : ℕ
  pub ebx : ℕ
  pub ecx : ℕ
  pub edx : ℕ
  pub si : ℕ
  pub di : ℕ

unfoldable pub buffer_add_registros : Sbuffer → RegistrosCpu → Option Sbuffer
buffer_add_registros b r = do
  b ← buffer_add_uint32 b r.pc
  b ← buffer_add_uint8 b r.ax
  b ← buffer_add_uint8 b r.bx
  b ← buffer_add_uint8 b r.cx
  b ← buffer_add_uint8 b r.dx
  b ← buffer_add_uint32 b r.eax
  b ← buffer_add_uint32 b r.ebx
  b ← buffer_add_uint32 b r.ecx
  b ← buffer_add_uint32 b r.edx
  b ← buffer_add_uint32 b r.si
  buffer_add_uint32 b r.di

unfoldable pub buffer_read_registros : Sbuffer → Option (RegistrosCpu × Sbuffer)
buffer_read_registros b = do
  pc ← buffer_read_uint32 b
  ax ← buffer_read_uint8 pc.1
  bx ← buffer_read_uint8 ax.1
  cx ← buffer_read_uint8 bx.1
  dx ← buffer_read_uint8 cx.1
  eax ← buffer_read_uint32 dx.1
  ebx ← buffer_read_uint32 eax.1
  ecx ← buffer_read_uint32 ebx.1
  edx ← buffer_read_uint32 ecx.1
  si ← buffer_read_uint32 edx.1
  di ← buffer_read_uint32 si.1
  some (
    record {
      pc = pc.0;
      ax = ax.0;
      bx = bx.0;
      cx = cx.0;
      dx = dx.0;
      eax = eax.0;
      ebx = ebx.0;
      ecx = ecx.0;
      edx = edx.0;
      si = si.0;
      di = di.0;
    },
    di.1,
  )

-- The bytes that `cargar_paquete` sends: operation code, size and stream.
unfoldable pub cargar_paquete : ℕ → Sbuffer → List ℕ
cargar_paquete codigo_operacion b =
    bytes_uint32 codigo_operacion ++ (bytes_uint32 b.size ++ b.stream)

-- `recv` with MSG_WAITALL of `n` bytes: those of the connection, and what is left of it. A
-- connection that ends before is `none`.
unfoldable pub recv : ℕ → List ℕ → Option (List ℕ × List ℕ)
recv n s = if ltb (length s) n then none else some (take n s, drop n s)

unfoldable pub recibir_operacion : List ℕ → Option (ℕ × List ℕ)
unfolding recv
recibir_operacion s = do r ← recv 4 s; some (valor_uint32 r.0, r.1)

unfoldable pub cargar_buffer : List ℕ → Option (Sbuffer × List ℕ)
unfolding recv
cargar_buffer s = do
  r ← recv 4 s
  d ← recv (valor_uint32 r.0) r.1
  some (record { size = valor_uint32 r.0; offset = 0; stream = d.0 }, d.1)
