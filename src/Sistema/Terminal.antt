-- ===== src/Sistema/Terminal.antt =====
-- The interfaces STDIN and STDOUT of entradasalida/src/main.c, with memory at the other end.
pub mod Entrada
pub mod Salida
pub mod Archivos
use tp_2024_1c_pccsc.Common.{
  ℕ, zero, suc, ◌+◌, ◌-◌, ◌*◌, ◌%◌, ◌^◌, ◌||◌, Option, none, some, List, [], ◌∷◌, ◌++◌, length,
  ◌==◌, if◌then◌else◌, ◌>>=◌,
}
use tp_2024_1c_pccsc.Common.Bitarray.{Bitarray}
use tp_2024_1c_pccsc.Common.Bytes.{copiar_de}
use tp_2024_1c_pccsc.Buffer.{
  Sbuffer, add_uint32, buffer_create, buffer_add_uint32, buffer_add_int, buffer_add_void,
  buffer_read, buffer_read_string, buffer_read_uint32, buffer_read_int,
}
use tp_2024_1c_pccsc.Cpu.Lectura.{vueltas_size_t, juntar_respuesta}
use tp_2024_1c_pccsc.Memoria.{Memoria}
use tp_2024_1c_pccsc.Memoria.Espacio.{peticion_escritura, peticion_lectura}
use tp_2024_1c_pccsc.Sistema.{entregar}

-- The loop of `io_stdin_read`: the rounds left, what was typed, `bytes_enviados`, the buffer of
-- addresses and the one for memory.
unfoldable pub stdin_bucle : ℕ → List ℕ → ℕ → Sbuffer → Sbuffer → Option Sbuffer
stdin_bucle zero dato_enviar bytes_enviados direcciones b = some b
stdin_bucle (suc n) dato_enviar bytes_enviados direcciones b = do
  d ← buffer_read_uint32 direcciones
  b ← buffer_add_uint32 b d.0
  t ← buffer_read_uint32 d.1
  datos ← copiar_de dato_enviar bytes_enviados t.0
  b ← buffer_add_void b datos
  stdin_bucle n dato_enviar (add_uint32 bytes_enviados t.0) t.1 b

-- IO_FS_WRITE of an interface DIALFS, up to its request to memory: name, size, offset, process, and the
-- buffer for memory. `detras` are the bytes that stand behind the message's, over which the copy of the
-- rest of the message may run.
unfoldable pub preparar_fs_write : List ℕ → Sbuffer → Option (List ℕ × ℕ × ℕ × ℕ × Sbuffer)
preparar_fs_write detras b = do
  n ← buffer_read_string b
  s ← buffer_read_uint32 n.1
  o ← buffer_read_uint32 s.1
  t ← buffer_read_uint32 o.1
  p ← buffer_read_uint32 t.1
  let nuevo_tamanio = (b.size + 2 ^ 32 - 8) % 2 ^ 32
  d ← copiar_de (t.1.stream ++ detras) t.1.offset nuevo_tamanio
  some (n.0, s.0, o.0, p.0, record (buffer_create nuevo_tamanio) { stream = d })

-- `input[strcspn(input, "\n")] = '\0'`, on a block that has a NUL: the first byte that is a newline or NUL.
unfoldable pub sin_salto : List ℕ → List ℕ
sin_salto [] = []
sin_salto (c ∷ cs) = let resto = sin_salto cs in if c == 10 || c == 0 then 0 ∷ cs else c ∷ resto

-- What `%s` prints of a block that ends in NUL.
unfoldable pub hasta_nulo : List ℕ → List ℕ
hasta_nulo [] = []
hasta_nulo (c ∷ cs) = let resto = hasta_nulo cs in if c == 0 then [] else c ∷ resto

module _ ⦃bits : Bitarray⦄ where
  -- `input` is the block of `size + 1` bytes as `fgets` leaves it, or nothing at the end of the input.
  unfoldable pub io_stdin_read : Sbuffer → ℕ → Option (List ℕ) → Memoria → Option Memoria
  io_stdin_read direcciones size none m = do p ← buffer_read_uint32 direcciones; some m
  io_stdin_read direcciones size (some input) m = do
    p ← buffer_read_uint32 direcciones
    c ← buffer_read_int p.1
    b ← buffer_add_uint32 (buffer_create ((8 + 4 * c.0 + 4 * c.0 + size) % 2 ^ 32)) p.0
    b ← buffer_add_int b c.0
    b ← stdin_bucle (vueltas_size_t c.0) (sin_salto input) 0 c.1 b
    b ← entregar 35 b
    peticion_escritura b m

  -- What `io_stdout_write` prints of the datum. The buffer for memory is the one of addresses from the number of the
  -- process on, without the two numbers before it.
  unfoldable pub io_stdout_write : Sbuffer → ℕ → Memoria → Option (List ℕ)
  io_stdout_write direcciones size m = do
    p ← buffer_read_uint32 direcciones
    c ← buffer_read_int p.1
    let nuevo_tamanio = (direcciones.size + 2 ^ 32 - 8) % 2 ^ 32
    d ← buffer_read direcciones nuevo_tamanio
    b ← entregar 36 (record (buffer_create nuevo_tamanio) { stream = d.0 })
    datos ← peticion_lectura b m
    rta ← entregar 36 datos
    datos ← juntar_respuesta rta size
    some (hasta_nulo datos)
