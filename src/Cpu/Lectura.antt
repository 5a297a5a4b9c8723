-- ===== src/Cpu/Lectura.antt =====
-- The answer to PETICION_LECTURA in cpu/src/main.c: the parts that memory sends, joined.
use tp_2024_1c_pccsc.Common.{
  ℕ, zero, suc, ◌+◌, ◌-◌, ◌^◌, Option, some, List, replicate, length, ltb, if◌then◌else◌, ◌>>=◌,
}
use tp_2024_1c_pccsc.Common.Bytes.{copiar_a}
use tp_2024_1c_pccsc.Buffer.{Sbuffer, add_uint32, buffer_read_int, buffer_read_void}

-- `for (size_t i = 0; i < cantidad_peticiones; i++)`, where `cantidad_peticiones` is an `int` by its
-- bit pattern, converted to a `size_t`.
abbrev pub vueltas_size_t : ℕ → ℕ
vueltas_size_t cantidad = if ltb cantidad (2 ^ 31) then cantidad else cantidad + (2 ^ 64 - 2 ^ 32)

-- The rounds left, the buffer, `bytes_recibidos` and `peticion_completa`.
unfoldable pub juntar_bucle : ℕ → Sbuffer → ℕ → List ℕ → Option (List ℕ)
juntar_bucle zero b bytes_recibidos peticion_completa = some peticion_completa
juntar_bucle (suc n) b bytes_recibidos peticion_completa = do
  r ← buffer_read_void b
  c ← copiar_a peticion_completa bytes_recibidos r.0
  juntar_bucle n r.1 (add_uint32 bytes_recibidos (length r.0)) c

-- The block that `malloc` gives stands by zeros.
unfoldable pub juntar_respuesta : Sbuffer → ℕ → Option (List ℕ)
unfolding juntar_bucle
juntar_respuesta b bytes_a_leer = do
  c ← buffer_read_int b
  juntar_bucle (vueltas_size_t c.0) c.1 0 (replicate bytes_a_leer 0)
