-- ===== src/Memoria/Espacio.antt =====
-- The user space of memoria/src/main.c: reads and writes by physical address, and the two requests
-- that do them.
pub mod Accesos
use tp_2024_1c_pccsc.Common.{
  ℕ, zero, suc, ◌+◌, ◌*◌, ◌%◌, ◌^◌, Option, none, some, List, length, ltb, if◌then◌else◌, ◌>>=◌,
}
use tp_2024_1c_pccsc.Common.Bitarray.{Bitarray}
use tp_2024_1c_pccsc.Common.Bytes.{copiar_a, copiar_de}
use tp_2024_1c_pccsc.Buffer.{
  Sbuffer, buffer_create, add_uint32, buffer_read_uint32, buffer_read_int, buffer_read_void,
  buffer_add_int, buffer_add_void,
}
use tp_2024_1c_pccsc.Memoria.{Memoria}

-- `for (int i = 0; i < cantidad; i++)`, where `cantidad` is an `int` by its bit pattern.
abbrev pub vueltas : ℕ → ℕ
vueltas cantidad = if ltb cantidad (2 ^ 31) then cantidad else 0

-- The sum of the sizes in `n` requests to read, on `uint32_t`. The buffer's offset is put back, so
-- the buffer is no part of the result.
unfoldable pub calcular_tamanio_bucle : ℕ → Sbuffer → ℕ → Option ℕ
calcular_tamanio_bucle zero b tamanio = some tamanio
calcular_tamanio_bucle (suc n) b tamanio = do
  d ← buffer_read_uint32 b
  t ← buffer_read_uint32 d.1
  calcular_tamanio_bucle n t.1 (add_uint32 tamanio t.0)

unfoldable pub calcular_tamanio_dato_lectura : Sbuffer → ℕ → Option ℕ
unfolding calcular_tamanio_bucle
calcular_tamanio_dato_lectura b cantidad = calcular_tamanio_bucle (vueltas cantidad) b 0

module _ ⦃bits : Bitarray⦄ where
  -- The access takes place under `mutex_espacio_usuario`.
  unfoldable pub leer_memoria : ℕ → ℕ → Memoria → Option (List ℕ)
  leer_memoria dir_fisica tam m = copiar_de m.memoria dir_fisica tam

  -- What was written is read again for the log, and `malloc` has given room for it, so the result is
  -- always CONTINUAR.
  unfoldable pub escribir_memoria : ℕ → List ℕ → Memoria → Option Memoria
  unfolding leer_memoria
  escribir_memoria dir_fisica dato m = do
    s ← copiar_a m.memoria dir_fisica dato
    d ← leer_memoria dir_fisica (length dato) (record m { memoria = s })
    some (record m { memoria = s })

  -- The loops over the requests, with the requests left.
  unfoldable pub escribir_bucle : ℕ → Sbuffer → Memoria → Option Memoria
  unfolding escribir_memoria
  escribir_bucle zero b m = some m
  escribir_bucle (suc n) b m = do
    d ← buffer_read_uint32 b
    v ← buffer_read_void d.1
    m' ← escribir_memoria d.0 v.0 m
    escribir_bucle n v.1 m'

  unfoldable pub leer_bucle : ℕ → Sbuffer → Sbuffer → Memoria → Option Sbuffer
  unfolding leer_memoria
  leer_bucle zero b datos m = some datos
  leer_bucle (suc n) b datos m = do
    d ← buffer_read_uint32 b
    t ← buffer_read_uint32 d.1
    v ← leer_memoria d.0 t.0 m
    datos' ← buffer_add_void datos v
    leer_bucle n t.1 datos' m

  -- PETICION_ESCRITURA, answered with CONTINUAR.
  unfoldable pub peticion_escritura : Sbuffer → Memoria → Option Memoria
  unfolding escribir_bucle
  peticion_escritura b m = do
    p ← buffer_read_uint32 b
    c ← buffer_read_int p.1
    escribir_bucle (vueltas c.0) c.1 m

  -- PETICION_LECTURA: the buffer of the answer.
  unfoldable pub peticion_lectura : Sbuffer → Memoria → Option Sbuffer
  unfolding leer_bucle calcular_tamanio_dato_lectura
  peticion_lectura b m = do
    p ← buffer_read_uint32 b
    c ← buffer_read_int p.1
    t ← calcular_tamanio_dato_lectura c.1 c.0
    datos ← buffer_add_int (buffer_create ((4 + 4 * c.0 + t) % 2 ^ 32)) c.0
    leer_bucle (vueltas c.0) c.1 datos m
