-- ===== src/Sistema/Instrucciones.antt =====
-- The instructions of cpu/src/main.c, one function for each, with memory at the other end of the
-- CPU's requests. `none` is a fault.
use tp_2024_1c_pccsc.Common.{
  ℕ, ◌+◌, ◌-◌, ◌^◌, true, false, Option, none, some, List, length, ltb, ◌==◌, if◌then◌else◌, ◌>>=◌,
}
use tp_2024_1c_pccsc.Common.Bitarray.{Bitarray}
use tp_2024_1c_pccsc.Common.Bytes.{bytes_uint32, valor_uint32}
use tp_2024_1c_pccsc.Common.Int.{ℤ, pos, negsuc}
use tp_2024_1c_pccsc.Common.Texto.{texto}
use tp_2024_1c_pccsc.Buffer.{
  Sbuffer, RegistrosCpu, valor_uint8, buffer_create, buffer_add_uint32, buffer_add_int,
  buffer_add_string, buffer_add_registros, buffer_add_buffer, buffer_read_uint32, buffer_read_int,
}
use tp_2024_1c_pccsc.Cpu.Mmu.{mmu_leer}
use tp_2024_1c_pccsc.Cpu.Numeros.{digitos, cifras, atoi}
use tp_2024_1c_pccsc.Cpu.Registros.{
  TiposDeDato, uint8, uint32, obtener_tipo, obtener_valor_registro, set,
}
use tp_2024_1c_pccsc.Cpu.Interrupciones.{Cpu, enviar, desalojo_proceso}
use tp_2024_1c_pccsc.Memoria.{Memoria, Respuesta, continuar, out_of_memory, resize_proceso}
use tp_2024_1c_pccsc.Sistema.{entregar, tlb_miss, leer_logica, escribir_logica, copy_string}

-- An `int` by its bit pattern, as a number.
abbrev pub int_de : ℕ → ℤ
int_de x = if ltb x (2 ^ 31) then pos x else negsuc (2 ^ 32 - x - 1)

-- snprintf("%u")
unfoldable pub snprintf_u : ℕ → List ℕ
snprintf_u x = cifras (digitos 9 x) x

abbrev pub bytes_de_tipo : TiposDeDato → ℕ
bytes_de_tipo uint8 = 1
bytes_de_tipo uint32 = 4

-- The value of `peticion_completa`, copied into a variable of the type.
abbrev pub valor_leido : TiposDeDato → List ℕ → ℕ
valor_leido uint8 d = valor_uint8 d
valor_leido uint32 d = valor_uint32 d

-- The steps that end an instruction: new registers, or an access to memory that is over.
abbrev pub con_registros : Cpu → Option RegistrosCpu → Option Cpu
con_registros c r = r >>= λ r. some (record c { registros = r })

abbrev pub detener : Cpu → Cpu
detener c = record c { seguir_ejecucion = false; desalojo = true }

-- The instructions that evict with the packet of `desalojo_proceso`.
unfoldable pub abandonar : Option Sbuffer → ℕ → Cpu → Option Cpu
abandonar buffer mensaje c = desalojo_proceso buffer mensaje (detener c)

-- WAIT and SIGNAL: the kernel's answer decides whether the process goes on. 26 is DESALOJAR.
unfoldable pub instruccion_recurso : ℕ → List ℕ → ℕ → Cpu → Option Cpu
instruccion_recurso respuesta recurso mensaje c = do
  b ← buffer_add_string (buffer_create (length recurso + 40)) recurso
  c ← desalojo_proceso (some b) mensaje c
  some (if respuesta == 26 then detener c else c)

unfoldable pub io_gen_sleep : List ℕ → List ℕ → Cpu → Option Cpu
unfolding abandonar
io_gen_sleep nombre_interfaz tiempo c = do
  b ← buffer_add_string (buffer_create (length nombre_interfaz + 44)) nombre_interfaz
  b ← buffer_add_uint32 b (atoi tiempo)
  abandonar (some b) 16 c

unfoldable pub io_fs_create_delete : List ℕ → List ℕ → ℕ → Cpu → Option Cpu
unfolding abandonar
io_fs_create_delete nombre_interfaz nombre_file mensaje c = do
  b ←
      buffer_add_string (buffer_create (length nombre_interfaz + 4 + (length nombre_file + 4) + 32))
        nombre_interfaz
  b ← buffer_add_string b nombre_file
  abandonar (some b) mensaje c

unfoldable pub instruccion_truncate : List ℕ → List ℕ → List ℕ → Cpu → Option Cpu
unfolding abandonar
instruccion_truncate nombre_interfaz nombre_file registro c = do
  reg_t ← obtener_valor_registro registro c.registros
  b ←
      buffer_add_string (buffer_create (length nombre_interfaz + 4 + (length nombre_file + 4) + 36))
        nombre_interfaz
  b ← buffer_add_string b nombre_file
  b ← buffer_add_uint32 b reg_t
  abandonar (some b) 24 c

module _ ⦃bits : Bitarray⦄ where
  -- RESIZE over the connection: the CPU's packet, and memory's handler. 32 is RESIZE, 33 OUT_OF_MEMORY.
  unfoldable pub pedir_resize : ℕ → ℕ → Memoria → Option (Respuesta × Memoria)
  unfolding entregar
  pedir_resize pid tamanio m = do
    b ← buffer_add_uint32 (buffer_create 8) pid
    b ← buffer_add_int b tamanio
    b ← entregar 32 b
    p ← buffer_read_uint32 b
    t ← buffer_read_int p.1
    resize_proceso p.0 (int_de t.0) m

  unfoldable pub resize : List ℕ → Cpu → Memoria → Option (Cpu × Memoria)
  unfolding abandonar
  resize tamanio c m = do
    r ← pedir_resize c.pid_proceso (atoi tamanio) m
    c ← elim (r.0) [ out_of_memory ↦ abandonar none 33 c | continuar ↦ some c ]
    some (c, r.1)

  unfoldable pub mov_out : List ℕ → List ℕ → Cpu → Memoria → Option (Cpu × Memoria)
  mov_out registro_direccion registro_dato c m = do
    direccion_logica ← obtener_valor_registro registro_direccion c.registros
    t ← obtener_tipo registro_dato
    valor ← obtener_valor_registro registro_dato c.registros
    r ←
        escribir_logica c.pid_proceso direccion_logica (bytes_uint32 valor) (bytes_de_tipo t) c.tlb
          m
    some (record c { tlb = r.0 }, r.1)

  unfoldable pub mov_in : List ℕ → List ℕ → Cpu → Memoria → Option (Cpu × Memoria)
  unfolding snprintf_u
  mov_in registro_dato registro_direccion c m = do
    direccion_logica ← obtener_valor_registro registro_direccion c.registros
    t ← obtener_tipo registro_dato
    d ← leer_logica c.pid_proceso direccion_logica (bytes_de_tipo t) c.tlb m
    r ← set registro_dato (snprintf_u (valor_leido t d.0)) c.registros
    some (record c { tlb = d.1; registros = r }, m)

  unfoldable pub copiar : List ℕ → Cpu → Memoria → Option (Cpu × Memoria)
  copiar tamanio c m = do
    si ← obtener_valor_registro (texto "SI") c.registros
    di ← obtener_valor_registro (texto "DI") c.registros
    r ← copy_string c.pid_proceso si di (atoi tamanio) c.tlb m
    some (record c { tlb = r.0 }, r.1)

  unfoldable pub io_stdin_stdout :
      List ℕ → List ℕ → List ℕ → ℕ → Cpu → Memoria → Option (Cpu × Memoria)
  io_stdin_stdout nombre_interfaz registro_direccion registro_tamanio mensaje c m = do
    direccion_logica ← obtener_valor_registro registro_direccion c.registros
    tamanio ← obtener_valor_registro registro_tamanio c.registros
    u ← mmu_leer m.config.tam_pagina (tlb_miss m) c.pid_proceso direccion_logica tamanio c.tlb
    b ←
        buffer_add_string (buffer_create (length nombre_interfaz + 4 + (u.0.size + 4) + 36))
          nombre_interfaz
    b ← buffer_add_registros b c.registros
    b ← buffer_add_uint32 b tamanio
    b ← buffer_add_buffer b u.0
    some (enviar mensaje b (detener (record c { tlb = u.1 })), m)

  unfoldable pub io_fs_write_read :
      List ℕ → List ℕ → List ℕ → List ℕ → List ℕ → ℕ → Cpu → Memoria → Option (Cpu × Memoria)
  io_fs_write_read nombre_interfaz nombre_file registro_d registro_t registro_p mensaje c m = do
    reg_d ← obtener_valor_registro registro_d c.registros
    reg_t ← obtener_valor_registro registro_t c.registros
    reg_p ← obtener_valor_registro registro_p c.registros
    u ← mmu_leer m.config.tam_pagina (tlb_miss m) c.pid_proceso reg_d reg_t c.tlb
    b ←
        buffer_add_string
          (buffer_create
            (length nombre_interfaz + 4 + (length nombre_file + 4) + 40 + (u.0.size + 4)))
          nombre_interfaz
    b ← buffer_add_registros b c.registros
    b ← buffer_add_string b nombre_file
    b ← buffer_add_uint32 b reg_t
    b ← buffer_add_uint32 b reg_p
    b ← buffer_add_buffer b u.0
    some (enviar mensaje b (detener (record c { tlb = u.1 })), m)
