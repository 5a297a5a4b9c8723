-- ===== src/Cpu/Registros.antt =====
-- The registers by name and the instructions on them, in cpu/src/instrucciones.c. `none` is the
-- `exit` of a name that is no register, or the undefined behaviour of the number conversions.
pub mod Operaciones
use tp_2024_1c_pccsc.Common.{
  ℕ, ◌+◌, ◌-◌, ◌%◌, ◌^◌, Bool, true, false, ◌||◌, Option, none, some, List, ◌==◌, if◌then◌else◌,
  ◌>>=◌,
}
use tp_2024_1c_pccsc.Common.Texto.{texto}
use tp_2024_1c_pccsc.FileSystem.{igual}
use tp_2024_1c_pccsc.Buffer.{RegistrosCpu}
use tp_2024_1c_pccsc.Cpu.Numeros.{contar_digitos, int_to_cadena, atoi}

-- `tiposDeDato`
pub data TiposDeDato : Type 0 where
  uint8 uint32 : TiposDeDato

-- A pointer into `registros`.
pub data Registro : Type 0 where
  reg_ax reg_bx reg_cx reg_dx reg_eax reg_ebx reg_ecx reg_edx reg_si reg_di reg_pc : Registro

unfoldable pub inicializar_registros : RegistrosCpu
inicializar_registros = record {
  pc = 0;
  ax = 0;
  bx = 0;
  cx = 0;
  dx = 0;
  eax = 0;
  ebx = 0;
  ecx = 0;
  edx = 0;
  si = 0;
  di = 0;
}

unfoldable pub obtener_tipo : List ℕ → Option TiposDeDato
unfolding igual
obtener_tipo r =
    if igual r (texto "AX")
      || (igual r (texto "BX") || (igual r (texto "CX") || igual r (texto "DX")))
    then some uint8
    else if igual r (texto "EAX")
        || (igual r (texto "EBX")
            || (igual r (texto "ECX")
                || (igual r (texto "EDX")
                    || (igual r (texto "SI") || (igual r (texto "DI") || igual r (texto "PC"))))))
    then some uint32
    else none

-- `none` is two null pointers.
unfoldable pub obtener_direccion_memoria : List ℕ → Option Registro
unfolding igual
obtener_direccion_memoria r =
    if igual r (texto "AX")
    then some reg_ax
    else if igual r (texto "BX")
    then some reg_bx
    else if igual r (texto "CX")
    then some reg_cx
    else if igual r (texto "DX")
    then some reg_dx
    else if igual r (texto "EAX")
    then some reg_eax
    else if igual r (texto "EBX")
    then some reg_ebx
    else if igual r (texto "ECX")
    then some reg_ecx
    else if igual r (texto "EDX")
    then some reg_edx
    else if igual r (texto "SI")
    then some reg_si
    else if igual r (texto "DI")
    then some reg_di
    else if igual r (texto "PC")
    then some reg_pc
    else none

-- A read and a write through the pointer.
abbrev pub valor : Registro → RegistrosCpu → ℕ
valor reg_ax r = r.ax
valor reg_bx r = r.bx
valor reg_cx r = r.cx
valor reg_dx r = r.dx
valor reg_eax r = r.eax
valor reg_ebx r = r.ebx
valor reg_ecx r = r.ecx
valor reg_edx r = r.edx
valor reg_si r = r.si
valor reg_di r = r.di
valor reg_pc r = r.pc

abbrev pub asignar : Registro → ℕ → RegistrosCpu → RegistrosCpu
asignar reg_ax x r = record r { ax = x }
asignar reg_bx x r = record r { bx = x }
asignar reg_cx x r = record r { cx = x }
asignar reg_dx x r = record r { dx = x }
asignar reg_eax x r = record r { eax = x }
asignar reg_ebx x r = record r { ebx = x }
asignar reg_ecx x r = record r { ecx = x }
asignar reg_edx x r = record r { edx = x }
asignar reg_si x r = record r { si = x }
asignar reg_di x r = record r { di = x }
asignar reg_pc x r = record r { pc = x }

abbrev pub mismo_tipo : TiposDeDato → TiposDeDato → Bool
mismo_tipo uint8 uint8 = true
mismo_tipo uint32 uint32 = true
mismo_tipo _ _ = false

-- The cast to the type of a register.
abbrev pub convertir : TiposDeDato → ℕ → ℕ
convertir uint8 x = x % 2 ^ 8
convertir uint32 x = x % 2 ^ 32

unfoldable pub obtener_valor_registro : List ℕ → RegistrosCpu → Option ℕ
obtener_valor_registro registro r = do
  t ← obtener_tipo registro
  d ← obtener_direccion_memoria registro
  some (valor d r)

unfoldable pub set : List ℕ → List ℕ → RegistrosCpu → Option RegistrosCpu
set registro texto_valor r = do
  t ← obtener_tipo registro
  d ← obtener_direccion_memoria registro
  some (asignar d (convertir t (atoi texto_valor)) r)

-- An `int`, by its bit pattern, written as text and set into a register.
unfoldable pub set_numero : List ℕ → ℕ → RegistrosCpu → Option RegistrosCpu
set_numero registro num r = do
  longitud ← contar_digitos num
  cadena ← int_to_cadena num longitud
  set registro cadena r

-- `mov_in_function`, and `mov_out_function` with its arguments exchanged.
unfoldable pub mov_in_function : List ℕ → List ℕ → RegistrosCpu → Option RegistrosCpu
mov_in_function registro_dato registro_direccion r = do
  a ← obtener_tipo registro_dato
  b ← obtener_tipo registro_direccion
  dato ← obtener_valor_registro registro_direccion r
  if mismo_tipo a b then set_numero registro_dato dato r else some r

unfoldable pub mov_out_function : List ℕ → List ℕ → RegistrosCpu → Option RegistrosCpu
mov_out_function registro_direccion registro_dato r =
    mov_in_function registro_direccion registro_dato r

-- `SUM` and `SUB`: `uint32_t` arithmetic, read as an `int`.
unfoldable pub sum : List ℕ → List ℕ → RegistrosCpu → Option RegistrosCpu
sum registro_direccion registro_origen r = do
  a ← obtener_tipo registro_origen
  b ← obtener_tipo registro_direccion
  valor_origen ← obtener_valor_registro registro_origen r
  valor_destino ← obtener_valor_registro registro_direccion r
  if mismo_tipo a b
      then set_numero registro_direccion ((valor_destino + valor_origen) % 2 ^ 32) r
      else some r

unfoldable pub sub : List ℕ → List ℕ → RegistrosCpu → Option RegistrosCpu
sub registro_direccion registro_origen r = do
  a ← obtener_tipo registro_origen
  b ← obtener_tipo registro_direccion
  valor_origen ← obtener_valor_registro registro_origen r
  valor_destino ← obtener_valor_registro registro_direccion r
  if mismo_tipo a b
      then set_numero registro_direccion ((valor_destino + 2 ^ 32 - valor_origen) % 2 ^ 32) r
      else some r

unfoldable pub jnz : List ℕ → List ℕ → RegistrosCpu → Option RegistrosCpu
jnz registro numero_instruccion r = do
  valor_registro ← obtener_valor_registro registro r
  some (if valor_registro == 0 then r else record r { pc = atoi numero_instruccion })
