-- ===== src/Cpu/Tests.antt =====
-- The theorems on registers and interrupts at concrete values.
use mathlib.Core.List.{Memᴰ}
use tp_2024_1c_pccsc.Common.{
  ℕ, ◌+◌, ◌-◌, ◌%◌, ◌^◌, ◌≤◌, true, false, none, some, List, [], ◌∷◌, ◌≡◌, ◌≢◌, refl, arith, leb,
  ◌==◌, if◌then◌else◌,
}
use tp_2024_1c_pccsc.Common.Texto.{texto}
use tp_2024_1c_pccsc.FileSystem.{igual}
use tp_2024_1c_pccsc.Buffer.{Sbuffer, RegistrosCpu, buffer_create, buffer_add_registros}
use tp_2024_1c_pccsc.Cpu.Numeros.{contar_digitos, int_to_cadena, atoi}
use tp_2024_1c_pccsc.Cpu.Numeros.IdaVuelta.{magnitud, int_to_cadena_lem}
use tp_2024_1c_pccsc.Cpu.Registros.{
  uint8, obtener_tipo, obtener_direccion_memoria, Registro, reg_ax, reg_bx, asignar, convertir, sum,
  sub,
}
use tp_2024_1c_pccsc.Cpu.Registros.Operaciones.{
  tipo_registro, Nombra, sum_lem, sub_lem, obtener_tipo-Nombra,
}
use tp_2024_1c_pccsc.Cpu.Interrupciones.{Pic, Cpu, enviar, check_interrupt}
use tp_2024_1c_pccsc.Cpu.Interrupciones.Insercion.{ordenar, ordenar-Ordena}
use tp_2024_1c_pccsc.Cpu.Interrupciones.Prioridad.{check_interrupt_lem}

-- -3, by its bit pattern.
int_to_cadena_lem_example :
    (l : ℕ) × (s : List ℕ) × (contar_digitos 4294967293 ≡ some l)
    × (int_to_cadena 4294967293 l ≡ some s)
    × (atoi s ≡ magnitud 4294967293)
int_to_cadena_lem_example = int_to_cadena_lem 4294967293 (omega arith) (λ e. absurd (omega arith))

ax-Nombra : Nombra (texto "AX") reg_ax
unfolding obtener_tipo obtener_direccion_memoria igual
ax-Nombra = record { direccion = refl; tipo = refl }

bx-Nombra : Nombra (texto "BX") reg_bx
unfolding obtener_tipo obtener_direccion_memoria igual
bx-Nombra = record { direccion = refl; tipo = refl }

abbrev regs : RegistrosCpu
regs = record {
  pc = 0;
  ax = 200;
  bx = 203;
  cx = 0;
  dx = 0;
  eax = 0;
  ebx = 0;
  ecx = 0;
  edx = 0;
  si = 0;
  di = 0;
}

-- 403 wraps around in eight bits.
sum_lem_example : sum (texto "AX") (texto "BX") regs ≡ (
    if (200 + 203) % 2 ^ 32 == 2 ^ 31
    then none
    else some (asignar reg_ax (convertir uint8 (magnitud ((200 + 203) % 2 ^ 32))) regs))
sum_lem_example = sum_lem (texto "AX") (texto "BX") reg_ax reg_bx regs ax-Nombra bx-Nombra refl

-- 200 - 203 leaves 3.
sub_lem_example :
    sub (texto "AX") (texto "BX") regs
    ≡ some (asignar reg_ax (convertir uint8 (if leb 203 200 then 200 - 203 else 203 - 200)) regs)
sub_lem_example =
    sub_lem (texto "AX") (texto "BX") reg_ax reg_bx regs ax-Nombra bx-Nombra refl (omega arith)
      (omega arith) (omega arith) (omega arith)

ax_uint8 : obtener_tipo (texto "AX") ≡ some uint8
unfolding obtener_tipo igual
ax_uint8 = refl

obtener_tipo-Nombra_example : (d : Registro) × Nombra (texto "AX") d × (tipo_registro d ≡ uint8)
obtener_tipo-Nombra_example = obtener_tipo-Nombra (texto "AX") uint8 ax_uint8

abbrev quantum : Pic
quantum = record { pid = 7; motivo_interrupcion = 12; bit_prioridad = 1 }

abbrev pedido_fin : Pic
pedido_fin = record { pid = 7; motivo_interrupcion = 13; bit_prioridad = 0 }

abbrev ajena : Pic
ajena = record { pid = 8; motivo_interrupcion = 12; bit_prioridad = 1 }

abbrev cpu : Cpu
cpu = record {
  pid_proceso = 7;
  registros = regs;
  seguir_ejecucion = true;
  desalojo = false;
  tlb = record {
    tlb_list = [];
    cantidad_entradas_tlb = 0;
    es_lru = false;
    reloj = λ k. k;
    lecturas = 0;
  };
  list_interrupciones = quantum ∷ ajena ∷ pedido_fin ∷ [];
  enviados = [];
}

check_interrupt_lem_example :
    (i : Pic) × (b : Sbuffer) × (quedan : List Pic) × (check_interrupt ordenar 7 cpu
      ≡ some (
          enviar i.motivo_interrupcion b
            (record cpu { seguir_ejecucion = false; list_interrupciones = quedan })))
    × ((j : Pic) → Memᴰ j quedan → Memᴰ j cpu.list_interrupciones × (j.pid ≢ 7))
    × ((j : Pic) → Memᴰ j cpu.list_interrupciones → j.pid ≢ 7 → Memᴰ j quedan)
    × (buffer_add_registros (buffer_create 36) cpu.registros ≡ some b)
    × Memᴰ i cpu.list_interrupciones
    × (i.pid ≡ 7)
    × ((j : Pic) → Memᴰ j cpu.list_interrupciones → j.pid ≡ 7 → i.bit_prioridad ≤ j.bit_prioridad)
check_interrupt_lem_example =
    check_interrupt_lem ordenar ordenar-Ordena 7 cpu quantum (Memᴰ.head refl) refl refl
