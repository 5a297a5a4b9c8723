-- ===== src/Cpu/Interrupciones.antt =====
-- The state of the CPU in cpu/src/main.c, the eviction of a process and the check for interrupts.
pub mod Prioridad
pub mod Insercion
use tp_2024_1c_pccsc.Common.{
  ℕ, Bool, true, false, ◌&&◌, not, Option, none, some, List, [], ◌∷◌, ◌++◌, ltb, ◌==◌,
  if◌then◌else◌, ◌>>=◌,
}
use tp_2024_1c_pccsc.Buffer.{
  Sbuffer, RegistrosCpu, buffer_create, buffer_read_uint32, buffer_read_int, buffer_read_uint8,
  buffer_add_registros, buffer_read_registros,
}
use tp_2024_1c_pccsc.Cpu.Tlb.{Tlb}

-- `t_pic`
pub record Pic : Type 0 where
  pub pid : ℕ
  pub motivo_interrupcion : ℕ
  pub bit_prioridad : ℕ

-- The globals of cpu/src/main.c; `enviados` are the packets sent to the kernel over the dispatch
-- connection, with their operation codes, in order.
pub record Cpu : Type 0 where
  pub pid_proceso : ℕ
  pub registros : RegistrosCpu
  pub seguir_ejecucion : Bool
  pub desalojo : Bool
  pub tlb : Tlb
  pub list_interrupciones : List Pic
  pub enviados : List (ℕ × Sbuffer)

-- EJECUTAR_PROCESO, up to the loop over the instructions.
unfoldable pub ejecutar_proceso : Sbuffer → Cpu → Option Cpu
ejecutar_proceso b c = do
  p ← buffer_read_uint32 b
  r ← buffer_read_registros p.1
  some (record c { seguir_ejecucion = true; desalojo = false; pid_proceso = p.0; registros = r.0 })

-- INTERRUPCION, in the thread of the interrupts.
unfoldable pub recibir_interrupcion : Sbuffer → Cpu → Option Cpu
recibir_interrupcion b c = do
  p ← buffer_read_uint32 b
  m ← buffer_read_int p.1
  q ← buffer_read_uint8 m.1
  some (record c {
    list_interrupciones =
        c.list_interrupciones
        ++ record { pid = p.0; motivo_interrupcion = m.0; bit_prioridad = q.0 } ∷ [];
  })

abbrev pub enviar : ℕ → Sbuffer → Cpu → Cpu
enviar mensaje b c = record c { enviados = c.enviados ++ (mensaje, b) ∷ [] }

-- Without a buffer one is created for the registers.
unfoldable pub desalojo_proceso : Option Sbuffer → ℕ → Cpu → Option Cpu
desalojo_proceso buffer mensaje_desalojo c = do
  b ← buffer_add_registros (elim buffer [ none ↦ buffer_create 36 | some b ↦ b ]) c.registros
  some (enviar mensaje_desalojo b c)

abbrev pub coinciden_pid : Pic → ℕ → Bool
coinciden_pid i pid = i.pid == pid

abbrev pub comparar_prioridad : Pic → Pic → Bool
comparar_prioridad a b = ltb a.bit_prioridad b.bit_prioridad

-- `filtrar_y_remover_lista`: the interrupts of a process, and those that are left.
unfoldable pub filtrar : ℕ → List Pic → List Pic
filtrar pid [] = []
filtrar pid (i ∷ is) = if coinciden_pid i pid then i ∷ filtrar pid is else filtrar pid is

unfoldable pub remover : ℕ → List Pic → List Pic
remover pid [] = []
remover pid (i ∷ is) = if coinciden_pid i pid then remover pid is else i ∷ remover pid is

abbrev pub vacia {ℓ} : {A : Type ℓ} → List A → Bool
vacia [] = true
vacia (_ ∷ _) = false

-- `list_sort` by `comparar_prioridad` is the library's.
module _ (list_sort : List Pic → List Pic) where
  unfoldable pub atender_interrupcion : List Pic → Cpu → Option Cpu
  atender_interrupcion propias c = elim (list_sort propias) [
    | [] ↦ none
    | primera ∷ _ ↦
        desalojo_proceso none primera.motivo_interrupcion (record c { seguir_ejecucion = false })
  ]

  unfoldable pub check_interrupt : ℕ → Cpu → Option Cpu
  unfolding atender_interrupcion filtrar remover
  check_interrupt proceso_pid c =
      if vacia c.list_interrupciones
      then some c
      else (let propias = filtrar proceso_pid c.list_interrupciones in
          let c' = record c { list_interrupciones = remover proceso_pid c.list_interrupciones } in
          if not (vacia propias) && not c.desalojo
          then atender_interrupcion propias c'
          else some c')
