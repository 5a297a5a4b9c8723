-- ===== src/Kernel/Io.antt =====
-- `manejo_instruccion_io` of kernel/src/main.c and IO_LIBERAR of its `atender_cliente`.
pub mod Servicio
pub mod Turnos
use tp_2024_1c_pccsc.Common.{
  ℕ, zero, suc, ◌+◌, ◌-◌, ◌%◌, ◌^◌, Bool, true, false, ◌&&◌, Option, none, some, List, [], ◌∷◌,
  ◌++◌, length, ltb, ◌==◌, if◌then◌else◌, ◌>>=◌,
}
use tp_2024_1c_pccsc.Buffer.{
  Sbuffer, RegistrosCpu, buffer_create, buffer_read, buffer_add_uint32, buffer_read_uint32,
  buffer_add_string, buffer_read_string, buffer_read_registros,
}
use tp_2024_1c_pccsc.FileSystem.{igual}
use tp_2024_1c_pccsc.Kernel.{
  Kernel, Pcb, Interfaz, Estado, ready, blocked, de_interfaz, con_pcb, con_estado, con_interfaz,
}

pub data InstruccionIo : Type 0 where
  io_gen_sleep io_stdin_read io_stdout_write : InstruccionIo
  io_fs_create io_fs_delete io_fs_truncate io_fs_write io_fs_read : InstruccionIo

-- The string up to its first line end.
unfoldable pub cortar_linea : List ℕ → List ℕ
cortar_linea [] = []
cortar_linea (c ∷ cs) = if c == 10 then [] else c ∷ cortar_linea cs

-- The size of what is left of a message after interface name, registers and two lengths, on
-- `uint32_t`.
abbrev pub nuevo_tamanio : ℕ → ℕ → ℕ
nuevo_tamanio size length_io = (size + 2 ^ 33 - length_io - 36) % 2 ^ 32

-- The rest of the message, copied into a buffer of its own, behind the registers.
pub copiar_resto : ℕ → Sbuffer → Option (RegistrosCpu × Sbuffer)
copiar_resto length_io b = do
  r ← buffer_read_registros b
  d ← buffer_read r.1 (nuevo_tamanio b.size length_io)
  some (r.0, record (buffer_create (nuevo_tamanio b.size length_io)) { stream = d.0 })

-- The registers of the process and the buffer for the interface, from a message whose interface
-- name of `length_io` bytes has been read.
pub preparar_io : InstruccionIo → ℕ → ℕ → Sbuffer → Option (RegistrosCpu × Sbuffer)
unfolding copiar_resto
preparar_io io_gen_sleep pid length_io b = do
  io ← buffer_add_uint32 (buffer_create 8) pid
  it ← buffer_read_uint32 b
  io ← buffer_add_uint32 io it.0
  r ← buffer_read_registros it.1
  some (r.0, io)
preparar_io io_fs_create pid length_io b = do
  s ← buffer_read_string b
  r ← buffer_read_registros s.1
  io ← buffer_add_uint32 (buffer_create (length s.0 + 8)) pid
  io ← buffer_add_string io s.0
  some (r.0, io)
preparar_io io_fs_delete pid length_io b = do
  s ← buffer_read_string b
  r ← buffer_read_registros s.1
  io ← buffer_add_uint32 (buffer_create (length s.0 + 8)) pid
  io ← buffer_add_string io s.0
  some (r.0, io)
preparar_io io_fs_truncate pid length_io b = do
  s ← buffer_read_string b
  io ← buffer_add_uint32 (buffer_create (length s.0 + 12)) pid
  io ← buffer_add_string io s.0
  t ← buffer_read_uint32 s.1
  io ← buffer_add_uint32 io t.0
  r ← buffer_read_registros t.1
  some (r.0, io)
preparar_io io_stdin_read pid length_io b = copiar_resto length_io b
preparar_io io_stdout_write pid length_io b = copiar_resto length_io b
preparar_io io_fs_write pid length_io b = copiar_resto length_io b
preparar_io io_fs_read pid length_io b = copiar_resto length_io b

-- The operation codes of utils/src/utils/enums.h.
abbrev pub codigo : InstruccionIo → ℕ
codigo io_gen_sleep = 16
codigo io_stdin_read = 18
codigo io_stdout_write = 19
codigo io_fs_write = 20
codigo io_fs_read = 21
codigo io_fs_create = 22
codigo io_fs_delete = 23
codigo io_fs_truncate = 24

-- "GENERICA", "STDIN", "STDOUT" and "DIALFS"
abbrev pub tipo_de : InstruccionIo → List ℕ
tipo_de io_gen_sleep = 71 ∷ 69 ∷ 78 ∷ 69 ∷ 82 ∷ 73 ∷ 67 ∷ 65 ∷ []
tipo_de io_stdin_read = 83 ∷ 84 ∷ 68 ∷ 73 ∷ 78 ∷ []
tipo_de io_stdout_write = 83 ∷ 84 ∷ 68 ∷ 79 ∷ 85 ∷ 84 ∷ []
tipo_de _ = 68 ∷ 73 ∷ 65 ∷ 76 ∷ 70 ∷ 83 ∷ []

-- Under VRR the process keeps what is left of its quantum.
unfoldable pub cargar_quantum_restante : ℕ → ℕ → Kernel → Kernel
cargar_quantum_restante milisegundos p k =
    if k.corresponde_timer_vrr
    then con_pcb p
        (λ q. record q {
          quantum =
              if ltb milisegundos q.quantum then q.quantum - milisegundos else k.quantum_config;
        })
        k
    else k

unfoldable pub buscar_interfaz : List ℕ → List Interfaz → Option Interfaz
buscar_interfaz nombre [] = none
buscar_interfaz nombre (i ∷ is) =
    if igual i.nombre_interfaz nombre then some i else buscar_interfaz nombre is

-- `mqueue_pop(monitor_RUNNING)`
abbrev pub sacar_running : List ℕ → List ℕ
sacar_running [] = []
sacar_running (p ∷ ps) = ps

-- The running process goes to EXIT.
abbrev pub a_exit : ℕ → Kernel → Kernel
a_exit p k = record (con_pcb p (λ q. record q { pedido_exit = true }) k) {
  monitor_running = sacar_running k.monitor_running;
  monitor_exit = k.monitor_exit ++ p ∷ [];
}

-- The process waits in the queue of its interface: a free one is sent the packet, else the process
-- keeps it. The result is what is sent: socket, operation code and buffer.
unfoldable pub bloquear_en_interfaz :
    ℕ → ℕ → Sbuffer → Interfaz → Kernel → Option (ℕ × ℕ × Sbuffer) × Kernel
bloquear_en_interfaz p op io i k =
    let s = i.socket_interfaz in
    let bloquear : Pcb → Pcb =
      λ q. record q { estado = blocked; cola_bloqueado = some (de_interfaz s) } in
    let k' = record k { monitor_running = sacar_running k.monitor_running } in
    if i.disponibilidad == 0
    then (
      some (s, op, io),
      record (con_pcb p bloquear k') {
        interfaces_conectadas =
            con_interfaz s
              (λ j. record j {
                cola_bloqueados = j.cola_bloqueados ++ p ∷ [];
                pid_ejecutando = p;
                disponibilidad = 1;
              })
              k.interfaces_conectadas;
      },
    )
    else (
      none,
      record (con_pcb p (λ q. record (bloquear q) { instruccion_io = some (op, io) }) k') {
        interfaces_conectadas =
            con_interfaz s (λ j. record j { cola_bloqueados = j.cola_bloqueados ++ p ∷ [] })
              k.interfaces_conectadas;
      },
    )

-- The part after the packet is ready: an interface that is not there, or of another type, ends the
-- process.
unfoldable pub asignar_interfaz :
    InstruccionIo → List ℕ → ℕ → Sbuffer → Kernel → Option (ℕ × ℕ × Sbuffer) × Kernel
unfolding bloquear_en_interfaz buscar_interfaz
asignar_interfaz instruccion nombre p io k = elim (buscar_interfaz nombre k.interfaces_conectadas) [
  | none ↦ (none, a_exit p k)
  | some i ↦
      if igual i.tipo_interfaz (tipo_de instruccion)
      then bloquear_en_interfaz p (codigo instruccion) io i k
      else (none, a_exit p k)
]

unfoldable pub manejo_instruccion_io :
    InstruccionIo → Sbuffer → ℕ → ℕ → Kernel → Option (Option (ℕ × ℕ × Sbuffer) × Kernel)
unfolding asignar_interfaz preparar_io cargar_quantum_restante cortar_linea
manejo_instruccion_io instruccion b milisegundos p k = do
  let k = cargar_quantum_restante milisegundos p k
  n ← buffer_read_string b
  r ← preparar_io instruccion p (length n.0) n.1
  let k = con_pcb p (λ q. record q { registros = r.0 }) k
  some (asignar_interfaz instruccion (cortar_linea n.0) p r.1 k)

-- The first part of IO_LIBERAR: the process that the interface served goes to READY, or to READY+
-- with quantum left under VRR, unless it has been taken out of the queue meanwhile.
pub desbloquear_servido : Interfaz → Kernel → List ℕ × Kernel
desbloquear_servido i k = elim (i.cola_bloqueados) [
  | [] ↦ ([], k)
  | p ∷ ps ↦
      let k' = con_pcb p (con_estado ready) k in
      let r =
        if k.corresponde_timer_vrr && ltb (k.pcbs p).quantum k.quantum_config
        then record k' { monitor_ready_vrr = k.monitor_ready_vrr ++ p ∷ [] }
        else record k' { monitor_ready = k.monitor_ready ++ p ∷ [] } in
      if p == i.pid_ejecutando then (ps, r) else (p ∷ ps, k)
]

-- The second part: the first process that still waits is served with the packet that it kept; with
-- none the interface is free.
pub servir_siguiente :
    List ℕ → Interfaz → Kernel → Option (Interfaz × Option (ℕ × Sbuffer) × Kernel)
servir_siguiente [] i k = some (record i { cola_bloqueados = []; disponibilidad = 0 }, none, k)
servir_siguiente (p ∷ ps) i k = do
  a ← (k.pcbs p).instruccion_io
  some (
    record i { cola_bloqueados = p ∷ ps; pid_ejecutando = p },
    some a,
    con_pcb p (λ q. record q { instruccion_io = none }) k,
  )

-- IO_LIBERAR from the interface `i`, which stands in the list under its socket: the packet sent to
-- it and the new state.
pub io_liberar : Interfaz → Kernel → Option (Interfaz × Option (ℕ × Sbuffer) × Kernel)
unfolding desbloquear_servido servir_siguiente
io_liberar i k = do
  let d = desbloquear_servido i k
  r ← servir_siguiente d.0 i d.1
  some (
    r.0,
    r.1,
    record r.2 {
      interfaces_conectadas = con_interfaz i.socket_interfaz (λ _. r.0) r.2.interfaces_conectadas;
    },
  )
