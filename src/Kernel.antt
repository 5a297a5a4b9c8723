-- ===== src/Kernel.antt =====
-- kernel/src/main.c and kernel/src/monitores.c: processes, their queues and the planning.
-- A `t_pcb*` stands by its pid, which the counter `pid` makes unique, and `pcbs` is the store that
-- the pointers lead to; a queue holds pids. The semaphores around the queues make each operation one
-- step; `none` is a null pointer that is dereferenced.
pub mod Desalojo
pub mod Io
pub mod Recursos
pub mod Presencia
pub mod Consola
mod Tests
use tp_2024_1c_pccsc.Common.{
  ℕ, zero, suc, ◌+◌, ◌-◌, ◌*◌, Bool, true, false, ◌&&◌, Option, none, some, List, [], ◌∷◌, ◌++◌,
  ltb, ◌==◌, if◌then◌else◌, ◌>>=◌,
}
use tp_2024_1c_pccsc.Buffer.{Sbuffer, RegistrosCpu}

-- `e_estado_proceso`
pub data Estado : Type 0 where
  new ready exec blocked exit : Estado

-- `cod_desalojo`
pub data CodDesalojo : Type 0 where
  sin_desalojar desalojado desalojado_por_io pedido_finalizacion : CodDesalojo

-- The queues that `cola_bloqueado` may point to: of a resource, or of the interface on a socket.
pub data Cola : Type 0 where
  de_recurso : ℕ → Cola
  de_interfaz : ℕ → Cola

-- `t_pcb`; an array of counters is a function of the index. `instruccion_io` is the packet that
-- waits for its interface: operation code and buffer.
pub record Pcb : Type 0 where
  pub estado : Estado
  pub registros : RegistrosCpu
  pub quantum : ℕ
  pub desalojo : CodDesalojo
  pub path : List ℕ
  pub recursos : ℕ → ℕ
  pub cola_bloqueado : Option Cola
  pub instruccion_io : Option (ℕ × Sbuffer)
  pub pedido_exit : Bool

-- `t_interfaz`; a socket identifies the connection.
pub record Interfaz : Type 0 where
  pub nombre_interfaz : List ℕ
  pub tipo_interfaz : List ℕ
  pub socket_interfaz : ℕ
  pub disponibilidad : ℕ
  pub pid_ejecutando : ℕ
  pub cola_bloqueados : List ℕ

pub record Kernel : Type 0 where
  pub quantum_config : ℕ
  pub nombres_recursos : List (List ℕ)
  pub corresponde_timer_vrr : Bool
  pub quantum_en_microsegundos : ℕ
  pub pid : ℕ
  pub pcbs : ℕ → Pcb
  pub pcb_list : List ℕ
  pub monitor_new : List ℕ
  pub monitor_ready : List ℕ
  pub monitor_ready_vrr : List ℕ
  pub monitor_running : List ℕ
  pub monitor_exit : List ℕ
  pub instancias_recursos : ℕ → ℕ
  pub cola_recursos_bloqueados : ℕ → List ℕ
  pub interfaces_conectadas : List Interfaz
  pub grado_multiprogramacion : ℕ

-- A map with one key changed.
abbrev pub poner {ℓ} : {A : Type ℓ} → ℕ → A → (ℕ → A) → ℕ → A
poner i x f j = if i == j then x else f j

-- A write through the pointer to a process.
abbrev pub con_pcb : ℕ → (Pcb → Pcb) → Kernel → Kernel
con_pcb p f k = record k { pcbs = poner p (f (k.pcbs p)) k.pcbs }

abbrev pub con_estado : Estado → Pcb → Pcb
con_estado e p = record p { estado = e }

unfoldable pub registros_en_cero : RegistrosCpu
registros_en_cero = record {
  pc = 0;
  ax = 0;
  bx = 0;
  cx = 0;
  dx = 0;
  eax = 0;
  ebx = 0;
  ecx = 0;
  edx = 0;
  si = 0;
  di = 0;
}

pub iniciar_proceso : List ℕ → Kernel → Kernel
unfolding registros_en_cero
iniciar_proceso path k = record k {
  pcbs =
      poner k.pid
        (record {
          estado = new;
          registros = registros_en_cero;
          quantum = k.quantum_config;
          desalojo = sin_desalojar;
          path = path;
          recursos = λ i. 0;
          cola_bloqueado = none;
          instruccion_io = none;
          pedido_exit = false;
        })
        k.pcbs;
  monitor_new = k.monitor_new ++ k.pid ∷ [];
  pcb_list = k.pcb_list ++ k.pid ∷ [];
  pid = k.pid + 1;
}

-- The list without the first process of a pid (`list_remove_by_condition`).
pub quitar : ℕ → List ℕ → List ℕ
quitar p [] = []
quitar p (q ∷ qs) = if q == p then qs else q ∷ quitar p qs

-- A change of the interface on a socket.
pub con_interfaz : ℕ → (Interfaz → Interfaz) → List Interfaz → List Interfaz
con_interfaz s f [] = []
con_interfaz s f (i ∷ is) = if i.socket_interfaz == s then f i ∷ is else i ∷ con_interfaz s f is

-- `extraer_proceso`: the process leaves the queue that its state and quantum name.
pub extraer_proceso : ℕ → Kernel → Option Kernel
unfolding quitar con_interfaz
extraer_proceso p k = elim ((k.pcbs p).estado) [
  | new ↦ some (record k { monitor_new = quitar p k.monitor_new })
  | ready ↦ some (
      if k.corresponde_timer_vrr && ltb (k.pcbs p).quantum k.quantum_config
      then record k { monitor_ready_vrr = quitar p k.monitor_ready_vrr }
      else record k { monitor_ready = quitar p k.monitor_ready })
  | blocked ↦ elim ((k.pcbs p).cola_bloqueado) [
    | none ↦ none
    | some (de_recurso i) ↦ some (record k {
      cola_recursos_bloqueados =
          poner i (quitar p (k.cola_recursos_bloqueados i)) k.cola_recursos_bloqueados;
    })
    | some (de_interfaz s) ↦ some (record k {
      interfaces_conectadas =
          con_interfaz s (λ i. record i { cola_bloqueados = quitar p i.cola_bloqueados })
            k.interfaces_conectadas;
    })
  ]
  | _ ↦ some k
]

-- The head of READY or READY+ goes to RUNNING. The flag is the source's result.
unfoldable pub algoritmo_fifo_rr : Kernel → Bool × Kernel
algoritmo_fifo_rr k = elim (k.monitor_ready) [
  | [] ↦ (false, k)
  | p ∷ ps ↦ (
    true,
    record (con_pcb p (con_estado exec) k) {
      monitor_ready = ps;
      monitor_running = k.monitor_running ++ p ∷ [];
    },
  )
]

unfoldable pub algoritmo_vrr : Kernel → Bool × Kernel
algoritmo_vrr k = elim (k.monitor_ready_vrr) [
  | p ∷ ps ↦ (
    true,
    record (con_pcb p (con_estado exec) k) {
      monitor_ready_vrr = ps;
      quantum_en_microsegundos = (k.pcbs p).quantum * 1000;
      monitor_running = k.monitor_running ++ p ∷ [];
    },
  )
  | [] ↦ elim (k.monitor_ready) [
    | [] ↦ (false, k)
    | p ∷ ps ↦ (
      true,
      record (con_pcb p (λ q. record q { estado = exec; quantum = k.quantum_config }) k) {
        monitor_ready = ps;
        quantum_en_microsegundos = k.quantum_config * 1000;
        monitor_running = k.monitor_running ++ p ∷ [];
      },
    )
  ]
]

-- A round of `planificar_new_to_ready` once its semaphores let it in: `none` while no place of the
-- multiprogramming degree is free. The pid is that of the process that memory has created.
unfoldable pub new_to_ready : Kernel → Option (Option ℕ × Kernel)
new_to_ready k = elim (k.grado_multiprogramacion) [
  | zero ↦ none
  | suc g ↦ elim (k.monitor_new) [
    | [] ↦ some (none, k)
    | p ∷ ps ↦ some (
      some p,
      record (con_pcb p (con_estado ready) k) {
        grado_multiprogramacion = g;
        monitor_new = ps;
        monitor_ready = k.monitor_ready ++ p ∷ [];
      },
    )
  ]
]
