-- ===== src/Kernel/Desalojo.antt =====
-- `recibir_proceso_desalojado` of kernel/src/main.c: what the CPU's message does to the process in
-- RUNNING.
use tp_2024_1c_pccsc.Common.{
  ℕ, suc, Bool, true, false, Option, none, some, List, [], ◌∷◌, ◌++◌, if◌then◌else◌, ◌>>=◌,
}
use tp_2024_1c_pccsc.Buffer.{Sbuffer, buffer_read_string, buffer_read_registros}
use tp_2024_1c_pccsc.FileSystem.{igual}
use tp_2024_1c_pccsc.Kernel.{
  Kernel, Pcb, sin_desalojar, desalojado, pedido_finalizacion, ready, con_pcb,
}
use tp_2024_1c_pccsc.Kernel.Recursos.{wait_recurso, signal_recurso}
use tp_2024_1c_pccsc.Kernel.Io.{
  InstruccionIo, cortar_linea, a_exit, sacar_running, manejo_instruccion_io,
}

-- The operation codes that the CPU sends with an evicted process.
pub data Motivo : Type 0 where
  exit_proceso finalizar_proceso out_of_memory wait signal fin_quantum : Motivo
  de_io : InstruccionIo → Motivo

-- The position of a resource in the configuration's array.
unfoldable pub posicion_recurso : List ℕ → List (List ℕ) → Option ℕ
posicion_recurso r [] = none
posicion_recurso r (n ∷ ns) =
    if igual r n then some 0 else posicion_recurso r ns >>= λ i. some (suc i)

unfoldable pub recupera_contexto : ℕ → Sbuffer → Kernel → Option Kernel
recupera_contexto p b k = do
  r ← buffer_read_registros b
  some (con_pcb p (λ q. record q { registros = r.0 }) k)

-- WAIT or SIGNAL on the resource at a position; the flag says whether the CPU goes on.
unfoldable pub usar_recurso : Bool → ℕ → Sbuffer → ℕ → Kernel → Option (Bool × Kernel)
usar_recurso es_wait i b p k =
    if es_wait
    then (let r = wait_recurso p i k in
        if r.0 then some r else recupera_contexto p b k >>= λ k. some (wait_recurso p i k))
    else some (true, signal_recurso p i k)

unfoldable pub pedir_recurso : Bool → Sbuffer → ℕ → Kernel → Option (Bool × Kernel)
unfolding usar_recurso posicion_recurso
pedir_recurso es_wait b p k = do
  n ← buffer_read_string b
  elim (posicion_recurso (cortar_linea n.0) k.nombres_recursos) [
    | none ↦ (do k ← recupera_contexto p n.1 k; some (false, a_exit p k))
    | some i ↦ usar_recurso es_wait i n.1 p k
  ]

-- The running process goes to READY with a whole quantum.
unfoldable pub a_ready : ℕ → Kernel → Kernel
a_ready p k = record (con_pcb p (λ q. record q { estado = ready; quantum = k.quantum_config }) k) {
  monitor_running = sacar_running k.monitor_running;
  monitor_ready = k.monitor_ready ++ p ∷ [];
}

-- The switch on the message, with the packet for an interface and whether the CPU goes on with the
-- same process.
unfoldable pub manejar_motivo :
    Motivo → Sbuffer → ℕ → ℕ → Kernel → Option (Bool × Option (ℕ × ℕ × Sbuffer) × Kernel)
unfolding pedir_recurso recupera_contexto a_ready
manejar_motivo exit_proceso b ms p k = do
  k ← recupera_contexto p b k
  some (false, none, a_exit p k)
manejar_motivo finalizar_proceso b ms p k = do
  k ← recupera_contexto p b k
  some (false, none, a_exit p k)
manejar_motivo out_of_memory b ms p k = do
  k ← recupera_contexto p b k
  some (false, none, a_exit p k)
manejar_motivo wait b ms p k = do r ← pedir_recurso true b p k; some (r.0, none, r.1)
manejar_motivo signal b ms p k = do r ← pedir_recurso false b p k; some (r.0, none, r.1)
manejar_motivo fin_quantum b ms p k = do
  k ← recupera_contexto p b k
  some (false, none, a_ready p k)
manejar_motivo (de_io i) b ms p k = do r ← manejo_instruccion_io i b ms p k; some (false, r.0, r.1)

-- A message for process `p`. A request of the console to end it takes the place of the message's
-- reason.
unfoldable pub desalojar :
    Motivo → Sbuffer → ℕ → ℕ → Kernel → Option (Bool × Option (ℕ × ℕ × Sbuffer) × Kernel)
unfolding manejar_motivo
desalojar motivo b ms p k = do
  let marca : Pcb → Pcb =
      λ q. record q { desalojo = elim (q.desalojo) [ sin_desalojar ↦ desalojado | d ↦ d ] }
  let m : Motivo = elim ((k.pcbs p).desalojo) [
    | pedido_finalizacion ↦ finalizar_proceso
    | _ ↦ motivo
  ]
  r ← manejar_motivo m b ms p (con_pcb p marca k)
  some (r.0, r.1, con_pcb p (λ q. record q { desalojo = sin_desalojar }) r.2)

-- `mqueue_peek`: the work is done with the first process of the queue.
abbrev pub con_primero {ℓ} : {A : Type ℓ} → List ℕ → (ℕ → Option A) → Option A
con_primero [] f = none
con_primero (p ∷ ps) f = f p

unfoldable pub recibir_proceso_desalojado :
    Motivo → Sbuffer → ℕ → Kernel → Option (Bool × Option (ℕ × ℕ × Sbuffer) × Kernel)
unfolding desalojar
recibir_proceso_desalojado motivo b ms k =
    con_primero k.monitor_running (λ p. desalojar motivo b ms p k)
