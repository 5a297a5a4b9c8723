-- ===== src/Kernel/Consola.antt =====
-- The console's commands in kernel/src/main.c. The planning stands still while one runs, so that each
-- is one step.
pub mod Finalizacion
pub mod Estados
mod Tests
use tp_2024_1c_pccsc.Common.{
  ℕ, zero, suc, ◌+◌, ◌-◌, Bool, true, false, ◌&&◌, ◌||◌, Option, none, some, List, [], ◌∷◌, ◌++◌,
  ltb, ◌==◌, if◌then◌else◌, ◌>>=◌,
}
use tp_2024_1c_pccsc.Kernel.{
  Kernel, Pcb, Estado, new, ready, exec, blocked, exit, CodDesalojo, sin_desalojar, desalojado,
  desalojado_por_io, pedido_finalizacion, Cola, de_recurso, de_interfaz, Interfaz, con_pcb, poner,
  extraer_proceso,
}

-- `list_find` by pid.
unfoldable pub esta : ℕ → List ℕ → Bool
esta p [] = false
esta p (q ∷ qs) = (q == p) || esta p qs

unfoldable pub cola_de_interfaz : ℕ → List Interfaz → List ℕ
cola_de_interfaz s [] = []
cola_de_interfaz s (i ∷ is) =
    if i.socket_interfaz == s then i.cola_bloqueados else cola_de_interfaz s is

-- The queue that `extraer_proceso` searches.
unfoldable pub cola_actual : ℕ → Kernel → List ℕ
unfolding cola_de_interfaz
cola_actual p k = elim ((k.pcbs p).estado) [
  | new ↦ k.monitor_new
  | ready ↦
      if k.corresponde_timer_vrr && ltb (k.pcbs p).quantum k.quantum_config
      then k.monitor_ready_vrr
      else k.monitor_ready
  | blocked ↦ elim ((k.pcbs p).cola_bloqueado) [
    | none ↦ []
    | some (de_recurso i) ↦ k.cola_recursos_bloqueados i
    | some (de_interfaz s) ↦ cola_de_interfaz s k.interfaces_conectadas
  ]
  | _ ↦ []
]

-- An interrupt for the CPU: pid, motive and priority.
abbrev pub Interrupcion : Type 0
Interrupcion = ℕ × ℕ × ℕ

-- A process in EXEC: the CPU is told if it still has the process. 13 is FINALIZAR_PROCESO.
unfoldable pub finalizar_en_exec : ℕ → Kernel → Option Interrupcion × Kernel
finalizar_en_exec p k =
    let pedido = con_pcb p (λ q. record q { desalojo = pedido_finalizacion }) k in
    elim ((k.pcbs p).desalojo) [
      | sin_desalojar ↦ (some (p, 13, 0), pedido)
      | desalojado ↦ (none, pedido)
      | _ ↦ (none, k)
    ]

-- A process in a queue: `none` is the null pointer of a process that is not in it.
unfoldable pub finalizar_en_cola : ℕ → Kernel → Option Kernel
unfolding cola_actual esta
finalizar_en_cola p k =
    if esta p (cola_actual p k)
    then (do
      k' ← extraer_proceso p k
      some (
          con_pcb p (λ q. record q { pedido_exit = true })
            (record k' { monitor_exit = k'.monitor_exit ++ p ∷ [] })))
    else none

-- FINALIZAR_PROCESO of a pid greater than 0.
unfoldable pub finalizar_proceso : ℕ → Kernel → Option (Option Interrupcion × Kernel)
unfolding finalizar_en_exec finalizar_en_cola
finalizar_proceso p k =
    if esta p k.pcb_list
    then elim ((k.pcbs p).estado) [
      | exit ↦ some (none, k)
      | exec ↦ some (finalizar_en_exec p k)
      | _ ↦ finalizar_en_cola p k >>= λ k'. some (none, k')
    ]
    else some (none, k)

-- MULTIPROGRAMACION from one degree to another, greater than 0: `none` is a wait on the semaphore
-- that does not end before a process leaves.
unfoldable pub multiprogramacion : ℕ → ℕ → Kernel → Option Kernel
multiprogramacion grado nuevo k =
    if ltb grado nuevo
    then some (record k { grado_multiprogramacion = k.grado_multiprogramacion + (nuevo - grado) })
    else if ltb k.grado_multiprogramacion (grado - nuevo)
    then none
    else some (record k { grado_multiprogramacion = k.grado_multiprogramacion - (grado - nuevo) })

-- The list of PROCESO_ESTADO that a process goes to.
unfoldable pub estado_real : Pcb → ℕ
estado_real p =
    if p.pedido_exit
    then 4
    else elim (p.estado) [ new ↦ 0 | ready ↦ 1 | exec ↦ 2 | blocked ↦ 3 | exit ↦ 4 ]

-- The loop of PROCESO_ESTADO: each process of `pcb_list` is added to one of the lists by state.
unfoldable pub clasificar : (ℕ → Pcb) → List ℕ → (ℕ → List ℕ) → ℕ → List ℕ
unfolding estado_real
clasificar pcbs [] listas_por_estado = listas_por_estado
clasificar pcbs (p ∷ ps) listas_por_estado =
    let e = estado_real (pcbs p) in
    clasificar pcbs ps (poner e (listas_por_estado e ++ p ∷ []) listas_por_estado)

unfoldable pub listas_por_estado : (ℕ → Pcb) → List ℕ → ℕ → List ℕ
unfolding clasificar
listas_por_estado pcbs ps = clasificar pcbs ps (λ e. [])
