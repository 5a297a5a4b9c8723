-- ===== src/Kernel/Recursos.antt =====
-- The resources of kernel/src/main.c: WAIT, SIGNAL and what a process that ends gives back.
pub mod Reparto
pub mod Devolucion
use tp_2024_1c_pccsc.Common.{
  ℕ, zero, suc, ◌+◌, ◌-◌, Bool, true, false, Option, none, some, List, [], ◌∷◌, ◌++◌, ltb, ◌==◌,
  if◌then◌else◌, ◌>>=◌,
}
use tp_2024_1c_pccsc.Kernel.{
  Kernel, Pcb, Estado, new, ready, exec, blocked, exit, de_recurso, con_pcb, con_estado, poner,
}

-- `++proceso->recursos[i]` and `if(recursos[i] > 0) --recursos[i]`
abbrev pub sumar_recurso : ℕ → Pcb → Pcb
sumar_recurso i p = record p { recursos = poner i (p.recursos i + 1) p.recursos }

abbrev pub restar_recurso : ℕ → Pcb → Pcb
restar_recurso i p = record p { recursos = poner i (p.recursos i - 1) p.recursos }

-- The first process blocked on the resource takes an instance and goes to READY; with none blocked
-- the instance becomes available. SIGNAL and `liberar_recursos` both hold this code.
unfoldable pub devolver_instancia : ℕ → Kernel → Kernel
devolver_instancia i k = elim (k.cola_recursos_bloqueados i) [
  | [] ↦ record k {
    instancias_recursos = poner i (k.instancias_recursos i + 1) k.instancias_recursos;
  }
  | p ∷ ps ↦
      record (con_pcb p (λ q. record (sumar_recurso i q) { estado = ready; cola_bloqueado = none })
        k) {
          cola_recursos_bloqueados = poner i ps k.cola_recursos_bloqueados;
          monitor_ready = k.monitor_ready ++ p ∷ [];
        }
]

-- WAIT of a process on a resource that exists; the flag says whether it goes on, else the CPU is
-- told to evict it.
unfoldable pub wait_recurso : ℕ → ℕ → Kernel → Bool × Kernel
wait_recurso p i k = elim (k.instancias_recursos i) [
  | zero ↦ (
    false,
    record (con_pcb p (λ q. record q { estado = blocked; cola_bloqueado = some (de_recurso i) })
        k) {
          monitor_running = elim (k.monitor_running) [ [] ↦ [] | _ ∷ ps ↦ ps ];
          cola_recursos_bloqueados =
              poner i (k.cola_recursos_bloqueados i ++ p ∷ []) k.cola_recursos_bloqueados;
        },
  )
  | suc n ↦ (
    true,
    record (con_pcb p (sumar_recurso i) k) {
      instancias_recursos = poner i n k.instancias_recursos;
    },
  )
]

unfoldable pub signal_recurso : ℕ → ℕ → Kernel → Kernel
unfolding devolver_instancia
signal_recurso p i k = devolver_instancia i (con_pcb p (restar_recurso i) k)

-- The inner loop of `liberar_recursos`: `n` instances of resource `i` that process `p` holds.
unfoldable pub devolver_instancias : ℕ → ℕ → ℕ → Kernel → Kernel
unfolding devolver_instancia
devolver_instancias zero p i k = k
devolver_instancias (suc n) p i k =
    devolver_instancias n p i (con_pcb p (restar_recurso i) (devolver_instancia i k))

-- The outer loop, with the resources left and the resource `i`. The array, freed at the end, is not
-- read again.
unfoldable pub liberar_recursos_desde : ℕ → ℕ → ℕ → Kernel → Kernel
unfolding devolver_instancias
liberar_recursos_desde zero i p k = k
liberar_recursos_desde (suc r) i p k =
    liberar_recursos_desde r (suc i) p (devolver_instancias ((k.pcbs p).recursos i) p i k)

unfoldable pub liberar_recursos : ℕ → ℕ → Kernel → Kernel
unfolding liberar_recursos_desde
liberar_recursos cantidad_recursos p k = liberar_recursos_desde cantidad_recursos 0 p k

-- A process that memory knows ends: resources, memory and its place in the multiprogramming degree
-- are given back.
abbrev pub terminar : ℕ → ℕ → Kernel → Bool × Kernel
terminar cantidad_recursos p k =
    let k' = con_pcb p (con_estado exit) (liberar_recursos cantidad_recursos p k) in
    (true, record k' { grado_multiprogramacion = k'.grado_multiprogramacion + 1 })

-- The switch of `planificar_all_to_exit` on the state, and whether memory is told to free the
-- process.
unfoldable pub finalizar : Estado → ℕ → ℕ → Kernel → Bool × Kernel
unfolding liberar_recursos
finalizar new cantidad_recursos p k = (false, con_pcb p (con_estado exit) k)
finalizar exit cantidad_recursos p k = (false, k)
finalizar ready cantidad_recursos p k = terminar cantidad_recursos p k
finalizar exec cantidad_recursos p k = terminar cantidad_recursos p k
finalizar blocked cantidad_recursos p k = terminar cantidad_recursos p k

-- A round of `planificar_all_to_exit` over the queue EXIT: `none` while it is empty.
unfoldable pub salir_de_exit : List ℕ → ℕ → Kernel → Option (Bool × Kernel)
unfolding finalizar
salir_de_exit [] cantidad_recursos k = none
salir_de_exit (p ∷ ps) cantidad_recursos k =
    let r = finalizar (k.pcbs p).estado cantidad_recursos p k in
    let k' = con_pcb p (λ q. record q { instruccion_io = none }) r.1 in
    some (r.0, record k' { monitor_exit = ps })

unfoldable pub all_to_exit : ℕ → Kernel → Option (Bool × Kernel)
unfolding salir_de_exit
all_to_exit cantidad_recursos k = salir_de_exit k.monitor_exit cantidad_recursos k
