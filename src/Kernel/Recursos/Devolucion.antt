-- ===== src/Kernel/Recursos/Devolucion.antt =====
-- What a process gives back, in closed form: the loops of `liberar_recursos` against lists.
use tp_2024_1c_pccsc.Common.{ℕ, ◌+◌, ◌-◌, ◌++◌, ◌≡◌, ◌≢◌, length, take, drop}
use tp_2024_1c_pccsc.Kernel.{Kernel}
use tp_2024_1c_pccsc.Kernel.Recursos.Reparto.{Reparto}

-- The queues and the instances available, when `n` instances of resource `i` are given back: they go
-- one by one to the processes blocked on it, in their order, and the rest is available again.
pub record Colas (n i : ℕ) (k k' : Kernel) : Type 0 where
  pub cola : k'.cola_recursos_bloqueados i ≡ drop n (k.cola_recursos_bloqueados i)
  pub a_ready : k'.monitor_ready ≡ k.monitor_ready ++ take n (k.cola_recursos_bloqueados i)
  pub disponibles :
      k'.instancias_recursos i
      ≡ k.instancias_recursos i + (n - length (k.cola_recursos_bloqueados i))
  pub otras_colas : (j : ℕ) → i ≢ j → k'.cola_recursos_bloqueados j ≡ k.cola_recursos_bloqueados j
  pub otras_instancias : (j : ℕ) → i ≢ j → k'.instancias_recursos j ≡ k.instancias_recursos j
  pub running : k'.monitor_running ≡ k.monitor_running
  pub salida : k'.monitor_exit ≡ k.monitor_exit
