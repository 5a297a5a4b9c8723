-- ===== src/Kernel/Consola/Tests.antt =====
-- The console's commands at a concrete kernel.
use tp_2024_1c_pccsc.Common.{ℕ, ◌≢◌, true, false, none, some, [], ◌∷◌, ◌≡◌, refl, count}
use tp_2024_1c_pccsc.Kernel.{Kernel, Pcb, ready, sin_desalojar, extraer_proceso, con_pcb, quitar}
use tp_2024_1c_pccsc.Kernel.Presencia.{presencias}
use tp_2024_1c_pccsc.Kernel.Consola.{finalizar_proceso, listas_por_estado}
use tp_2024_1c_pccsc.Kernel.Consola.Finalizacion.{finalizar_proceso-presencias}
use tp_2024_1c_pccsc.Kernel.Consola.Estados.{Mostrado, listas_por_estado_lem}

abbrev pcb : Pcb
pcb = record {
  estado = ready;
  registros = record {
    pc = 0;
    ax = 0;
    bx = 0;
    cx = 0;
    dx = 0;
    eax = 0;
    ebx = 0;
    ecx = 0;
    edx = 0;
    si = 0;
    di = 0;
  };
  quantum = 2000;
  desalojo = sin_desalojar;
  path = [];
  recursos = λ i. 0;
  cola_bloqueado = none;
  instruccion_io = none;
  pedido_exit = false;
}

-- The processes 3 and 4 wait in READY.
abbrev kernel : Kernel
kernel = record {
  quantum_config = 2000;
  nombres_recursos = [];
  corresponde_timer_vrr = false;
  quantum_en_microsegundos = 0;
  pid = 7;
  pcbs = λ p. pcb;
  pcb_list = 3 ∷ 4 ∷ [];
  monitor_new = [];
  monitor_ready = 3 ∷ 4 ∷ [];
  monitor_ready_vrr = [];
  monitor_running = [];
  monitor_exit = [];
  instancias_recursos = λ i. 0;
  cola_recursos_bloqueados = λ i. [];
  interfaces_conectadas = [];
  grado_multiprogramacion = 3;
}

abbrev despues : Kernel
despues =
    con_pcb 3 (λ q. record q { pedido_exit = true })
      (record kernel { monitor_ready = 4 ∷ []; monitor_exit = 3 ∷ [] })

finalizado : finalizar_proceso 3 kernel ≡ some (none, despues)
unfolding finalizar_proceso extraer_proceso quitar
finalizado = refl

-- The same command again, before the process has left: it is not in its queue any more.
finalizado_dos_veces : finalizar_proceso 3 despues ≡ none
unfolding finalizar_proceso
finalizado_dos_veces = refl

finalizar_proceso-presencias_example : presencias 4 despues ≡ presencias 4 kernel
finalizar_proceso-presencias_example =
    finalizar_proceso-presencias 4 3 kernel (none, despues) (λ i e. absurd (cc e)) finalizado

listas_por_estado_lem_example :
    (e : ℕ) × Mostrado (despues.pcbs 3) e
    × (count 3 (listas_por_estado despues.pcbs (3 ∷ 4 ∷ []) e) ≡ count 3 (3 ∷ 4 ∷ []))
    × ((j : ℕ) → j ≢ e → count 3 (listas_por_estado despues.pcbs (3 ∷ 4 ∷ []) j) ≡ 0)
listas_por_estado_lem_example = listas_por_estado_lem 3 despues.pcbs (3 ∷ 4 ∷ [])
