-- ===== src/Kernel/Tests.antt =====
-- The theorems of the kernel at concrete queues.
use tp_2024_1c_pccsc.Common.{
  ℕ, bit, ◌+◌, Bool, false, Option, none, some, [], ◌∷◌, ◌≡◌, refl, arith, replicate, ◌==◌,
  if◌then◌else◌,
}
use tp_2024_1c_pccsc.Common.Bytes.{copiar_de, valor_uint32}
use tp_2024_1c_pccsc.Buffer.{
  Sbuffer, RegistrosCpu, buffer_read, buffer_read_uint32, buffer_read_uint8, valor_uint8,
  buffer_read_registros,
}
use tp_2024_1c_pccsc.Kernel.{
  algoritmo_fifo_rr, algoritmo_vrr, Kernel, Pcb, Interfaz, exec, sin_desalojar, desalojado, con_pcb,
  con_interfaz,
}
use tp_2024_1c_pccsc.Kernel.Recursos.{all_to_exit}
use tp_2024_1c_pccsc.Kernel.Recursos.Reparto.{Reparto}
use tp_2024_1c_pccsc.Kernel.Io.{io_liberar}
use tp_2024_1c_pccsc.Kernel.Io.Servicio.{cola_tras_liberar, Desbloqueo, Servicio}
use tp_2024_1c_pccsc.Kernel.Io.Turnos.{Turno, io_liberar_lem}
use tp_2024_1c_pccsc.Kernel.Desalojo.{
  fin_quantum, recupera_contexto, a_ready, manejar_motivo, desalojar, recibir_proceso_desalojado,
}
use tp_2024_1c_pccsc.Kernel.Presencia.{presencias}
use tp_2024_1c_pccsc.Kernel.Presencia.Planificacion.{
  all_to_exit-presencias, planificar_corto_plazo-presencias,
}
use tp_2024_1c_pccsc.Kernel.Presencia.Conservacion.{recibir_proceso_desalojado-presencias}

abbrev en_cero : RegistrosCpu
en_cero = record {
  pc = 0;
  ax = 0;
  bx = 0;
  cx = 0;
  dx = 0;
  eax = 0;
  ebx = 0;
  ecx = 0;
  edx = 0;
  si = 0;
  di = 0;
}

abbrev paquete : Sbuffer
paquete = record { size = 32; offset = 0; stream = replicate 32 0 }

abbrev pcb : Pcb
pcb = record {
  estado = exec;
  registros = en_cero;
  quantum = 2000;
  desalojo = sin_desalojar;
  path = [];
  recursos = λ i. 2;
  cola_bloqueado = none;
  instruccion_io = some (16, paquete);
  pedido_exit = false;
}

abbrev impresora : Interfaz
impresora = record {
  nombre_interfaz = 65 ∷ [];
  tipo_interfaz = 66 ∷ [];
  socket_interfaz = 9;
  disponibilidad = 1;
  pid_ejecutando = 4;
  cola_bloqueados = 4 ∷ 5 ∷ [];
}

-- Process 3 runs; 4 and 5 wait for an interface, 6 for resource 0.
abbrev antes : Kernel
antes = record {
  quantum_config = 2000;
  nombres_recursos = (82 ∷ []) ∷ [];
  corresponde_timer_vrr = false;
  quantum_en_microsegundos = 0;
  pid = 7;
  pcbs = λ p. pcb;
  pcb_list = 3 ∷ 4 ∷ 5 ∷ 6 ∷ [];
  monitor_new = [];
  monitor_ready = 1 ∷ [];
  monitor_ready_vrr = [];
  monitor_running = 3 ∷ [];
  monitor_exit = 2 ∷ [];
  instancias_recursos = λ i. 0;
  cola_recursos_bloqueados = λ i. if i == 0 then 6 ∷ [] else [];
  interfaces_conectadas = impresora ∷ [];
  grado_multiprogramacion = 3;
}

impresora-Turno : Turno impresora antes.pcbs
impresora-Turno = record {
  libre = λ d. absurd (omega arith);
  unica = λ p. ground arith;
  esperan = λ p c n. ((16, paquete), refl);
  servido = λ c. (5 ∷ [], refl);
}

io_liberar_lem_example :
    (i' : Interfaz) × (a : Option (ℕ × Sbuffer)) × (k' : Kernel) × (io_liberar impresora antes
      ≡ some (i', a, k'))
    × Turno i' k'.pcbs
    × (i'.cola_bloqueados ≡ cola_tras_liberar 4 (4 ∷ 5 ∷ []))
    × Desbloqueo 4 (4 ∷ 5 ∷ []) antes k'
    × Servicio (cola_tras_liberar 4 (4 ∷ 5 ∷ [])) impresora antes i' a k'
    × (k'.interfaces_conectadas
        ≡ con_interfaz impresora.socket_interfaz (λ _. i') antes.interfaces_conectadas)
io_liberar_lem_example = io_liberar_lem impresora antes impresora-Turno

abbrev despues : Kernel
despues =
    con_pcb 3 (λ q. record q { desalojo = sin_desalojar })
      (a_ready 3 (
        con_pcb 3 (λ q. record q { registros = en_cero })
          (con_pcb 3
            (λ q. record q { desalojo = elim (q.desalojo) [ sin_desalojar ↦ desalojado | d ↦ d ] })
            antes)))

recibido : recibir_proceso_desalojado fin_quantum paquete 0 antes ≡ some (false, none, despues)
unfolding recibir_proceso_desalojado desalojar manejar_motivo recupera_contexto
    buffer_read_registros buffer_read_uint32 buffer_read_uint8 buffer_read valor_uint8 valor_uint32
    copiar_de
recibido = refl

recibir_proceso_desalojado-presencias_example : presencias 3 despues ≡ presencias 3 antes
recibir_proceso_desalojado-presencias_example =
    recibir_proceso_desalojado-presencias 3 fin_quantum paquete 0 antes despues false none recibido

-- Process 2 ends and gives back two instances of resource 0, one of them to process 6.
all_to_exit-presencias_example :
    (r : Bool × Kernel) × (all_to_exit 1 antes ≡ some r)
    × (presencias 6 r.1 + bit (2 == 6) ≡ presencias 6 antes)
all_to_exit-presencias_example = all_to_exit-presencias 6 2 [] antes refl

planificar_corto_plazo-presencias_example :
    (presencias 1 (algoritmo_fifo_rr antes).1 ≡ presencias 1 antes)
    × (presencias 1 (algoritmo_vrr antes).1 ≡ presencias 1 antes)
planificar_corto_plazo-presencias_example = planificar_corto_plazo-presencias 1 antes
