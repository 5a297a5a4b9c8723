-- ===== src/Sistema/Ejecucion/Tests.antt =====
-- A process of two instructions, run to its end.
use tp_2024_1c_pccsc.Common.{
  ℕ, true, false, Option, none, some, List, [], ◌∷◌, ◌++◌, replicate, ◌≡◌, refl, ◌==◌,
  if◌then◌else◌,
}
use tp_2024_1c_pccsc.Common.Bytes.{bytes_uint32, valor_uint32, copiar_a, copiar_de}
use tp_2024_1c_pccsc.Common.Muestra.{muestra}
use tp_2024_1c_pccsc.Common.Texto.{texto}
use tp_2024_1c_pccsc.FileSystem.{igual}
use tp_2024_1c_pccsc.Buffer.{
  Sbuffer, RegistrosCpu, buffer_create, buffer_add, buffer_read, buffer_add_uint32,
  buffer_add_uint8, buffer_add_string, buffer_read_uint32, buffer_read_string, buffer_add_registros,
  recv, recibir_operacion, cargar_buffer, cargar_paquete,
}
use tp_2024_1c_pccsc.Kernel.Io.{cortar_linea}
use tp_2024_1c_pccsc.Cpu.Numeros.{atoi}
use tp_2024_1c_pccsc.Cpu.Registros.{obtener_tipo, obtener_direccion_memoria, set}
use tp_2024_1c_pccsc.Cpu.Interrupciones.{
  Cpu, desalojo_proceso, filtrar, remover, atender_interrupcion, check_interrupt,
}
use tp_2024_1c_pccsc.Cpu.Interrupciones.Insercion.{insertar, ordenar, ordenar-Ordena}
use tp_2024_1c_pccsc.Memoria.{Memoria, buscar_pcb, get_element_from_pid}
use tp_2024_1c_pccsc.Memoria.Instrucciones.{leer_proceso, leer_linea}
use tp_2024_1c_pccsc.Sistema.{entregar}
use tp_2024_1c_pccsc.Sistema.Instrucciones.{abandonar}
use tp_2024_1c_pccsc.Sistema.Ejecucion.{
  Tokens, Ronda, avanzar_pc, comando_de, ejecutar_comando, ejecutar_instruccion, fetch,
  ciclo_instruccion, ejecutar_bucle,
}
use tp_2024_1c_pccsc.Sistema.Ejecucion.Vuelta.{Enviados, MismoProceso, ciclo_instruccion_lem}
use tp_2024_1c_pccsc.Sistema.Ejecucion.Salida.{ciclo_exit_lem}
use tp_2024_1c_pccsc.Sistema.Ejecucion.Ciclo.{Ejecucion, ejecutar_bucle_lem}

abbrev mem : Memoria
mem = record {
  config = record { tam_memoria = 16; tam_pagina = 4 };
  cantidad_marcos_totales = 4;
  memoria = replicate 16 1;
  bitmap_marcos = (8, λ i. false);
  lista_pcb_tablas_paginas = record { pid = 7; path_proceso = texto "p"; tabla_paginas = [] } ∷ [];
}

abbrev regs : RegistrosCpu
regs = record {
  pc = 0;
  ax = 0;
  bx = 0;
  cx = 0;
  dx = 0;
  eax = 0;
  ebx = 0;
  ecx = 0;
  edx = 0;
  si = 0;
  di = 0;
}

abbrev cpu : Cpu
cpu = record {
  pid_proceso = 7;
  registros = regs;
  seguir_ejecucion = true;
  desalojo = false;
  tlb = record {
    tlb_list = [];
    cantidad_entradas_tlb = 0;
    es_lru = false;
    reloj = λ k. k;
    lecturas = 0;
  };
  list_interrupciones = [];
  enviados = [];
}

-- FIN_QUANTUM has arrived for the process.
abbrev con_interrupcion : Cpu
con_interrupcion = record cpu {
  list_interrupciones = record { pid = 7; motivo_interrupcion = 12; bit_prioridad = 1 } ∷ [];
}

abbrev script : List ℕ → Option (List (List ℕ))
script nombre = some ((texto "SET AX 5" ++ 10 ∷ []) ∷ (texto "EXIT" ++ 10 ∷ []) ∷ [])

-- Words apart by spaces.
unfoldable agregar_letra : ℕ → Tokens → Tokens
agregar_letra c [] = (c ∷ []) ∷ []
agregar_letra c (t ∷ ts) = (c ∷ t) ∷ ts

unfoldable partir : List ℕ → Tokens
unfolding agregar_letra
partir [] = [] ∷ []
partir (c ∷ cs) = let resto = partir cs in if c == 32 then [] ∷ resto else agregar_letra c resto

-- FIN_QUANTUM comes in the second round, behind EXIT.
abbrev rondas : List Ronda
rondas =
    record { respuesta = 27; llegan = [] }
    ∷ record {
      respuesta = 27;
      llegan = record { pid = 7; motivo_interrupcion = 12; bit_prioridad = 1 } ∷ [];
    }
    ∷ record { respuesta = 27; llegan = [] }
    ∷ []

unfoldable valor_de : Option (Cpu × Memoria) → Cpu × Memoria
valor_de none = (cpu, mem)
valor_de (some r) = r

unfoldable vuelta : Cpu × Memoria
unfolding valor_de
vuelta = valor_de (ciclo_instruccion ordenar partir script [] 27 con_interrupcion mem)

unfoldable fin : Cpu × Memoria
unfolding valor_de
fin = valor_de (ejecutar_bucle ordenar partir script [] rondas cpu mem)

vuelta_hecha : ciclo_instruccion ordenar partir script [] 27 con_interrupcion mem ≡ some vuelta
unfolding vuelta partir ciclo_instruccion fetch ejecutar_instruccion ejecutar_comando comando_de
    entregar leer_proceso leer_linea buscar_pcb get_element_from_pid buffer_create buffer_add
    buffer_read buffer_add_uint32 buffer_add_uint8 buffer_add_string buffer_read_uint32
    buffer_read_string buffer_add_registros recv recibir_operacion cargar_buffer cargar_paquete
    copiar_a copiar_de bytes_uint32 valor_uint32 cortar_linea set obtener_tipo
    obtener_direccion_memoria igual atoi check_interrupt desalojo_proceso abandonar filtrar remover
    atender_interrupcion insertar ordenar
vuelta_hecha = refl

fin_hecho : ejecutar_bucle ordenar partir script [] rondas cpu mem ≡ some fin
unfolding fin ejecutar_bucle partir ciclo_instruccion fetch ejecutar_instruccion ejecutar_comando
    comando_de entregar leer_proceso leer_linea buscar_pcb get_element_from_pid buffer_create
    buffer_add buffer_read buffer_add_uint32 buffer_add_uint8 buffer_add_string buffer_read_uint32
    buffer_read_string buffer_add_registros recv recibir_operacion cargar_buffer cargar_paquete
    copiar_a copiar_de bytes_uint32 valor_uint32 cortar_linea set obtener_tipo
    obtener_direccion_memoria igual atoi check_interrupt desalojo_proceso abandonar filtrar remover
    atender_interrupcion insertar ordenar
fin_hecho = refl

ciclo_instruccion_lem_example :
    Enviados 27 con_interrupcion vuelta.0 × MismoProceso con_interrupcion vuelta.0
ciclo_instruccion_lem_example =
    ciclo_instruccion_lem ordenar partir script [] 27 con_interrupcion mem vuelta ordenar-Ordena
      refl refl vuelta_hecha

ejecutar_bucle_lem_example : Ejecucion rondas cpu fin.0
ejecutar_bucle_lem_example =
    ejecutar_bucle_lem ordenar partir script [] rondas cpu mem fin ordenar-Ordena refl refl
      fin_hecho

-- At the second line of the script, with FIN_QUANTUM in the list.
abbrev en_exit : Cpu
en_exit = record con_interrupcion { registros = record regs { pc = 1 } }

linea_leida : fetch ordenar partir script [] 27 en_exit mem ≡ some (texto "EXIT")
unfolding fetch entregar leer_proceso leer_linea buscar_pcb get_element_from_pid buffer_create
    buffer_add buffer_read buffer_add_uint32 buffer_add_uint8 buffer_add_string buffer_read_uint32
    buffer_read_string recv recibir_operacion cargar_buffer cargar_paquete copiar_a copiar_de
    bytes_uint32 valor_uint32 cortar_linea
linea_leida = refl

linea_partida : partir (texto "EXIT") ≡ texto "EXIT" ∷ []
unfolding partir
linea_partida = refl

ciclo_exit_lem_example :
    (c' : Cpu) × (b : Sbuffer) × (ciclo_instruccion ordenar partir script [] 27 en_exit mem
      ≡ some (c', mem))
    × (c'.seguir_ejecucion ≡ false)
    × (c'.registros ≡ (avanzar_pc en_exit).registros)
    × (buffer_add_registros (buffer_create 36) c'.registros ≡ some b)
    × (c'.enviados ≡ [] ++ (9, b) ∷ [])
ciclo_exit_lem_example =
    ciclo_exit_lem ordenar partir script [] 27 en_exit mem (texto "EXIT") [] linea_leida
      linea_partida
