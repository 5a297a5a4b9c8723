-- ===== src/Sistema/Tests.antt =====
-- The theorems on CPU and memory together, at a memory of four frames and two processes.
use tp_2024_1c_pccsc.Common.{
  length, ℕ, ◌+◌, inl, true, false, some, List, [], ◌∷◌, ◌++◌, replicate, ◌≡◌, refl, arith, map,
  take, ltb,
}
use tp_2024_1c_pccsc.Common.Celdas.{rango}
use tp_2024_1c_pccsc.Common.Muestra.{muestra}
use tp_2024_1c_pccsc.Common.Texto.{texto}
use tp_2024_1c_pccsc.Buffer.{Sbuffer, RegistrosCpu}
use tp_2024_1c_pccsc.FileSystem.{igual}
use tp_2024_1c_pccsc.Common.Bytes.{bytes_uint32}
use tp_2024_1c_pccsc.Buffer.Lectura.{Pendiente}
use tp_2024_1c_pccsc.Buffer.Campos.{Campo, entero, cadena, bytes_campos}
use tp_2024_1c_pccsc.Cpu.Mmu.{Peticion, mmu_peticiones, mmu_bucle}
use tp_2024_1c_pccsc.Sistema.Mensajes.{campos_leer}
use tp_2024_1c_pccsc.Sistema.Terminal.{io_stdin_read, io_stdout_write, preparar_fs_write}
use tp_2024_1c_pccsc.Sistema.Terminal.Archivos.{preparar_fs_write_lem}
use tp_2024_1c_pccsc.Sistema.Terminal.Entrada.{io_stdin_read_lem}
use tp_2024_1c_pccsc.Sistema.Terminal.Salida.{Impreso, io_stdout_write_lem}
use tp_2024_1c_pccsc.Cpu.Tlb.{
  Tlb, obtener_marco, buscar_marco_tlb, agregar_marco_tlb, tocar, obtener_timestamp,
}
use tp_2024_1c_pccsc.Cpu.Tlb.Coherencia.{Coherente}
use tp_2024_1c_pccsc.Cpu.Registros.{
  obtener_tipo, obtener_direccion_memoria, reg_eax, reg_ebx, reg_si, asignar,
}
use tp_2024_1c_pccsc.Cpu.Registros.Operaciones.{Nombra}
use tp_2024_1c_pccsc.Cpu.Interrupciones.{Cpu}
use tp_2024_1c_pccsc.Memoria.{Pcb, Memoria, buscar_pcb, obtener_marco_proceso, get_element_from_pid}
use tp_2024_1c_pccsc.Memoria.Invariante.{Inv}
use tp_2024_1c_pccsc.Sistema.{tlb_miss, leer_logica, escribir_logica, copy_string}
use tp_2024_1c_pccsc.Sistema.Direcciones.{espacio_de}
use tp_2024_1c_pccsc.Sistema.Acceso.{Acceso, Peticiones}
use tp_2024_1c_pccsc.Sistema.Escritura.{Escrita, escribir_logica_lem}
use tp_2024_1c_pccsc.Sistema.Lectura.{leer_logica_lem}
use tp_2024_1c_pccsc.Sistema.IdaVuelta.{escribir-leer, copy_string_lem}
use tp_2024_1c_pccsc.Sistema.Instrucciones.{mov_out, mov_in}
use tp_2024_1c_pccsc.Sistema.Ejecucion.Movimientos.{mov_out-mov_in}

-- Process 7 has the frames 2 and 0, and process 9 the frame 1.
abbrev siete : Pcb
siete = record {
  pid = 7;
  path_proceso = [];
  tabla_paginas = record { id_marco = 2; offset = 0 } ∷ record { id_marco = 0; offset = 0 } ∷ [];
}

abbrev nueve : Pcb
nueve = record {
  pid = 9;
  path_proceso = [];
  tabla_paginas = record { id_marco = 1; offset = 0 } ∷ [];
}

abbrev mem : Memoria
mem = record {
  config = record { tam_memoria = 16; tam_pagina = 4 };
  cantidad_marcos_totales = 4;
  memoria = replicate 16 1;
  bitmap_marcos = (8, λ i. ltb i 3);
  lista_pcb_tablas_paginas = siete ∷ nueve ∷ [];
}

mem-Inv : Inv mem
mem-Inv = record {
  pagina_pos = omega arith;
  totales = refl;
  espacio = refl;
  bitmap = omega arith;
  duenio = λ i. ground arith;
}

abbrev tlb : Tlb
tlb = record {
  tlb_list = record { pid = 7; pagina = 1; marco = 0; timestamp = 10 } ∷ [];
  cantidad_entradas_tlb = 2;
  es_lru = true;
  reloj = λ k. k + 20;
  lecturas = 0;
}

tlb-Coherente : Coherente (tlb_miss mem) tlb.tlb_list
unfolding obtener_marco_proceso get_element_from_pid buscar_pcb
tlb-Coherente = (refl, tt)

hallado : buscar_pcb 7 mem.lista_pcb_tablas_paginas ≡ some siete
unfolding buscar_pcb
hallado = refl

hallado_nueve : buscar_pcb 9 mem.lista_pcb_tablas_paginas ≡ some nueve
unfolding buscar_pcb
hallado_nueve = refl

-- Five bytes from address 2 on: both pages.
acceso : Acceso mem mem-Inv 7 siete hallado 2 5
acceso = record {
  no_vacio = omega arith;
  en_proceso = omega arith;
  pid_acotado = omega arith;
  logica_acotada = omega arith;
  memoria_acotada = omega arith;
  mensaje_acotado = omega arith;
}

un_byte_antes : Acceso mem mem-Inv 7 siete hallado 1 5
un_byte_antes = record {
  no_vacio = omega arith;
  en_proceso = omega arith;
  pid_acotado = omega arith;
  logica_acotada = omega arith;
  memoria_acotada = omega arith;
  mensaje_acotado = omega arith;
}

abbrev dato : List ℕ
dato = 10 ∷ 20 ∷ 30 ∷ 40 ∷ 50 ∷ []

escribir_logica_lem_example :
    (t' : Tlb) × (m' : Memoria) × (escribir_logica 7 2 dato 5 tlb mem ≡ some (t', m'))
    × Escrita mem mem-Inv 7 siete hallado 2 5 dato m'
    × Coherente (tlb_miss mem) t'.tlb_list
escribir_logica_lem_example =
    escribir_logica_lem mem mem-Inv 7 siete hallado 2 5 dato tlb acceso tlb-Coherente (omega arith)

leer_logica_lem_example :
    (t' : Tlb) × (leer_logica 7 2 5 tlb mem ≡ some (map (espacio_de mem siete) (rango 2 5), t'))
    × Coherente (tlb_miss mem) t'.tlb_list
leer_logica_lem_example = leer_logica_lem mem mem-Inv 7 siete hallado 2 5 tlb acceso tlb-Coherente

escribir-leer_example :
    (t' t2 : Tlb) × (m' : Memoria) × (escribir_logica 7 2 dato 5 tlb mem ≡ some (t', m'))
    × (leer_logica 7 2 5 t' m' ≡ some (take 5 dato, t2))
escribir-leer_example =
    escribir-leer mem mem-Inv 7 siete hallado 2 5 dato tlb acceso tlb-Coherente (omega arith)

-- The two ranges overlap.
copy_string_lem_example :
    (t' : Tlb) × (m' : Memoria) × (copy_string 7 1 2 5 tlb mem ≡ some (t', m'))
    × Escrita mem mem-Inv 7 siete hallado 2 5 (map (espacio_de mem siete) (rango 1 5)) m'
copy_string_lem_example =
    copy_string_lem mem mem-Inv 7 siete hallado 1 2 5 tlb un_byte_antes acceso tlb-Coherente

abbrev registros : RegistrosCpu
registros = record {
  pc = 3;
  ax = 0;
  bx = 0;
  cx = 0;
  dx = 0;
  eax = 4000000000;
  ebx = 0;
  ecx = 0;
  edx = 0;
  si = 2;
  di = 0;
}

abbrev cpu : Cpu
cpu = record {
  pid_proceso = 7;
  registros = registros;
  seguir_ejecucion = true;
  desalojo = false;
  tlb = tlb;
  list_interrupciones = [];
  enviados = [];
}

eax-Nombra : Nombra (texto "EAX") reg_eax
unfolding obtener_tipo obtener_direccion_memoria igual
eax-Nombra = record { direccion = refl; tipo = refl }

ebx-Nombra : Nombra (texto "EBX") reg_ebx
unfolding obtener_tipo obtener_direccion_memoria igual
ebx-Nombra = record { direccion = refl; tipo = refl }

si-Nombra : Nombra (texto "SI") reg_si
unfolding obtener_tipo obtener_direccion_memoria igual
si-Nombra = record { direccion = refl; tipo = refl }

cuatro_bytes : Acceso mem mem-Inv 7 siete hallado 2 4
cuatro_bytes = record {
  no_vacio = omega arith;
  en_proceso = omega arith;
  pid_acotado = omega arith;
  logica_acotada = omega arith;
  memoria_acotada = omega arith;
  mensaje_acotado = omega arith;
}

-- EAX through the addresses 2 to 5, in two pages, into EBX.
mov_out-mov_in_example :
    (c1 c2 : Cpu) × (m' : Memoria) × (mov_out (texto "SI") (texto "EAX") cpu mem ≡ some (c1, m'))
    × (mov_in (texto "EBX") (texto "SI") c1 m' ≡ some (c2, m'))
    × (c2.registros ≡ asignar reg_ebx 4000000000 registros)
mov_out-mov_in_example =
    mov_out-mov_in mem mem-Inv cpu siete hallado (texto "SI") (texto "EAX") (texto "EBX") reg_si
      reg_eax reg_ebx si-Nombra eax-Nombra ebx-Nombra refl refl cuatro_bytes tlb-Coherente

-- The requests for the addresses 2 to 6: two bytes of frame 2 and three of frame 0.
abbrev pedidos : List Peticion
pedidos =
    record { direccion_fisica = 10; desde = 0; bytes = 2 }
    ∷ record { direccion_fisica = 0; desde = 2; bytes = 3 }
    ∷ []

abbrev tlb_despues : Tlb
tlb_despues = record tlb {
  tlb_list =
      record { pid = 7; pagina = 1; marco = 0; timestamp = 21 }
      ∷ record { pid = 7; pagina = 0; marco = 2; timestamp = 20 }
      ∷ [];
  lecturas = 2;
}

hechas : mmu_peticiones 4 (tlb_miss mem) 7 2 5 tlb ≡ some (pedidos, tlb_despues)
unfolding mmu_peticiones mmu_bucle obtener_marco buscar_marco_tlb agregar_marco_tlb tocar
    obtener_timestamp obtener_marco_proceso get_element_from_pid buscar_pcb
hechas = refl

pedidos-Peticiones : Peticiones mem mem-Inv 7 siete hallado 2 5 tlb pedidos tlb_despues
unfolding obtener_marco_proceso get_element_from_pid buscar_pcb
pedidos-Peticiones = record {
  hechas = hechas;
  cuantas = refl;
  imagenes = refl;
  largo = refl;
  contiguas = (refl, (refl, tt));
  unicas = λ x. ground arith;
  en_memoria = (omega arith, (omega arith, tt));
  sigue_coherente = (refl, (refl, tt));
}

abbrev campos : List Campo
campos = entero 7 ∷ entero 2 ∷ campos_leer pedidos

abbrev direcciones : Sbuffer
direcciones = record { size = 32; offset = 0; stream = bytes_campos campos }

direcciones-Pendiente : Pendiente (bytes_campos campos ++ []) direcciones
unfolding bytes_uint32
direcciones-Pendiente = record { acotado = omega arith; posicion = refl; contenido = refl }

-- "abc" and a newline, in a block of six bytes.
abbrev linea : List ℕ
linea = 97 ∷ 98 ∷ 99 ∷ []

io_stdin_read_lem_example :
    (m' : Memoria) × (io_stdin_read direcciones 5 (some (linea ++ 10 ∷ (0 ∷ 9 ∷ []))) mem ≡ some m')
    × Escrita mem mem-Inv 7 siete hallado 2 5 (linea ++ 0 ∷ (0 ∷ 9 ∷ [])) m'
io_stdin_read_lem_example =
    io_stdin_read_lem mem mem-Inv 7 siete hallado 2 5 10 linea (0 ∷ 9 ∷ []) tlb tlb_despues pedidos
      direcciones acceso pedidos-Peticiones refl refl (inl refl) refl direcciones-Pendiente

io_stdout_write_lem_example :
    (d : List ℕ) × (io_stdout_write direcciones 5 mem ≡ some d)
    × Impreso (espacio_de mem siete) 2 5 d
io_stdout_write_lem_example =
    io_stdout_write_lem mem mem-Inv 7 siete hallado 2 5 tlb tlb_despues pedidos direcciones acceso
      pedidos-Peticiones refl direcciones-Pendiente

-- A name of two characters, three numbers, the process and one request.
abbrev campos_write : List Campo
campos_write =
    cadena (65 ∷ 66 ∷ [])
    ∷ entero 4
    ∷ entero 0
    ∷ entero 16
    ∷ entero 7
    ∷ entero 1
    ∷ entero 8
    ∷ entero 4
    ∷ []

abbrev mensaje : Sbuffer
mensaje = record { size = 34; offset = 0; stream = bytes_campos campos_write }

mensaje-Pendiente : Pendiente (bytes_campos campos_write ++ []) mensaje
unfolding bytes_uint32
mensaje-Pendiente = record { acotado = omega arith; posicion = refl; contenido = refl }

largo_mensaje : 34 ≡ length (bytes_campos campos_write)
unfolding bytes_uint32
largo_mensaje = refl

preparar_fs_write_lem_example :
    (r : Sbuffer) × (preparar_fs_write (replicate 12 170) mensaje ≡ some (65 ∷ 66 ∷ [], 4, 0, 7, r))
    × (r.stream
        ≡ bytes_campos (entero 7 ∷ entero 1 ∷ entero 8 ∷ entero 4 ∷ [])
          ++ take 10 (replicate 12 170))
    × (r.size ≡ 16 + 10)
preparar_fs_write_lem_example =
    preparar_fs_write_lem (65 ∷ 66 ∷ []) (replicate 12 170) 4 0 16 7
      (entero 1 ∷ entero 8 ∷ entero 4 ∷ []) mensaje
      (omega arith, (omega arith, (omega arith, (omega arith, (omega arith, tt)))))
      mensaje-Pendiente refl largo_mensaje (omega arith)
