-- ===== src/Lib.antt =====
-- Verification of the operating system of this repository, a simulation by four processes:
--   kernel (kernel/src), cpu (cpu/src), memory (memoria/src) and I/O interfaces
--   (entradasalida/src), over the common library utils/src.
-- They send each other messages over sockets. The kernel schedules processes and gives each to the
-- CPU; the CPU fetches its instructions from memory and executes them, translating logical
-- addresses with its TLB; memory keeps frames, page tables and the user space; an I/O interface
-- of type DIALFS keeps files on a disk of blocks.
--
-- Which file models which part:
--   Common        what the modules share; Common/Bitarray is the bit array of so-commons, a library
--                 outside the repository, as an interface with its laws, and Common/Bytes is memcpy
--                 on byte lists.
--   Memoria       memoria/src/paginacion.c and resize_proceso of memoria/src/main.c; Memoria/Espacio
--                 has the user space and the requests that read and write it, Memoria/Instrucciones
--                 the lines of a process's script.
--   Buffer        utils/src/utils/buffer.c, and recibir_operacion and cargar_buffer of
--                 utils/src/utils/utilsServer.c.
--   Cpu/Tlb       the TLB of cpu/src/main.c.
--   Cpu/Mmu       mmu of cpu/src/main.c.
--   Cpu/Numeros   the numbers of cpu/src/instrucciones.c as texts, Cpu/Registros its instructions on
--                 registers, Cpu/Interrupciones the state of the CPU, evictions and interrupts, and
--                 Cpu/Lectura the answer to a read.
--   Sistema       CPU and memory together: an access goes through mmu, the packet and the handler of
--                 memory. Sistema/Instrucciones has the instructions, Sistema/Ejecucion
--                 ejecutar_instruccion, the cycle and its loop, and
--                 Sistema/Terminal the terminal's interfaces of entradasalida/src/main.c.
--   FileSystem    entradasalida/src/filesystem.c: searches in the bitmap of blocks and compaction;
--                 FileSystem/Archivos has the requests on files.
--   Kernel        kernel/src/main.c and kernel/src/monitores.c: the store of processes and their queues,
--                 the planners; Kernel/Recursos has WAIT, SIGNAL and the end of a process, Kernel/Io
--                 the I/O instructions, Kernel/Desalojo the CPU's messages (a function for each
--                 handler, in the source's names), Kernel/Presencia how often a process is queued,
--                 Kernel/Consola the commands of the console.
-- Each operation is a function from the state to the result, and `none` is a fault: a null pointer
-- that is dereferenced, an access outside a region, an exit of the process.
--
-- Numbers are natural numbers; where the source computes on uint32_t the wrap-around is written
-- out as `% 2 ^ 32`. Loops are structural recursion on the rounds that are left, so no fuel is
-- needed: a loop over an index counts the indices, and the loop of compactar_bloques the blocks.
-- As a program need not end, the loop of the CPU over the instructions of a process runs over a list
-- of rounds, each with the kernel's answer and the interrupts that come in it; what is said of it is
-- said of the state after any number of rounds. A definition of Option gives none for a fault and for a
-- wait that never ends. contar_digitos counts on nine rounds, as an int has ten digits at most.
--
-- Parameters, with what the code relies on: string_split, list_sort (the same elements, in order),
-- fopen and getline (the lines of a file), fgets (the block that it leaves), and the bytes that stand
-- behind a message that is read too far.
--
-- Not modelled: sockets, threads, semaphores and time (each operation is one step), logging and
-- configuration files; the reading of the console's lines, EJECUTAR_SCRIPT and the pause of the
-- planning; the connection and disconnection of an interface; the start-up of the file system;
-- the sleep and the dispatch of the interfaces (main of entradasalida/src/main.c), and what the
-- terminal gives, which is an argument.
pub mod Common
pub mod Memoria
pub mod Buffer
pub mod Cpu
pub mod FileSystem
pub mod Kernel
pub mod Sistema
