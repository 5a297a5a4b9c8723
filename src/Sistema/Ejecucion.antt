-- ===== src/Sistema/Ejecucion.antt =====
-- `ejecutar_instruccion` and `ciclo_instruccion` of cpu/src/main.c, with memory at the other end of
-- the CPU's requests. `none` is a missing argument, a fault or a wait that never ends.
pub mod Desalojos
pub mod Comandos
pub mod Vuelta
pub mod Ciclo
pub mod Salida
pub mod Movimientos
mod Tests
use tp_2024_1c_pccsc.Common.{
  ℕ, zero, suc, ◌+◌, ◌-◌, ◌*◌, ◌%◌, ◌^◌, Bool, true, false, ◌||◌, Option, none, some, List, [], ◌∷◌,
  ◌++◌, length, get_elem?, ltb, ◌==◌, if◌then◌else◌, ◌>>=◌,
}
use tp_2024_1c_pccsc.Common.Bitarray.{Bitarray}
use tp_2024_1c_pccsc.Common.Bytes.{bytes_uint32, valor_uint32}
use tp_2024_1c_pccsc.Common.Int.{ℤ, pos, negsuc}
use tp_2024_1c_pccsc.Common.Texto.{texto}
use tp_2024_1c_pccsc.FileSystem.{igual}
use tp_2024_1c_pccsc.Buffer.{
  Sbuffer, RegistrosCpu, valor_uint8, buffer_create, buffer_add_uint32, buffer_add_int,
  buffer_add_string, buffer_add_registros, buffer_add_buffer, buffer_read_uint32, buffer_read_int,
  buffer_read_string,
}
use tp_2024_1c_pccsc.Kernel.Io.{cortar_linea}
use tp_2024_1c_pccsc.Cpu.Tlb.{Tlb}
use tp_2024_1c_pccsc.Cpu.Mmu.{mmu_leer}
use tp_2024_1c_pccsc.Cpu.Numeros.{digitos, cifras, atoi}
use tp_2024_1c_pccsc.Cpu.Registros.{
  TiposDeDato, uint8, uint32, obtener_tipo, obtener_valor_registro, set, sum, sub, jnz,
}
use tp_2024_1c_pccsc.Cpu.Interrupciones.{Pic, Cpu, enviar, desalojo_proceso, check_interrupt}
use tp_2024_1c_pccsc.Memoria.{Memoria, Respuesta, continuar, out_of_memory, resize_proceso}
use tp_2024_1c_pccsc.Memoria.Instrucciones.{leer_proceso}
use tp_2024_1c_pccsc.Sistema.{entregar, tlb_miss, leer_logica, escribir_logica, copy_string}
use tp_2024_1c_pccsc.Sistema.Instrucciones.{
  int_de, snprintf_u, bytes_de_tipo, valor_leido, con_registros, detener, abandonar,
  instruccion_recurso, io_gen_sleep, io_fs_create_delete, instruccion_truncate, pedir_resize,
  resize, mov_out, mov_in, copiar, io_stdin_stdout, io_fs_write_read,
}

module _ ⦃bits : Bitarray⦄ where
  -- The arguments of an instruction.
  abbrev pub Tokens : Type 0
  Tokens = List (List ℕ)

  abbrev pub con_1 : Tokens → (List ℕ → Option (Cpu × Memoria)) → Option (Cpu × Memoria)
  con_1 tokens f = get_elem? tokens 1 >>= f

  abbrev pub con_2 : Tokens → (List ℕ → List ℕ → Option (Cpu × Memoria)) → Option (Cpu × Memoria)
  con_2 tokens f = get_elem? tokens 1 >>= λ a. get_elem? tokens 2 >>= f a

  abbrev pub con_3 :
      Tokens → (List ℕ → List ℕ → List ℕ → Option (Cpu × Memoria)) → Option (Cpu × Memoria)
  con_3 tokens f =
      get_elem? tokens 1 >>= λ a. get_elem? tokens 2 >>= λ b. get_elem? tokens 3 >>= f a b

  abbrev pub con_5 :
      Tokens
      → (List ℕ → List ℕ → List ℕ → List ℕ → List ℕ → Option (Cpu × Memoria))
      → Option (Cpu × Memoria)
  con_5 tokens f = get_elem? tokens 1 >>= λ a. get_elem? tokens 2 >>= λ b.
      get_elem? tokens 3 >>= λ d. get_elem? tokens 4 >>= λ e. get_elem? tokens 5 >>= f a b d e

  abbrev pub sin_memoria : Memoria → Option Cpu → Option (Cpu × Memoria)
  sin_memoria m c = c >>= λ c. some (c, m)

  -- The instructions, by name.
  pub data Comando : Type 0 where
    com_set com_sum com_sub com_jnz com_exit com_resize com_mov_out com_mov_in com_copy_string :
        Comando
    com_wait com_signal com_gen_sleep com_stdin_read com_stdout_write : Comando
    com_fs_create com_fs_delete com_fs_truncate com_fs_write com_fs_read com_otro : Comando

  -- The chain of `strcmp`.
  unfoldable pub comando_de : List ℕ → Comando
  unfolding igual
  comando_de s =
      if igual s (texto "SET")
      then com_set
      else if igual s (texto "SUM")
      then com_sum
      else if igual s (texto "SUB")
      then com_sub
      else if igual s (texto "JNZ")
      then com_jnz
      else if igual s (texto "EXIT")
      then com_exit
      else if igual s (texto "RESIZE")
      then com_resize
      else if igual s (texto "MOV_OUT")
      then com_mov_out
      else if igual s (texto "MOV_IN")
      then com_mov_in
      else if igual s (texto "COPY_STRING")
      then com_copy_string
      else if igual s (texto "WAIT")
      then com_wait
      else if igual s (texto "SIGNAL")
      then com_signal
      else if igual s (texto "IO_GEN_SLEEP")
      then com_gen_sleep
      else if igual s (texto "IO_STDIN_READ")
      then com_stdin_read
      else if igual s (texto "IO_STDOUT_WRITE")
      then com_stdout_write
      else if igual s (texto "IO_FS_CREATE")
      then com_fs_create
      else if igual s (texto "IO_FS_DELETE")
      then com_fs_delete
      else if igual s (texto "IO_FS_TRUNCATE")
      then com_fs_truncate
      else if igual s (texto "IO_FS_WRITE")
      then com_fs_write
      else if igual s (texto "IO_FS_READ")
      then com_fs_read
      else com_otro

  -- The body of each branch. `respuesta` is the kernel's answer to WAIT and SIGNAL.
  unfoldable pub ejecutar_comando : ℕ → Comando → Tokens → Cpu → Memoria → Option (Cpu × Memoria)
  ejecutar_comando respuesta com_set tokens c m =
      con_2 tokens (λ a b. sin_memoria m (con_registros c (set a b c.registros)))
  ejecutar_comando respuesta com_sum tokens c m =
      con_2 tokens (λ a b. sin_memoria m (con_registros c (sum a b c.registros)))
  ejecutar_comando respuesta com_sub tokens c m =
      con_2 tokens (λ a b. sin_memoria m (con_registros c (sub a b c.registros)))
  ejecutar_comando respuesta com_jnz tokens c m =
      con_2 tokens (λ a b. sin_memoria m (con_registros c (jnz a b c.registros)))
  ejecutar_comando respuesta com_exit tokens c m = sin_memoria m (abandonar none 9 c)
  ejecutar_comando respuesta com_resize tokens c m = con_1 tokens (λ a. resize a c m)
  ejecutar_comando respuesta com_mov_out tokens c m = con_2 tokens (λ a b. mov_out a b c m)
  ejecutar_comando respuesta com_mov_in tokens c m = con_2 tokens (λ a b. mov_in a b c m)
  ejecutar_comando respuesta com_copy_string tokens c m = con_1 tokens (λ a. copiar a c m)
  ejecutar_comando respuesta com_wait tokens c m =
      con_1 tokens (λ a. sin_memoria m (instruccion_recurso respuesta a 10 c))
  ejecutar_comando respuesta com_signal tokens c m =
      con_1 tokens (λ a. sin_memoria m (instruccion_recurso respuesta a 11 c))
  ejecutar_comando respuesta com_gen_sleep tokens c m =
      con_2 tokens (λ a b. sin_memoria m (io_gen_sleep a b c))
  ejecutar_comando respuesta com_stdin_read tokens c m =
      con_3 tokens (λ a b d. io_stdin_stdout a b d 18 c m)
  ejecutar_comando respuesta com_stdout_write tokens c m =
      con_3 tokens (λ a b d. io_stdin_stdout a b d 19 c m)
  ejecutar_comando respuesta com_fs_create tokens c m =
      con_2 tokens (λ a b. sin_memoria m (io_fs_create_delete a b 22 c))
  ejecutar_comando respuesta com_fs_delete tokens c m =
      con_2 tokens (λ a b. sin_memoria m (io_fs_create_delete a b 23 c))
  ejecutar_comando respuesta com_fs_truncate tokens c m =
      con_3 tokens (λ a b d. sin_memoria m (instruccion_truncate a b d c))
  ejecutar_comando respuesta com_fs_write tokens c m =
      con_5 tokens (λ a b d e f. io_fs_write_read a b d e f 20 c m)
  ejecutar_comando respuesta com_fs_read tokens c m =
      con_5 tokens (λ a b d e f. io_fs_write_read a b d e f 21 c m)
  ejecutar_comando respuesta com_otro tokens c m = some (c, m)

  abbrev pub avanzar_pc : Cpu → Cpu
  avanzar_pc c = record c {
    registros = record (c.registros) { pc = (c.registros.pc + 1) % 2 ^ 32 };
  }

  -- The tokens are those that `string_split` gives.
  unfoldable pub ejecutar_instruccion : ℕ → Tokens → Cpu → Memoria → Option (Cpu × Memoria)
  ejecutar_instruccion respuesta [] c m = some (c, m)
  ejecutar_instruccion respuesta (comando ∷ resto) c m =
      ejecutar_comando respuesta (comando_de comando) (comando ∷ resto) (avanzar_pc c) m

  -- What the CPU runs with: the library's `list_sort` and `string_split`, the scripts, and the
  -- kernel's answer.
  module _ (list_sort : List Pic → List Pic) (string_split : List ℕ → Tokens)
      (fopen : List ℕ → Option (List (List ℕ))) (path : List ℕ) (respuesta : ℕ) where
    -- FETCH, over the connection. 8 is LEER_PROCESO, 5 INSTRUCCION.
    unfoldable pub fetch : Cpu → Memoria → Option (List ℕ)
    fetch c m = do
      b ← buffer_add_uint32 (buffer_create 8) c.pid_proceso
      b ← buffer_add_uint32 b c.registros.pc
      b ← entregar 8 b
      i ← leer_proceso fopen path b m
      b ← entregar 5 i
      leido ← buffer_read_string b
      some (cortar_linea leido.0)

    unfoldable pub ciclo_instruccion : Cpu → Memoria → Option (Cpu × Memoria)
    ciclo_instruccion c m = do
      leido ← fetch c m
      r ← ejecutar_instruccion respuesta (string_split leido) c m
      c' ← check_interrupt list_sort r.0.pid_proceso r.0
      some (c', r.1)

  -- What a round meets from outside: the kernel's answer to WAIT or SIGNAL, and the interrupts that
  -- the thread of the interrupts puts in the list before the round looks at it.
  pub record Ronda : Type 0 where
    pub respuesta : ℕ
    pub llegan : List Pic

  abbrev pub llegar : Ronda → Cpu → Cpu
  llegar r c = record c { list_interrupciones = c.list_interrupciones ++ r.llegan }

  -- `while (seguir_ejecucion)`: the state after the rounds of a list, or when the loop ends before.
  module _ (list_sort : List Pic → List Pic) (string_split : List ℕ → Tokens)
      (fopen : List ℕ → Option (List (List ℕ))) (path : List ℕ) where
    unfoldable pub ejecutar_bucle : List Ronda → Cpu → Memoria → Option (Cpu × Memoria)
    ejecutar_bucle [] c m = some (c, m)
    ejecutar_bucle (r ∷ rs) c m =
        let sigue =
          ciclo_instruccion list_sort string_split fopen path r.respuesta (llegar r c) m >>= λ x.
          ejecutar_bucle rs x.0 x.1 in
        if c.seguir_ejecucion then sigue else some (c, m)
