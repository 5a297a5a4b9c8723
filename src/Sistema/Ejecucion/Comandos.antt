-- ===== src/Sistema/Ejecucion/Comandos.antt =====
-- Every instruction is one step of the CPU.
use tp_2024_1c_pccsc.Common.{
  ℕ, ◌+◌, ◌<◌, arith, count, Option, none, some, List, ◌≡◌, inl, inr, refl, ap, length, get_elem?,
  >>=-eq-some, some-inj,
}
use tp_2024_1c_pccsc.Common.Bitarray.{Bitarray}
use tp_2024_1c_pccsc.Buffer.{
  RegistrosCpu, buffer_create, buffer_add_uint32, buffer_add_string, buffer_add_registros,
  buffer_add_buffer,
}
use tp_2024_1c_pccsc.Cpu.Mmu.{mmu_leer}
use tp_2024_1c_pccsc.Cpu.Registros.{obtener_valor_registro, set, sum, sub, jnz}
use tp_2024_1c_pccsc.Cpu.Interrupciones.{Cpu, enviar}
use tp_2024_1c_pccsc.Memoria.{Memoria}
use tp_2024_1c_pccsc.Sistema.{tlb_miss}
use tp_2024_1c_pccsc.Sistema.Instrucciones.{
  con_registros, detener, abandonar, instruccion_recurso, io_gen_sleep, io_fs_create_delete,
  instruccion_truncate, io_stdin_stdout, io_fs_write_read,
}
use tp_2024_1c_pccsc.Sistema.Ejecucion.{
  Tokens, con_1, con_2, con_3, con_5, sin_memoria, Comando, ejecutar_comando, com_set, com_sum,
  com_sub, com_jnz, com_exit, com_resize, com_mov_out, com_mov_in, com_copy_string, com_wait,
  com_signal, com_gen_sleep, com_stdin_read, com_stdout_write, com_fs_create, com_fs_delete,
  com_fs_truncate, com_fs_write, com_fs_read, com_otro,
}
use tp_2024_1c_pccsc.Sistema.Ejecucion.Desalojos.{
  codigos_desalojo, registros, con_uint32, con_string, con_buffer, sigue, desaloja, PasoInstruccion,
  sigue_igual, con_registros-Paso, abandonar-Paso, instruccion_recurso-Paso, io_gen_sleep-Paso,
  io_fs_create_delete-Paso, instruccion_truncate-Paso, sin_memoria-Paso, resize-Paso, mov_out-Paso,
  mov_in-Paso, copiar-Paso,
}

module _ ⦃bits : Bitarray⦄ where
  io_stdin_stdout-Paso :
      (rta : ℕ) (n a t : List ℕ) (mensaje : ℕ) (c : Cpu) (m : Memoria) (r : Cpu × Memoria)
      → 0 < count mensaje codigos_desalojo
      → io_stdin_stdout n a t mensaje c m ≡ some r
      → PasoInstruccion rta c r.0
  unfolding io_stdin_stdout
  io_stdin_stdout-Paso rta n a t mensaje c m r k h =
      let (l, _, e0) = >>=-eq-some (obtener_valor_registro a c.registros) _ h in
      let (x, _, e1) = >>=-eq-some (obtener_valor_registro t c.registros) _ e0 in
      let (u, _, e2) =
        >>=-eq-some (mmu_leer m.config.tam_pagina (tlb_miss m) c.pid_proceso l x c.tlb) _ e1 in
      let (b0, _, e3) =
        >>=-eq-some (buffer_add_string (buffer_create (length n + 4 + (u.0.size + 4) + 36)) n) _
          e2 in
      let (b1, d4, e4) = >>=-eq-some (buffer_add_registros b0 c.registros) _ e3 in
      let (b2, d5, e5) = >>=-eq-some (buffer_add_uint32 b1 x) _ e4 in
      let (b3, d6, e6) = >>=-eq-some (buffer_add_buffer b2 u.0) _ e5 in
      let d = enviar mensaje b3 (detener (record c { tlb = u.1 })) in
      let z : (d, m) ≡ r = some-inj e6 in
      sigue_igual c d r.0
        (
          desaloja (mensaje, b3) (inl k)
              (con_buffer b2 u.0 (con_uint32 b1 x (registros b0 d4) d5) d6) refl refl refl,
          refl,
          refl,
        )
        (ap (λ w. w.0) z)

  io_fs_write_read-Paso :
      (rta : ℕ) (n f rd rt rp : List ℕ) (mensaje : ℕ) (c : Cpu) (m : Memoria) (r : Cpu × Memoria)
      → 0 < count mensaje codigos_desalojo
      → io_fs_write_read n f rd rt rp mensaje c m ≡ some r
      → PasoInstruccion rta c r.0
  unfolding io_fs_write_read
  io_fs_write_read-Paso rta n f rd rt rp mensaje c m r k h =
      let (l, _, e0) = >>=-eq-some (obtener_valor_registro rd c.registros) _ h in
      let (x, _, e1) = >>=-eq-some (obtener_valor_registro rt c.registros) _ e0 in
      let (y, _, e2) = >>=-eq-some (obtener_valor_registro rp c.registros) _ e1 in
      let (u, _, e3) =
        >>=-eq-some (mmu_leer m.config.tam_pagina (tlb_miss m) c.pid_proceso l x c.tlb) _ e2 in
      let (b0, _, e4) =
        >>=-eq-some
          (buffer_add_string (buffer_create (length n + 4 + (length f + 4) + 40 + (u.0.size + 4)))
            n)
          _ e3 in
      let (b1, d5, e5) = >>=-eq-some (buffer_add_registros b0 c.registros) _ e4 in
      let (b2, d6, e6) = >>=-eq-some (buffer_add_string b1 f) _ e5 in
      let (b3, d7, e7) = >>=-eq-some (buffer_add_uint32 b2 x) _ e6 in
      let (b4, d8, e8) = >>=-eq-some (buffer_add_uint32 b3 y) _ e7 in
      let (b5, d9, e9) = >>=-eq-some (buffer_add_buffer b4 u.0) _ e8 in
      let d = enviar mensaje b5 (detener (record c { tlb = u.1 })) in
      let z : (d, m) ≡ r = some-inj e9 in
      sigue_igual c d r.0
        (
          desaloja (mensaje, b5) (inl k)
              (con_buffer b4 u.0
                (con_uint32 b3 y (con_uint32 b2 x (con_string b1 f (registros b0 d5) d6) d7) d8) d9)
              refl refl refl,
          refl,
          refl,
        )
        (ap (λ w. w.0) z)

  -- Instructions with arguments.
  module _ (tokens : Tokens) (P : Cpu × Memoria → Type 0) (r : Cpu × Memoria) where
    paso_1 :
        (f : List ℕ → Option (Cpu × Memoria))
        → ((a : List ℕ) → f a ≡ some r → P r)
        → con_1 tokens f ≡ some r
        → P r
    paso_1 f k h = let (a, _, e) = >>=-eq-some (get_elem? tokens 1) _ h in k a e

    paso_2 :
        (f : List ℕ → List ℕ → Option (Cpu × Memoria))
        → ((a b : List ℕ) → f a b ≡ some r → P r)
        → con_2 tokens f ≡ some r
        → P r
    paso_2 f k h =
        let (a, _, e) = >>=-eq-some (get_elem? tokens 1) _ h in
        let (b, _, e') = >>=-eq-some (get_elem? tokens 2) _ e in k a b e'

    paso_3 :
        (f : List ℕ → List ℕ → List ℕ → Option (Cpu × Memoria))
        → ((a b d : List ℕ) → f a b d ≡ some r → P r)
        → con_3 tokens f ≡ some r
        → P r
    paso_3 f k h =
        let (a, _, e) = >>=-eq-some (get_elem? tokens 1) _ h in
        let (b, _, e') = >>=-eq-some (get_elem? tokens 2) _ e in
        let (d, _, e2) = >>=-eq-some (get_elem? tokens 3) _ e' in k a b d e2

    paso_5 :
        (f : List ℕ → List ℕ → List ℕ → List ℕ → List ℕ → Option (Cpu × Memoria))
        → ((a b d x y : List ℕ) → f a b d x y ≡ some r → P r)
        → con_5 tokens f ≡ some r
        → P r
    paso_5 f k h =
        let (a, _, e) = >>=-eq-some (get_elem? tokens 1) _ h in
        let (b, _, e') = >>=-eq-some (get_elem? tokens 2) _ e in
        let (d, _, e2) = >>=-eq-some (get_elem? tokens 3) _ e' in
        let (x, _, e3) = >>=-eq-some (get_elem? tokens 4) _ e2 in
        let (y, _, e4) = >>=-eq-some (get_elem? tokens 5) _ e3 in k a b d x y e4

  module _ (respuesta : ℕ) (tokens : Tokens) (c : Cpu) (m : Memoria) (r : Cpu × Memoria) where
    abbrev De : Cpu × Memoria → Type 0
    De r = PasoInstruccion respuesta c r.0

    registros_2 :
        (f : List ℕ → List ℕ → RegistrosCpu → Option RegistrosCpu)
        → con_2 tokens (λ a b. sin_memoria m (con_registros c (f a b c.registros))) ≡ some r
        → PasoInstruccion respuesta c r.0
    registros_2 f h =
        paso_2 tokens De r _
          (λ a b.
            sin_memoria-Paso m (con_registros c (f a b c.registros)) c r
              (λ c'. con_registros-Paso c c' (f a b c.registros)))
          h

    pub ejecutar_comando-Paso :
        (comando : Comando)
        → ejecutar_comando respuesta comando tokens c m ≡ some r
        → PasoInstruccion respuesta c r.0
    unfolding ejecutar_comando
    ejecutar_comando-Paso com_set h = registros_2 set h
    ejecutar_comando-Paso com_sum h = registros_2 sum h
    ejecutar_comando-Paso com_sub h = registros_2 sub h
    ejecutar_comando-Paso com_jnz h = registros_2 jnz h
    ejecutar_comando-Paso com_exit h =
        sin_memoria-Paso m (abandonar none 9 c) c r (λ c'. abandonar-Paso none 9 c c' (omega arith))
          h
    ejecutar_comando-Paso com_resize h = paso_1 tokens De r _ (λ a. resize-Paso a c m r) h
    ejecutar_comando-Paso com_mov_out h = paso_2 tokens De r _ (λ a b. mov_out-Paso a b c m r) h
    ejecutar_comando-Paso com_mov_in h = paso_2 tokens De r _ (λ a b. mov_in-Paso a b c m r) h
    ejecutar_comando-Paso com_copy_string h = paso_1 tokens De r _ (λ a. copiar-Paso a c m r) h
    ejecutar_comando-Paso com_wait h =
        paso_1 tokens De r _
          (λ a.
            sin_memoria-Paso m (instruccion_recurso respuesta a 10 c) c r
              (λ c'. instruccion_recurso-Paso respuesta a 10 c c' (inl refl)))
          h
    ejecutar_comando-Paso com_signal h =
        paso_1 tokens De r _
          (λ a.
            sin_memoria-Paso m (instruccion_recurso respuesta a 11 c) c r
              (λ c'. instruccion_recurso-Paso respuesta a 11 c c' (inr refl)))
          h
    ejecutar_comando-Paso com_gen_sleep h =
        paso_2 tokens De r _
          (λ a b. sin_memoria-Paso m (io_gen_sleep a b c) c r (λ c'. io_gen_sleep-Paso a b c c')) h
    ejecutar_comando-Paso com_stdin_read h =
        paso_3 tokens De r _ (λ a b d. io_stdin_stdout-Paso respuesta a b d 18 c m r (omega arith))
          h
    ejecutar_comando-Paso com_stdout_write h =
        paso_3 tokens De r _ (λ a b d. io_stdin_stdout-Paso respuesta a b d 19 c m r (omega arith))
          h
    ejecutar_comando-Paso com_fs_create h =
        paso_2 tokens De r _
          (λ a b.
            sin_memoria-Paso m (io_fs_create_delete a b 22 c) c r
              (λ c'. io_fs_create_delete-Paso a b 22 c c' (omega arith)))
          h
    ejecutar_comando-Paso com_fs_delete h =
        paso_2 tokens De r _
          (λ a b.
            sin_memoria-Paso m (io_fs_create_delete a b 23 c) c r
              (λ c'. io_fs_create_delete-Paso a b 23 c c' (omega arith)))
          h
    ejecutar_comando-Paso com_fs_truncate h =
        paso_3 tokens De r _
          (λ a b d.
            sin_memoria-Paso m (instruccion_truncate a b d c) c r
              (λ c'. instruccion_truncate-Paso a b d c c'))
          h
    ejecutar_comando-Paso com_fs_write h =
        paso_5 tokens De r _
          (λ a b d x y. io_fs_write_read-Paso respuesta a b d x y 20 c m r (omega arith)) h
    ejecutar_comando-Paso com_fs_read h =
        paso_5 tokens De r _
          (λ a b d x y. io_fs_write_read-Paso respuesta a b d x y 21 c m r (omega arith)) h
    ejecutar_comando-Paso com_otro h =
        let z : (c, m) ≡ r = some-inj h in
        sigue_igual c c r.0 (sigue refl refl refl, refl, refl) (ap (λ w. w.0) z)
