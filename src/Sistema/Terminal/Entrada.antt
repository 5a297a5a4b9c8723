-- ===== src/Sistema/Terminal/Entrada.antt =====
-- What is typed at STDIN reaches the addresses of the process.
use tp_2024_1c_pccsc.Common.{
  ℕ, ◌+◌, ◌*◌, ◌%◌, ◌^◌, ◌<◌, some, List, [], ◌∷◌, ◌++◌, ◌≡◌, refl, sym, ◌∙◌, ap, arith, length,
  length-append, count, subst, ◌==◌, ◌⊎◌, inl, inr, false, ◌>>=◌, >>=-ap, lt→ltb,
}
use tp_2024_1c_pccsc.Common.Bitarray.{Bitarray}
use tp_2024_1c_pccsc.Common.Bytes.{copiar_de, copiar_de-fits}
use tp_2024_1c_pccsc.Buffer.{
  Sbuffer, add_uint32, buffer_create, buffer_add_uint32, buffer_add_void, buffer_add_string,
  buffer_read_uint32, buffer_read_int,
}
use tp_2024_1c_pccsc.Buffer.Lectura.{Pendiente}
use tp_2024_1c_pccsc.Buffer.Campos.{entero, EnRango, bytes_campos, agregar_campo, agregar_campos}
use tp_2024_1c_pccsc.Cpu.Lectura.{vueltas_size_t}
use tp_2024_1c_pccsc.Cpu.Tlb.{Tlb}
use tp_2024_1c_pccsc.Cpu.Mmu.{Peticion, cantidad_peticiones}
use tp_2024_1c_pccsc.Cpu.Mmu.Traduccion.{Contiguas}
use tp_2024_1c_pccsc.Memoria.{Pcb, Memoria, buscar_pcb}
use tp_2024_1c_pccsc.Memoria.Invariante.{Inv}
use tp_2024_1c_pccsc.Sistema.Mensajes.{parte, Dentro, campos_escribir, campos_leer, leer_entero}
use tp_2024_1c_pccsc.Sistema.Rangos.{Dentro_lem, tamanio-campos_escribir}
use tp_2024_1c_pccsc.Sistema.Respuesta.{campos_leer-EnRango}
use tp_2024_1c_pccsc.Sistema.Acceso.{Acceso, Peticiones}
use tp_2024_1c_pccsc.Sistema.Escritura.{Escrita, pedir_escritura, aplicar-Escrita}
use tp_2024_1c_pccsc.Sistema.Terminal.{stdin_bucle, sin_salto, io_stdin_read}

stdin_bucle_lem :
    (ps : List Peticion) (dato resto : List ℕ) (enviados : ℕ) (direcciones b : Sbuffer)
    → EnRango (campos_leer ps)
    → Dentro dato ps
    → Contiguas enviados ps
    → length dato < 2 ^ 32
    → Pendiente (bytes_campos (campos_leer ps) ++ resto) direcciones
    → stdin_bucle (length ps) dato enviados direcciones b
      ≡ agregar_campos b (campos_escribir dato ps)
unfolding stdin_bucle agregar_campos agregar_campo buffer_add_void buffer_add_string
stdin_bucle_lem [] dato resto enviados direcciones b r d c h v = refl
stdin_bucle_lem (p ∷ ps) dato resto enviados direcciones b r d c h v =
    let (b1, e1, v1) =
      leer_entero p.direccion_fisica (entero p.bytes ∷ campos_leer ps) resto direcciones r.0 v in
    let (b2, e2, v2) = leer_entero p.bytes (campos_leer ps) resto b1 r.1.0 v1 in
    let d0 = d.0 in
    let c0 = c.0 in
    let copia : copiar_de dato enviados p.bytes ≡ some (parte dato p) =
      ap (λ z. copiar_de dato z p.bytes) (sym c0) ∙ copiar_de-fits dato p.desde p.bytes d0 in
    let suma : add_uint32 enviados p.bytes ≡ enviados + p.bytes = omega arith in
    rw (e1, ◌>>=◌)
      (>>=-ap (buffer_add_uint32 b p.direccion_fisica) _ _ (λ m1.
        rw (e2, ◌>>=◌)
          (rw (copia, ◌>>=◌)
            (>>=-ap (buffer_add_string m1 (parte dato p)) _ _ (λ m2.
              ap (λ z. stdin_bucle (length ps) dato z b2 m2) suma
              ∙ stdin_bucle_lem ps dato resto (enviados + p.bytes) b2 m2 r.1.1 d.1 c.1 h v2)))))

-- The first newline of a line typed, or its NUL, gives way to a NUL; the line has neither.
sin_salto_lem :
    (linea resto : List ℕ) (x : ℕ)
    → count 10 linea ≡ 0
    → count 0 linea ≡ 0
    → (x ≡ 10) ⊎ (x ≡ 0)
    → sin_salto (linea ++ x ∷ resto) ≡ linea ++ 0 ∷ resto
unfolding sin_salto
sin_salto_lem [] resto x h k (inl e) = rw (e, sin_salto) refl
sin_salto_lem [] resto x h k (inr e) = rw (e, sin_salto) refl
sin_salto_lem (c ∷ cs) resto x h k e =
    let a : (c == 10) ≡ false = ground arith in
    let b : (c == 0) ≡ false = ground arith in
    rw (a, b, sin_salto) (ap (◌∷◌ c) (sin_salto_lem cs resto x (omega arith) (omega arith) e))

module _ ⦃bits : Bitarray⦄ (m : Memoria) (v : Inv m) (pid : ℕ) (p : Pcb)
    (e : buscar_pcb pid m.lista_pcb_tablas_paginas ≡ some p) where
  -- The block that is sent, whatever was typed.
  stdin-bloque :
      (a size : ℕ) (input : List ℕ) (t t' : Tlb) (ps : List Peticion) (direcciones : Sbuffer)
      → Acceso m v pid p e a size
      → Peticiones m v pid p e a size t ps t'
      → length (sin_salto input) ≡ size + 1
      → Pendiente
          (bytes_campos (
              entero pid ∷ entero (cantidad_peticiones m.config.tam_pagina a size) ∷ campos_leer ps)
            ++ [])
          direcciones
      → (m' : Memoria) × (io_stdin_read direcciones size (some input) m ≡ some m')
        × Escrita m v pid p e a size (sin_salto input) m'
  unfolding io_stdin_read buffer_read_int buffer_read_uint32
  stdin-bloque a size tecleado t t' ps direcciones h r l w =
      let input = sin_salto tecleado in
      let k = cantidad_peticiones m.config.tam_pagina a size in
      let d = Dentro_lem input ps 0 r.contiguas (omega (arith, r.largo)) in
      let (m', run, fin) = aplicar-Escrita m v pid p e a size input t t' ps h r d in
      let (b, b0, q, e0, sirve) = pedir_escritura m v pid p e a size input t t' ps m' h r d run in
      let (b1, e1, w1) =
        leer_entero pid (entero k ∷ campos_leer ps) [] direcciones h.pid_acotado w in
      let (b2, e2, w2) =
        leer_entero k (campos_leer ps) [] b1 (omega (arith, h.mensaje_acotado)) w1 in
      let size_ok : (8 + 4 * k + 4 * k + size) % 2 ^ 32 ≡ q.vacio = omega (
        arith,
        q.tamanio,
        tamanio-campos_escribir input ps d,
        r.cuantas,
        r.largo,
        h.mensaje_acotado,
      ) in
      let con_pid : buffer_add_uint32 (buffer_create ((8 + 4 * k + 4 * k + size) % 2 ^ 32)) pid
          ≡ some q.primero =
        ap (λ z. buffer_add_uint32 (buffer_create z) pid) size_ok ∙ q.con_pid in
      let vueltas_ok : vueltas_size_t k ≡ length ps =
        rw (lt→ltb k (2 ^ 31) (omega (arith, h.mensaje_acotado))) (sym r.cuantas) in
      let carga =
        ap (λ z. stdin_bucle z input 0 b2 q.segundo) vueltas_ok
        ∙ stdin_bucle_lem ps input [] 0 b2 q.segundo
            (campos_leer-EnRango (length m.memoria) ps h.memoria_acotada r.en_memoria) d r.contiguas
            (omega (arith, h.mensaje_acotado)) w2
        ∙ q.con_campos in
      (
        m',
        rw (e1, ◌>>=◌)
            (rw (e2, ◌>>=◌)
              (rw (con_pid, ◌>>=◌)
                (rw (q.con_cantidad, ◌>>=◌) (rw (carga, ◌>>=◌) (rw (e0, ◌>>=◌) sirve))))),
        fin,
      )

  -- IO_STDIN_READ of `size` bytes, when `fgets` has left a line in the block of `size + 1` bytes: `linea`,
  -- then a newline or the NUL at the end, then the rest of the block. With a message that fits a buffer
  -- and holds the requests that `mmu` made for a range inside the process, it succeeds: the process then
  -- finds at its addresses the first `size` bytes of the line, a NUL and the rest of the block, every
  -- other byte of its space is as it was, and no byte of another process changes.
  pub io_stdin_read_lem :
      (a size x : ℕ) (linea resto : List ℕ) (t t' : Tlb) (ps : List Peticion)
      (direcciones : Sbuffer)
      → Acceso m v pid p e a size
      → Peticiones m v pid p e a size t ps t'
      → count 10 linea ≡ 0
      → count 0 linea ≡ 0
      → (x ≡ 10) ⊎ (x ≡ 0)
      → length linea + 1 + length resto ≡ size + 1
      → Pendiente
          (bytes_campos (
              entero pid ∷ entero (cantidad_peticiones m.config.tam_pagina a size) ∷ campos_leer ps)
            ++ [])
          direcciones
      → (m' : Memoria) × (io_stdin_read direcciones size (some (linea ++ x ∷ resto)) m ≡ some m')
        × Escrita m v pid p e a size (linea ++ 0 ∷ resto) m'
  io_stdin_read_lem a size x linea resto t t' ps direcciones h r s10 s0 hx l w =
      let z = sin_salto_lem linea resto x s10 s0 hx in
      let largo : length (sin_salto (linea ++ x ∷ resto)) ≡ size + 1 =
        ap length z ∙ length-append linea (0 ∷ resto) ∙ omega (arith, l) in
      let (m', run, fin) =
        stdin-bloque a size (linea ++ x ∷ resto) t t' ps direcciones h r largo w in
      (m', run, subst (λ d. Escrita m v pid p e a size d m') z fin)
