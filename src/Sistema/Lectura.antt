-- ===== src/Sistema/Lectura.antt =====
-- A read of the CPU, from `mmu` over the connection to the user space of memory and back.
use tp_2024_1c_pccsc.Common.{
  ℕ, ◌+◌, ◌*◌, ◌%◌, ◌^◌, ◌<◌, some, List, [], ◌∷◌, ◌++◌, replicate, ◌≡◌, refl, sym, ◌∙◌, ap, arith,
  length, length-replicate, map, ◌>>=◌, >>=-eq-some, lt→ltb,
}
use tp_2024_1c_pccsc.Common.Bitarray.{Bitarray}
use tp_2024_1c_pccsc.Common.Celdas.{celda, rango, map-map}
use tp_2024_1c_pccsc.Buffer.{
  Sbuffer, buffer_create, buffer_add_uint32, buffer_add_int, buffer_read_int, buffer_read_uint32,
}
use tp_2024_1c_pccsc.Buffer.Lectura.{Escrito, Pendiente, buffer_create-Escrito}
use tp_2024_1c_pccsc.Buffer.Campos.{
  Campo, entero, bytes_campos, tamanio_campos, agregar_campo, agregar_campos,
  agregar_campos-Escrito,
}
use tp_2024_1c_pccsc.Cpu.Lectura.{vueltas_size_t, juntar_bucle, juntar_respuesta}
use tp_2024_1c_pccsc.Cpu.Tlb.{Tlb}
use tp_2024_1c_pccsc.Cpu.Tlb.Coherencia.{Coherente}
use tp_2024_1c_pccsc.Cpu.Mmu.{Peticion, cantidad_peticiones, mmu_leer}
use tp_2024_1c_pccsc.Cpu.Mmu.Traduccion.{expandir}
use tp_2024_1c_pccsc.Memoria.{Pcb, Memoria, buscar_pcb}
use tp_2024_1c_pccsc.Memoria.Espacio.{
  vueltas, calcular_tamanio_bucle, calcular_tamanio_dato_lectura, leer_bucle, peticion_lectura,
}
use tp_2024_1c_pccsc.Memoria.Invariante.{Inv}
use tp_2024_1c_pccsc.Sistema.{entregar, tlb_miss, leer_logica}
use tp_2024_1c_pccsc.Sistema.Mensajes.{campos_leer, cargar_peticiones_leer_lem, leer_entero}
use tp_2024_1c_pccsc.Sistema.Direcciones.{fisica_de, espacio_de}
use tp_2024_1c_pccsc.Sistema.Entrega.{empaquetar, leer_cabecera, entregar-Escrito}
use tp_2024_1c_pccsc.Sistema.Acceso.{Acceso, Peticiones, Acceso-Peticiones}
use tp_2024_1c_pccsc.Sistema.Respuesta.{
  campos_dato, leido, leido-celdas, tamanio-campos_dato, tamanio-campos_leer, campos_leer-EnRango,
  campos_dato-EnRango, calcular_tamanio_bucle_lem, leer_bucle_lem, juntar_bucle_lem,
}

-- `buffer_create`, one number and the fields: a message packed whole.
empaquetar_rta :
    (k : ℕ) (cs : List Campo)
    → 4 + tamanio_campos cs < 2 ^ 32
    → (b1 : Sbuffer) × (b : Sbuffer) × (buffer_add_int (buffer_create (4 + tamanio_campos cs)) k
        ≡ some b1)
      × (agregar_campos b1 cs ≡ some b)
      × Escrito (tamanio_campos (entero k ∷ cs)) (bytes_campos (entero k ∷ cs)) b
unfolding agregar_campos agregar_campo buffer_add_int buffer_add_uint32
empaquetar_rta k cs h =
    let n = 4 + tamanio_campos cs in
    let (b, run, v) =
      agregar_campos-Escrito n (entero k ∷ cs) [] (buffer_create n) (buffer_create-Escrito n h)
        (omega arith) in
    let (b1, e1, run1) = >>=-eq-some (buffer_add_uint32 (buffer_create n) k) _ run in
    (b1, b, e1, run1, v)

module _ ⦃bits : Bitarray⦄ (m : Memoria) (v : Inv m) (pid : ℕ) (p : Pcb)
    (e : buscar_pcb pid m.lista_pcb_tablas_paginas ≡ some p) where
  -- Memory's side: from the fields of the request to those of the answer.
  peticion_lectura_lem :
      (a bytes : ℕ) (t t' : Tlb) (ps : List Peticion) (b0 b1 b2 b3 b4 : Sbuffer)
      → Acceso m v pid p e a bytes
      → Peticiones m v pid p e a bytes t ps t'
      → buffer_read_uint32 b0 ≡ some (pid, b1)
      → buffer_read_int b1 ≡ some (length ps, b2)
      → Pendiente (bytes_campos (campos_leer ps) ++ []) b2
      → buffer_add_int (buffer_create (4 + tamanio_campos (campos_dato m.memoria ps))) (length ps)
        ≡ some b3
      → agregar_campos b3 (campos_dato m.memoria ps) ≡ some b4
      → peticion_lectura b0 m ≡ some b4
  unfolding peticion_lectura calcular_tamanio_dato_lectura
  peticion_lectura_lem a bytes t t' ps b0 b1 b2 b3 b4 h r e1 e2 pend e3 e4 =
      let k = length ps in
      let rango_ok = campos_leer-EnRango (length m.memoria) ps h.memoria_acotada r.en_memoria in
      let k_chico : vueltas k ≡ k =
        rw (lt→ltb k (2 ^ 31) (omega (arith, h.mensaje_acotado, r.cuantas))) refl in
      let tam : calcular_tamanio_bucle (vueltas k) b2 0 ≡ some (length (expandir ps)) =
        ap (λ z. calcular_tamanio_bucle z b2 0) k_chico
        ∙ calcular_tamanio_bucle_lem ps [] b2 0 rango_ok (omega (arith, h.mensaje_acotado, r.largo))
            pend
        ∙ ap some (omega arith) in
      let size : (4 + 4 * k + length (expandir ps)) % 2 ^ 32
          ≡ 4 + tamanio_campos (campos_dato m.memoria ps) =
        omega (
          arith,
          tamanio-campos_dato m.memoria ps r.en_memoria,
          h.mensaje_acotado,
          r.largo,
          r.cuantas,
        ) in
      let crea = ap (λ z. buffer_add_int (buffer_create z) k) size ∙ e3 in
      let lee =
        ap (λ z. leer_bucle z b2 b3 m) k_chico
        ∙ leer_bucle_lem ps [] b2 b3 m rango_ok r.en_memoria pend
        ∙ e4 in
      rw (e1, ◌>>=◌) (rw (e2, ◌>>=◌) (rw (tam, ◌>>=◌) (rw (crea, ◌>>=◌) lee)))

  -- A message with the requests, packed by either side: memory answers with what the process has there.
  pub pedir_lectura :
      (a bytes : ℕ) (t t' : Tlb) (ps : List Peticion) (b : Sbuffer)
      → Acceso m v pid p e a bytes
      → Peticiones m v pid p e a bytes t ps t'
      → Escrito
          (8 + tamanio_campos (campos_leer ps))
          (bytes_campos (
            entero pid ∷ entero (cantidad_peticiones m.config.tam_pagina a bytes) ∷ campos_leer ps))
          b
      → (b0 b4 b5 : Sbuffer) × (entregar 36 b ≡ some b0)
        × (peticion_lectura b0 m ≡ some b4)
        × (entregar 36 b4 ≡ some b5)
        × (juntar_respuesta b5 bytes ≡ some (map (espacio_de m p) (rango a bytes)))
  unfolding juntar_respuesta buffer_read_int buffer_read_uint32
  pedir_lectura a bytes t t' ps b h r w =
      let k = cantidad_peticiones m.config.tam_pagina a bytes in
      let cs = campos_leer ps in
      let ds = campos_dato m.memoria ps in
      let tds = tamanio-campos_dato m.memoria ps r.en_memoria in
      let (b0, b1, b2, e0, e1, e2, pend) =
        leer_cabecera 36 pid k cs b (omega arith) h.pid_acotado (omega (arith, h.mensaje_acotado))
          w in
      let (b3, b4, e3, e4, w4) =
        empaquetar_rta (length ps) ds (omega (arith, h.mensaje_acotado, r.cuantas, r.largo)) in
      let e2' = e2 ∙ ap (λ z. some (z, b2)) (sym r.cuantas) in
      let sirve = peticion_lectura_lem a bytes t t' ps b0 b1 b2 b3 b4 h r e1 e2' pend e3 e4 in
      let (b5, e5, p5) = entregar-Escrito 36 (entero (length ps) ∷ ds) b4 (omega arith) w4 in
      let (b6, e6, p6) =
        leer_entero (length ps) ds [] b5 (omega (arith, h.mensaje_acotado, r.cuantas)) p5 in
      let vueltas_ok : vueltas_size_t (length ps) ≡ length ps =
        rw (lt→ltb (length ps) (2 ^ 31) (omega (arith, h.mensaje_acotado, r.cuantas))) refl in
      let ceros : List ℕ = replicate bytes 0 in
      let lb : length ceros ≡ bytes = length-replicate {A = ℕ} bytes 0 in
      let junta =
        ap (λ z. juntar_bucle z b6 0 ceros) vueltas_ok
        ∙ juntar_bucle_lem m.memoria ps [] b6 [] ceros
            (campos_dato-EnRango m.memoria ps h.memoria_acotada r.en_memoria) r.en_memoria
            (lb ∙ sym r.largo) (omega (arith, lb, h.logica_acotada)) p6 in
      let valor : leido m.memoria ps ≡ map (espacio_de m p) (rango a bytes) =
        leido-celdas m.memoria ps r.en_memoria
        ∙ ap (map (celda m.memoria)) r.imagenes
        ∙ map-map (celda m.memoria) (fisica_de m p) (rango a bytes) in
      (b0, b4, b5, e0, sirve, e5, rw (e6, ◌>>=◌) (junta ∙ ap some valor))

  -- A read of the CPU from a range of logical addresses inside a process, with a TLB that agrees with
  -- memory and a message that fits a buffer: it succeeds with the bytes of the process's space at
  -- those addresses, in order, and the TLB still agrees with memory.
  pub leer_logica_lem :
      (a bytes : ℕ) (t : Tlb)
      → Acceso m v pid p e a bytes
      → Coherente (tlb_miss m) t.tlb_list
      → (t' : Tlb) × (leer_logica pid a bytes t m ≡ some (map (espacio_de m p) (rango a bytes), t'))
        × Coherente (tlb_miss m) t'.tlb_list
  unfolding leer_logica mmu_leer
  leer_logica_lem a bytes t h c =
      let (ps, t', r) = Acceso-Peticiones m v pid p e a bytes t h c in
      let k = cantidad_peticiones m.config.tam_pagina a bytes in
      let cs = campos_leer ps in
      let tcs = tamanio-campos_leer ps in
      let (b, w) = empaquetar pid k cs (omega (arith, h.mensaje_acotado, r.cuantas)) in
      let (b0, b4, b5, e0, sirve, e5, junta) = pedir_lectura a bytes t t' ps b h r w.escrito in
      let size : 8 + 4 * k + 4 * k ≡ w.vacio = omega (arith, w.tamanio, r.cuantas) in
      let con_pid : buffer_add_uint32 (buffer_create (8 + 4 * k + 4 * k)) pid ≡ some w.primero =
        ap (λ z. buffer_add_uint32 (buffer_create z) pid) size ∙ w.con_pid in
      let carga =
        cargar_peticiones_leer_lem m.config.tam_pagina (tlb_miss m) pid ps w.segundo
        ∙ w.con_campos in
      (
        t',
        rw (con_pid, ◌>>=◌)
            (rw (w.con_cantidad, ◌>>=◌)
              (rw (r.hechas, ◌>>=◌)
                (rw (carga, ◌>>=◌)
                  (rw (e0, ◌>>=◌) (rw (sirve, ◌>>=◌) (rw (e5, ◌>>=◌) (rw (junta, ◌>>=◌) refl))))))),
        r.sigue_coherente,
      )
