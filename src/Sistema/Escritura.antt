-- ===== src/Sistema/Escritura.antt =====
-- A write of the CPU, from `mmu` over the connection to the user space of memory.
use tp_2024_1c_pccsc.Common.{
  ℕ, ◌+◌, ◌*◌, ◌^◌, ◌≤◌, ◌<◌, some, List, [], ◌≡◌, ◌≢◌, ◌⊎◌, inl, inr, refl, sym, ◌∙◌, ap, arith,
  length, take, map, count, ◌>>=◌, lt→ltb,
}
use tp_2024_1c_pccsc.Common.Bitarray.{Bitarray}
use tp_2024_1c_pccsc.Common.Celdas.{celda, rango, map-map}
use tp_2024_1c_pccsc.Buffer.{Sbuffer, buffer_create, buffer_add_uint32}
use tp_2024_1c_pccsc.Buffer.Campos.{tamanio_campos}
use tp_2024_1c_pccsc.Cpu.Tlb.{Tlb}
use tp_2024_1c_pccsc.Cpu.Tlb.Coherencia.{Coherente}
use tp_2024_1c_pccsc.Cpu.Mmu.{Peticion, cantidad_peticiones, mmu_escribir}
use tp_2024_1c_pccsc.Memoria.{Pcb, Memoria, buscar_pcb}
use tp_2024_1c_pccsc.Memoria.Espacio.{vueltas, escribir_bucle, peticion_escritura}
use tp_2024_1c_pccsc.Memoria.Invariante.{Inv}
use tp_2024_1c_pccsc.Sistema.{entregar, tlb_miss, escribir_logica}
use tp_2024_1c_pccsc.Sistema.Mensajes.{
  Dentro, campos_escribir, cargar_peticiones_escribir_lem, aplicar, escribir_bucle_lem,
}
use tp_2024_1c_pccsc.Sistema.Aplicar.{partes-Contiguas, aplicar_lem}
use tp_2024_1c_pccsc.Sistema.Direcciones.{
  fisica_de, espacio_de, tamanio_de, fisica_de_unica, fisica_de_ajena,
}
use tp_2024_1c_pccsc.Sistema.Rangos.{
  count-imagen_fuera, Dentro_lem, tamanio-campos_escribir, campos_escribir-EnRango,
}
use tp_2024_1c_pccsc.Sistema.Entrega.{Empaquetado, empaquetar, leer_cabecera}
use tp_2024_1c_pccsc.Sistema.Acceso.{Acceso, Peticiones, Acceso-Peticiones}

afuera : (a n x y : ℕ) → (x < a) ⊎ (a + n ≤ x) → a ≤ y → y < a + n → y ≢ x
afuera a n x y (inl h) p q e = absurd (omega arith)
afuera a n x y (inr h) p q e = absurd (omega arith)

module _ ⦃bits : Bitarray⦄ (m : Memoria) (v : Inv m) (pid : ℕ) (p : Pcb)
    (e : buscar_pcb pid m.lista_pcb_tablas_paginas ≡ some p) where
  -- The message with the requests and the datum, packed by either side: memory applies them.
  pub pedir_escritura :
      (a bytes : ℕ) (dato : List ℕ) (t t' : Tlb) (ps : List Peticion) (m' : Memoria)
      → Acceso m v pid p e a bytes
      → Peticiones m v pid p e a bytes t ps t'
      → Dentro dato ps
      → aplicar dato ps m ≡ some m'
      → (b b0 : Sbuffer) × Empaquetado pid
          (cantidad_peticiones m.config.tam_pagina a bytes)
          (campos_escribir dato ps)
          b
        × (entregar 35 b ≡ some b0)
        × (peticion_escritura b0 m ≡ some m')
  unfolding peticion_escritura
  pedir_escritura a bytes dato t t' ps m' h r d run =
      let k = cantidad_peticiones m.config.tam_pagina a bytes in
      let cs = campos_escribir dato ps in
      let tam : tamanio_campos cs ≡ 8 * k + bytes =
        omega (arith, tamanio-campos_escribir dato ps d, r.cuantas, r.largo) in
      let (b, w) = empaquetar pid k cs (omega (arith, h.mensaje_acotado)) in
      let (b0, b1, b2, e0, e1, e2, pend) =
        leer_cabecera 35 pid k cs b (omega arith) h.pid_acotado (omega (arith, h.mensaje_acotado))
          w.escrito in
      let k_chico : vueltas k ≡ length ps =
        rw (lt→ltb k (2 ^ 31) (omega (arith, h.mensaje_acotado))) (sym r.cuantas) in
      let lee =
        ap (λ z. escribir_bucle z b2 m) k_chico
        ∙ escribir_bucle_lem dato ps [] b2 m
            (campos_escribir-EnRango dato (length m.memoria) ps h.memoria_acotada r.en_memoria) pend
        ∙ run in
      (b, b0, w, e0, rw (e1, ◌>>=◌) (rw (e2, ◌>>=◌) lee))

  -- The run: it applies the requests that `mmu` made.
  escribir_logica-aplicar :
      (a bytes : ℕ) (dato : List ℕ) (t t' : Tlb) (ps : List Peticion) (m' : Memoria)
      → Acceso m v pid p e a bytes
      → Peticiones m v pid p e a bytes t ps t'
      → Dentro dato ps
      → aplicar dato ps m ≡ some m'
      → escribir_logica pid a dato bytes t m ≡ some (t', m')
  unfolding escribir_logica mmu_escribir
  escribir_logica-aplicar a bytes dato t t' ps m' h r d run =
      let k = cantidad_peticiones m.config.tam_pagina a bytes in
      let tam : tamanio_campos (campos_escribir dato ps) ≡ 8 * k + bytes =
        omega (arith, tamanio-campos_escribir dato ps d, r.cuantas, r.largo) in
      let (b, b0, w, e0, sirve) = pedir_escritura a bytes dato t t' ps m' h r d run in
      let size : 8 + 4 * k + 4 * k + bytes ≡ w.vacio = omega (arith, w.tamanio) in
      let con_pid : buffer_add_uint32 (buffer_create (8 + 4 * k + 4 * k + bytes)) pid
          ≡ some w.primero =
        ap (λ z. buffer_add_uint32 (buffer_create z) pid) size ∙ w.con_pid in
      let carga =
        cargar_peticiones_escribir_lem m.config.tam_pagina (tlb_miss m) pid dato ps w.segundo d
        ∙ w.con_campos in
      rw (con_pid, ◌>>=◌)
        (rw (w.con_cantidad, ◌>>=◌)
          (rw (r.hechas, ◌>>=◌) (rw (carga, ◌>>=◌) (rw (e0, ◌>>=◌) (rw (sirve, ◌>>=◌) refl)))))

  -- What a write leaves: the datum at its addresses, and all else as it was.
  pub record Escrita (a bytes : ℕ) (dato : List ℕ) (m' : Memoria) : Type 0 where
    pub espacio : List ℕ
    pub memoria : m' ≡ record m { memoria = espacio }
    pub largo : length espacio ≡ length m.memoria
    pub escrito : map (espacio_de m' p) (rango a bytes) ≡ take bytes dato
    pub propio :
        (x : ℕ)
        → x < tamanio_de m p
        → (x < a) ⊎ (a + bytes ≤ x)
        → espacio_de m' p x ≡ espacio_de m p x
    pub ajeno :
        (j : ℕ) (pj : Pcb) (x : ℕ)
        → pid ≢ j
        → buscar_pcb j m.lista_pcb_tablas_paginas ≡ some pj
        → x < tamanio_de m pj
        → espacio_de m' pj x ≡ espacio_de m pj x

  -- Requests that reach the images of a range leave the datum there, and nothing else.
  pub aplicar-Escrita :
      (a bytes : ℕ) (dato : List ℕ) (t t' : Tlb) (ps : List Peticion)
      → Acceso m v pid p e a bytes
      → Peticiones m v pid p e a bytes t ps t'
      → Dentro dato ps
      → (m' : Memoria) × (aplicar dato ps m ≡ some m') × Escrita a bytes dato m'
  aplicar-Escrita a bytes dato t t' ps h r d =
      let f = fisica_de m p in
      let (s, run, l, otros, propios) = aplicar_lem dato ps m d r.en_memoria r.unicas in
      let fuera : (y : ℕ)
          → ((x : ℕ) → a ≤ x → x < a + bytes → f x ≢ y)
          → celda s y ≡ celda m.memoria y =
        λ y k. otros y (ap (count y) r.imagenes ∙ count-imagen_fuera f y a bytes k) in
      let en : (x : ℕ) → x < a + bytes → x < tamanio_de m p = λ x c. omega (arith, h.en_proceso) in
      (
        record m { memoria = s },
        run,
        record {
          espacio = s;
          memoria = refl;
          largo = l;
          escrito =
              sym (map-map (celda s) f (rango a bytes))
              ∙ ap (map (celda s)) (sym r.imagenes)
              ∙ propios
              ∙ partes-Contiguas dato ps 0 r.contiguas d
              ∙ ap (λ z. take z dato) r.largo;
          propio = λ x hx c. fuera (f x) (λ y ay yb k.
              let q = fisica_de_unica m v pid p e y x (en y yb) hx k in
              afuera a bytes x y c ay yb q);
          ajeno = λ j pj x hj ej hx.
              fuera (fisica_de m pj x)
                (λ y ay yb. fisica_de_ajena m v pid p e j pj y x hj ej (en y yb) hx);
        },
      )

  -- A write of the CPU to a range of logical addresses inside a process, of a datum at least as long,
  -- with a TLB that agrees with memory and a message that fits a buffer: it succeeds; the process then
  -- finds the datum at its addresses and every other byte of its space as it was, no byte of another
  -- process changes, and the TLB still agrees with memory.
  pub escribir_logica_lem :
      (a bytes : ℕ) (dato : List ℕ) (t : Tlb)
      → Acceso m v pid p e a bytes
      → Coherente (tlb_miss m) t.tlb_list
      → bytes ≤ length dato
      → (t' : Tlb) × (m' : Memoria) × (escribir_logica pid a dato bytes t m ≡ some (t', m'))
        × Escrita a bytes dato m'
        × Coherente (tlb_miss m) t'.tlb_list
  escribir_logica_lem a bytes dato t h c hd =
      let (ps, t', r) = Acceso-Peticiones m v pid p e a bytes t h c in
      let d = Dentro_lem dato ps 0 r.contiguas (omega (arith, r.largo)) in
      let (m', run, w) = aplicar-Escrita a bytes dato t t' ps h r d in
      (t', m', escribir_logica-aplicar a bytes dato t t' ps m' h r d run, w, r.sigue_coherente)
