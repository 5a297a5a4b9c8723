-- ===== src/Sistema/IdaVuelta.antt =====
-- Writes and reads of the CPU, one after the other.
use tp_2024_1c_pccsc.Common.{ℕ, ◌≤◌, some, List, ◌≡◌, sym, ◌∙◌, ap, arith, length, take, map, ◌>>=◌}
use tp_2024_1c_pccsc.Common.Bitarray.{Bitarray}
use tp_2024_1c_pccsc.Common.Celdas.{rango, length-rango, length-map}
use tp_2024_1c_pccsc.Cpu.Tlb.{Tlb, EntradaTlb}
use tp_2024_1c_pccsc.Cpu.Tlb.Coherencia.{Coherente}
use tp_2024_1c_pccsc.Memoria.{Pcb, Memoria, buscar_pcb, obtener_marco_proceso, get_element_from_pid}
use tp_2024_1c_pccsc.Memoria.Invariante.{Inv}
use tp_2024_1c_pccsc.Sistema.{tlb_miss, escribir_logica, leer_logica, copy_string}
use tp_2024_1c_pccsc.Sistema.Direcciones.{espacio_de}
use tp_2024_1c_pccsc.Sistema.Acceso.{Acceso}
use tp_2024_1c_pccsc.Sistema.Escritura.{Escrita, escribir_logica_lem}
use tp_2024_1c_pccsc.Sistema.Lectura.{leer_logica_lem}

module _ ⦃bits : Bitarray⦄ where
  -- The invariant of memory does not depend on what the bytes of the user space are.
  pub Inv-memoria :
      (m : Memoria) (s : List ℕ)
      → Inv m
      → length s ≡ length m.memoria
      → Inv (record m { memoria = s })
  Inv-memoria m s v h = record {
    pagina_pos = v.pagina_pos;
    totales = v.totales;
    espacio = h ∙ v.espacio;
    bitmap = v.bitmap;
    duenio = v.duenio;
  }

  Coherente-memoria :
      (m : Memoria) (s : List ℕ) (es : List EntradaTlb)
      → Coherente (tlb_miss m) es
      → Coherente (tlb_miss (record m { memoria = s })) es
  unfolding obtener_marco_proceso get_element_from_pid
  Coherente-memoria m s es h = h

  module _ (m : Memoria) (v : Inv m) (pid : ℕ) (p : Pcb)
      (e : buscar_pcb pid m.lista_pcb_tablas_paginas ≡ some p) where
    -- What the CPU writes to a range inside a process, with a TLB that agrees with memory and messages
    -- that fit a buffer, is what it reads from the same range next.
    pub escribir-leer :
        (a bytes : ℕ) (dato : List ℕ) (t : Tlb)
        → Acceso m v pid p e a bytes
        → Coherente (tlb_miss m) t.tlb_list
        → bytes ≤ length dato
        → (t' t2 : Tlb) × (m' : Memoria) × (escribir_logica pid a dato bytes t m ≡ some (t', m'))
          × (leer_logica pid a bytes t' m' ≡ some (take bytes dato, t2))
    escribir-leer a bytes dato t h c hd =
        let (t', m', run, w, coh) = escribir_logica_lem m v pid p e a bytes dato t h c hd in
        let s = w.espacio in
        let m2 = record m { memoria = s } in
        let h2 : Acceso m2 (Inv-memoria m s v w.largo) pid p e a bytes = record {
          no_vacio = h.no_vacio;
          en_proceso = h.en_proceso;
          pid_acotado = h.pid_acotado;
          logica_acotada = h.logica_acotada;
          memoria_acotada = omega (arith, w.largo, h.memoria_acotada);
          mensaje_acotado = h.mensaje_acotado;
        } in
        let (t2, run2, _) =
          leer_logica_lem m2 (Inv-memoria m s v w.largo) pid p e a bytes t' h2
            (Coherente-memoria m s t'.tlb_list coh) in
        (
          t',
          t2,
          m',
          run,
          ap (leer_logica pid a bytes t') w.memoria
              ∙ run2
              ∙ ap (λ z. some (map (espacio_de z p) (rango a bytes), t2)) (sym w.memoria)
              ∙ ap (λ z. some (z, t2)) w.escrito,
        )

    -- COPY_STRING between two ranges inside a process, which may overlap, with a TLB that agrees with
    -- memory and messages that fit a buffer: it succeeds, the second range then holds what the first
    -- one held before, and no other byte of this or of another process changes.
    pub copy_string_lem :
        (si di bytes : ℕ) (t : Tlb)
        → Acceso m v pid p e si bytes
        → Acceso m v pid p e di bytes
        → Coherente (tlb_miss m) t.tlb_list
        → (t' : Tlb) × (m' : Memoria) × (copy_string pid si di bytes t m ≡ some (t', m'))
          × Escrita m v pid p e di bytes (map (espacio_de m p) (rango si bytes)) m'
    unfolding copy_string
    copy_string_lem si di bytes t h k c =
        let (t1, run, coh) = leer_logica_lem m v pid p e si bytes t h c in
        let dato = map (espacio_de m p) (rango si bytes) in
        let l : length dato ≡ bytes =
          length-map (espacio_de m p) (rango si bytes) ∙ length-rango si bytes in
        let (t2, m', run2, w, _) =
          escribir_logica_lem m v pid p e di bytes dato t1 k coh (omega arith) in
        (t2, m', rw (run, ◌>>=◌) run2, w)
