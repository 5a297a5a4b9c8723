-- ===== src/Sistema/Ejecucion/Movimientos.antt =====
-- MOV_OUT and MOV_IN: a register stored at a logical address and loaded into another.
use tp_2024_1c_pccsc.Common.{
  ℕ, ◌^◌, ◌≤◌, ◌<◌, some, List, ◌≡◌, refl, sym, ◌∙◌, ap, subst, arith, length, take, ◌>>=◌,
}
use tp_2024_1c_pccsc.Common.Bitarray.{Bitarray}
use tp_2024_1c_pccsc.Common.Bytes.{bytes_uint32, valor-bytes_uint32}
use tp_2024_1c_pccsc.Buffer.{RegistrosCpu, valor_uint8}
use tp_2024_1c_pccsc.Cpu.Tlb.Coherencia.{Coherente}
use tp_2024_1c_pccsc.Cpu.Numeros.IdaVuelta.{atoi-cifras}
use tp_2024_1c_pccsc.Cpu.Registros.{
  TiposDeDato, uint8, uint32, Registro, valor, asignar, convertir, set,
}
use tp_2024_1c_pccsc.Cpu.Registros.Operaciones.{tipo_registro, Nombra, obtener_valor_registro_lem}
use tp_2024_1c_pccsc.Cpu.Interrupciones.{Cpu}
use tp_2024_1c_pccsc.Memoria.{Pcb, Memoria, buscar_pcb}
use tp_2024_1c_pccsc.Memoria.Invariante.{Inv}
use tp_2024_1c_pccsc.Sistema.{tlb_miss, leer_logica}
use tp_2024_1c_pccsc.Sistema.Acceso.{Acceso}
use tp_2024_1c_pccsc.Sistema.IdaVuelta.{escribir-leer}
use tp_2024_1c_pccsc.Sistema.Instrucciones.{mov_out, mov_in, snprintf_u, bytes_de_tipo, valor_leido}

-- The bytes of a value that are stored give the value back.
valor-almacenado :
    (t : TiposDeDato) (x : ℕ)
    → convertir t x ≡ x
    → valor_leido t (take (bytes_de_tipo t) (bytes_uint32 x)) ≡ x
unfolding valor_uint8 bytes_uint32
valor-almacenado uint8 x h = h
valor-almacenado uint32 x h = valor-bytes_uint32 x (omega arith)

set_lem :
    (n : List ℕ) (d : Registro) (x : ℕ) (r : RegistrosCpu)
    → Nombra n d
    → convertir (tipo_registro d) x ≡ x
    → x < 2 ^ 32
    → set n (snprintf_u x) r ≡ some (asignar d x r)
unfolding set snprintf_u
set_lem n d x r h k a =
    rw (h.tipo, ◌>>=◌)
      (rw (h.direccion, ◌>>=◌)
        (ap (λ z. some (asignar d (convertir (tipo_registro d) z) r)) (atoi-cifras x a)
          ∙ ap (λ z. some (asignar d z r)) k))

en_32_bits : (t : TiposDeDato) (x : ℕ) → convertir t x ≡ x → x < 2 ^ 32
en_32_bits uint8 x h = omega arith
en_32_bits uint32 x h = omega arith

bytes-length : (t : TiposDeDato) (x : ℕ) → bytes_de_tipo t ≤ length (bytes_uint32 x)
unfolding bytes_uint32
bytes-length uint8 x = omega arith
bytes-length uint32 x = omega arith

module _ ⦃bits : Bitarray⦄ (m : Memoria) (v : Inv m) (c : Cpu) (p : Pcb)
    (e : buscar_pcb c.pid_proceso m.lista_pcb_tablas_paginas ≡ some p) where
  -- MOV_OUT of a register and MOV_IN into another of the same type, through an address inside the
  -- process, with a TLB that agrees with memory and messages that fit a buffer: both succeed, and the
  -- second register gets the value of the first, which its type can hold; the others stay.
  pub mov_out-mov_in :
      (n_direccion n_origen n_destino : List ℕ) (d o s : Registro)
      → Nombra n_direccion d
      → Nombra n_origen o
      → Nombra n_destino s
      → tipo_registro o ≡ tipo_registro s
      → convertir (tipo_registro o) (valor o c.registros) ≡ valor o c.registros
      → Acceso m v c.pid_proceso p e (valor d c.registros) (bytes_de_tipo (tipo_registro o))
      → Coherente (tlb_miss m) c.tlb.tlb_list
      → (c1 c2 : Cpu) × (m' : Memoria) × (mov_out n_direccion n_origen c m ≡ some (c1, m'))
        × (mov_in n_destino n_direccion c1 m' ≡ some (c2, m'))
        × (c2.registros ≡ asignar s (valor o c.registros) c.registros)
  unfolding mov_out mov_in
  mov_out-mov_in n_direccion n_origen n_destino d o s hd ho hs ht hv acceso coh =
      let r = c.registros in
      let x = valor o r in
      let a = valor d r in
      let t = tipo_registro o in
      let n = bytes_de_tipo t in
      let (t1, t2, m', escribe, lee) =
        escribir-leer m v c.pid_proceso p e a n (bytes_uint32 x) c.tlb acceso coh
          (bytes-length t x) in
      let c1 = record c { tlb = t1 } in
      let hx = subst (λ z. convertir z x ≡ x) ht hv in
      let lee' =
        subst
          (λ z.
            leer_logica c.pid_proceso a (bytes_de_tipo z) t1 m'
            ≡ some (take n (bytes_uint32 x), t2))
          ht lee in
      let dato : valor_leido (tipo_registro s) (take n (bytes_uint32 x)) ≡ x =
        ap (λ z. valor_leido z (take n (bytes_uint32 x))) (sym ht) ∙ valor-almacenado t x hv in
      let guarda =
        ap (λ z. set n_destino (snprintf_u z) r) dato
        ∙ set_lem n_destino s x r hs hx (en_32_bits t x hv) in
      let regd = obtener_valor_registro_lem n_direccion d r hd in
      (
        c1,
        record c { tlb = t2; registros = asignar s x r },
        m',
        rw (regd, ◌>>=◌)
            (rw (ho.tipo, ◌>>=◌)
              (rw (obtener_valor_registro_lem n_origen o r ho, ◌>>=◌) (rw (escribe, ◌>>=◌) refl))),
        rw (regd, ◌>>=◌) (rw (hs.tipo, ◌>>=◌) (rw (lee', ◌>>=◌) (rw (guarda, ◌>>=◌) refl))),
        refl,
      )
