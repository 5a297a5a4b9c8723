-- ===== src/Sistema/Terminal/Salida.antt =====
-- What STDOUT prints is what the process has at its addresses.
use tp_2024_1c_pccsc.Common.{
  ℕ, zero, suc, ◌≤◌, ◌≢◌, inl, inr, Bool-cases, ==→≡, ==→ne, ◌==◌, ◌+◌, ◌-◌, ◌*◌, ◌%◌, ◌^◌, ◌<◌,
  some, List, [], ◌∷◌, ◌++◌, ◌≡◌, refl, sym, ◌∙◌, ap, subst, arith, length, take, map, append-nil,
  ◌>>=◌,
}
use tp_2024_1c_pccsc.Common.Bitarray.{Bitarray}
use tp_2024_1c_pccsc.Common.Bytes.{take-length}
use tp_2024_1c_pccsc.Common.Celdas.{rango}
use tp_2024_1c_pccsc.Buffer.{
  Sbuffer, buffer_create, buffer_read, buffer_read_uint32, buffer_read_int, cargar_paquete,
}
use tp_2024_1c_pccsc.Buffer.Lectura.{Escrito, Pendiente, buffer_read-Pendiente}
use tp_2024_1c_pccsc.Buffer.Campos.{entero, bytes_campos, tamanio_campos, length-bytes_campos}
use tp_2024_1c_pccsc.Cpu.Tlb.{Tlb}
use tp_2024_1c_pccsc.Cpu.Mmu.{Peticion, cantidad_peticiones}
use tp_2024_1c_pccsc.Memoria.{Pcb, Memoria, buscar_pcb}
use tp_2024_1c_pccsc.Memoria.Invariante.{Inv}
use tp_2024_1c_pccsc.Sistema.{entregar}
use tp_2024_1c_pccsc.Sistema.Mensajes.{campos_leer, leer_entero}
use tp_2024_1c_pccsc.Sistema.Respuesta.{tamanio-campos_leer}
use tp_2024_1c_pccsc.Sistema.Direcciones.{espacio_de}
use tp_2024_1c_pccsc.Sistema.Acceso.{Acceso, Peticiones}
use tp_2024_1c_pccsc.Sistema.Lectura.{pedir_lectura}
use tp_2024_1c_pccsc.Sistema.Terminal.{hasta_nulo, io_stdout_write}

-- A buffer filled from outside, as if it had been packed.
lleno : ℕ → List ℕ → Sbuffer
lleno n s = record { size = n; offset = n; stream = s }

lleno-Escrito : (n : ℕ) (s : List ℕ) → length s ≡ n → n < 2 ^ 32 → Escrito n s (lleno n s)
unfolding lleno
lleno-Escrito n s l h = record {
  acotado = h;
  tamanio = refl;
  largo = l;
  posicion = sym l;
  contenido = ap (take (length s)) (sym (append-nil s)) ∙ take-length s [];
}

entregar-lleno :
    (op n : ℕ) (s : List ℕ)
    → entregar op (record (buffer_create n) { stream = s }) ≡ entregar op (lleno n s)
unfolding entregar cargar_paquete buffer_create lleno
entregar-lleno op n s = refl

-- What is printed of the bytes `f a`, `f (a + 1)`, …, `n` of them: those before the first NUL.
pub record Impreso (f : ℕ → ℕ) (a n : ℕ) (d : List ℕ) : Type 0 where
  pub cuantos : ℕ
  pub acotados : cuantos ≤ n
  pub bytes : d ≡ map f (rango a cuantos)
  pub sin_nulos : (j : ℕ) → j < cuantos → f (a + j) ≢ 0
  pub nulo : cuantos < n → f (a + cuantos) ≡ 0

Impreso-cons :
    (f : ℕ → ℕ) (a n : ℕ) (d : List ℕ)
    → f a ≢ 0
    → Impreso f (suc a) n d
    → Impreso f a (suc n) (f a ∷ d)
Impreso-cons f a n d h i = record {
  cuantos = suc i.cuantos;
  acotados = omega (arith, i.acotados);
  bytes = ap (◌∷◌ (f a)) i.bytes;
  sin_nulos = letra;
  nulo = λ l.
      (let q : a + suc i.cuantos ≡ suc a + i.cuantos = omega arith in
        ap f q ∙ i.nulo (omega arith));
}
  where
    letra : (j : ℕ) → j < suc i.cuantos → f (a + j) ≢ 0
    letra zero l e = let q : a ≡ a + 0 = omega arith in h (ap f q ∙ e)
    letra (suc j) l e =
        let q : suc a + j ≡ a + suc j = omega arith in i.sin_nulos j (omega arith) (ap f q ∙ e)

hasta_nulo-Impreso : (f : ℕ → ℕ) (a n : ℕ) → Impreso f a n (hasta_nulo (map f (rango a n)))
unfolding hasta_nulo
hasta_nulo-Impreso f a zero = record {
  cuantos = 0;
  acotados = omega arith;
  bytes = refl;
  sin_nulos = λ j h. absurd (omega arith);
  nulo = λ h. absurd (omega arith);
}
hasta_nulo-Impreso f a (suc n) = elim (Bool-cases (f a == 0)) [
  | inl y ↦ rw y (record {
    cuantos = 0;
    acotados = omega arith;
    bytes = refl;
    sin_nulos = λ j h. absurd (omega arith);
    nulo = λ h. (let q : a + 0 ≡ a = omega arith in ap f q ∙ ==→≡ (f a) 0 y);
  })
  | inr z ↦ rw z (
      Impreso-cons f a n (hasta_nulo (map f (rango (suc a) n))) (==→ne (f a) 0 z)
        (hasta_nulo-Impreso f (suc a) n))
]

module _ ⦃bits : Bitarray⦄ (m : Memoria) (v : Inv m) (pid : ℕ) (p : Pcb)
    (e : buscar_pcb pid m.lista_pcb_tablas_paginas ≡ some p) where
  -- The whole datum comes back, and is printed up to its first NUL.
  stdout-bloque :
      (a size : ℕ) (t t' : Tlb) (ps : List Peticion) (direcciones : Sbuffer)
      → Acceso m v pid p e a size
      → Peticiones m v pid p e a size t ps t'
      → direcciones.size ≡ 16 + 8 * length ps
      → Pendiente
          (bytes_campos (
              entero pid ∷ entero (cantidad_peticiones m.config.tam_pagina a size) ∷ campos_leer ps)
            ++ [])
          direcciones
      → io_stdout_write direcciones size m ≡ some (hasta_nulo (map (espacio_de m p) (rango a size)))
  unfolding io_stdout_write buffer_read_int buffer_read_uint32
  stdout-bloque a size t t' ps direcciones h r z w =
      let k = cantidad_peticiones m.config.tam_pagina a size in
      let cs = campos_leer ps in
      let fs = entero pid ∷ entero k ∷ cs in
      let n = (direcciones.size + 2 ^ 32 - 8) % 2 ^ 32 in
      let tcs = tamanio-campos_leer ps in
      let n_ok : n ≡ 8 + tamanio_campos cs = omega (arith, z, h.mensaje_acotado, r.cuantas) in
      let l : length (bytes_campos fs) ≡ n = omega (arith, length-bytes_campos fs, n_ok) in
      let (b1, e1, w1) = leer_entero pid (entero k ∷ cs) [] direcciones h.pid_acotado w in
      let (b2, e2, w2) = leer_entero k cs [] b1 (omega (arith, h.mensaje_acotado)) w1 in
      let (b3, e3, w3) = buffer_read-Pendiente (bytes_campos fs) [] direcciones w in
      let lee = ap (buffer_read direcciones) (sym l) ∙ e3 in
      let esc =
        subst (λ x. Escrito x (bytes_campos fs) (lleno n (bytes_campos fs))) n_ok
          (lleno-Escrito n (bytes_campos fs) l (omega arith)) in
      let (b4, b5, b6, e4, sirve, e6, junta) =
        pedir_lectura m v pid p e a size t t' ps (lleno n (bytes_campos fs)) h r esc in
      let llega = entregar-lleno 36 n (bytes_campos fs) ∙ e4 in
      rw (e1, ◌>>=◌)
        (rw (e2, ◌>>=◌)
          (rw (lee, ◌>>=◌)
            (rw (llega, ◌>>=◌) (rw (sirve, ◌>>=◌) (rw (e6, ◌>>=◌) (rw (junta, ◌>>=◌) refl))))))

  -- IO_STDOUT_WRITE of `size` bytes with a message that fits a buffer and holds, behind two numbers, the
  -- requests that `mmu` made for a range inside the process: it succeeds, and prints the bytes of the
  -- process's space at those addresses, in order, up to the first that is NUL, or all of them if none is.
  pub io_stdout_write_lem :
      (a size : ℕ) (t t' : Tlb) (ps : List Peticion) (direcciones : Sbuffer)
      → Acceso m v pid p e a size
      → Peticiones m v pid p e a size t ps t'
      → direcciones.size ≡ 16 + 8 * length ps
      → Pendiente
          (bytes_campos (
              entero pid ∷ entero (cantidad_peticiones m.config.tam_pagina a size) ∷ campos_leer ps)
            ++ [])
          direcciones
      → (d : List ℕ) × (io_stdout_write direcciones size m ≡ some d)
        × Impreso (espacio_de m p) a size d
  io_stdout_write_lem a size t t' ps direcciones h r z w = (
    hasta_nulo (map (espacio_de m p) (rango a size)),
    stdout-bloque a size t t' ps direcciones h r z w,
    hasta_nulo-Impreso (espacio_de m p) a size,
  )
