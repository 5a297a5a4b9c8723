-- ===== src/Sistema/Respuesta.antt =====
-- The answer of memory to a read: built by memory, joined by the CPU.
use tp_2024_1c_pccsc.Common.{
  ℕ, ◌+◌, ◌*◌, ◌^◌, ◌≤◌, ◌<◌, some, List, [], ◌∷◌, ◌++◌, ◌≡◌, refl, sym, ◌∙◌, ap, arith, length,
  take, drop, map, length-take, length-drop, length-append, append_assoc, ◌>>=◌, >>=-ap,
}
use mathlib.Core.List.{map-append}
use tp_2024_1c_pccsc.Common.Bitarray.{Bitarray}
use tp_2024_1c_pccsc.Common.Bytes.{copiar_de-fits, copiar_a-fits, take-length, drop-append_right}
use tp_2024_1c_pccsc.Common.Celdas.{celda, rango, length-rango, map-celda-rango}
use tp_2024_1c_pccsc.Buffer.{Sbuffer, add_uint32, buffer_add_void, buffer_add_string}
use tp_2024_1c_pccsc.Buffer.Lectura.{Pendiente}
use tp_2024_1c_pccsc.Buffer.Campos.{
  Campo, entero, cadena, EnRango, bytes_campos, tamanio_campos, agregar_campo, agregar_campos,
}
use tp_2024_1c_pccsc.Cpu.Lectura.{juntar_bucle}
use tp_2024_1c_pccsc.Cpu.Mmu.{Peticion}
use tp_2024_1c_pccsc.Cpu.Mmu.Traduccion.{expandir}
use tp_2024_1c_pccsc.Memoria.{Memoria}
use tp_2024_1c_pccsc.Memoria.Espacio.{calcular_tamanio_bucle, leer_memoria, leer_bucle}
use tp_2024_1c_pccsc.Sistema.Mensajes.{campos_leer, leer_entero, leer_cadena}
use tp_2024_1c_pccsc.Sistema.Aplicar.{EnMemoria}

-- What a request reads.
abbrev pub trozo : List ℕ → Peticion → List ℕ
trozo s p = take p.bytes (drop p.direccion_fisica s)

abbrev pub campos_dato : List ℕ → List Peticion → List Campo
campos_dato s [] = []
campos_dato s (p ∷ ps) = cadena (trozo s p) ∷ campos_dato s ps

-- All that the requests read.
abbrev pub leido : List ℕ → List Peticion → List ℕ
leido s [] = []
leido s (p ∷ ps) = trozo s p ++ leido s ps

length-trozo :
    (s : List ℕ) (p : Peticion)
    → p.direccion_fisica + p.bytes ≤ length s
    → length (trozo s p) ≡ p.bytes
length-trozo s p h =
    omega (arith, length-take p.bytes (drop p.direccion_fisica s), length-drop p.direccion_fisica s)

pub leido-celdas :
    (s : List ℕ) (ps : List Peticion)
    → EnMemoria (length s) ps
    → leido s ps ≡ map (celda s) (expandir ps)
leido-celdas s [] h = refl
leido-celdas s (p ∷ ps) h =
    rw (leido-celdas s ps h.1) (
      ap (λ z. z ++ map (celda s) (expandir ps))
        (sym (map-celda-rango p.bytes p.direccion_fisica s h.0)))
    ∙ sym (map-append (celda s) (rango p.direccion_fisica p.bytes) (expandir ps))

pub tamanio-campos_dato :
    (s : List ℕ) (ps : List Peticion)
    → EnMemoria (length s) ps
    → tamanio_campos (campos_dato s ps) ≡ 4 * length ps + length (expandir ps)
tamanio-campos_dato s [] h = refl
tamanio-campos_dato s (p ∷ ps) h = omega (
  arith,
  tamanio-campos_dato s ps h.1,
  length-trozo s p h.0,
  length-append (rango p.direccion_fisica p.bytes) (expandir ps),
  length-rango p.direccion_fisica p.bytes,
)

pub tamanio-campos_leer : (ps : List Peticion) → tamanio_campos (campos_leer ps) ≡ 8 * length ps
tamanio-campos_leer [] = refl
tamanio-campos_leer (p ∷ ps) = omega (arith, tamanio-campos_leer ps)

pub campos_leer-EnRango :
    (n : ℕ) (ps : List Peticion) → n < 2 ^ 32 → EnMemoria n ps → EnRango (campos_leer ps)
campos_leer-EnRango n [] h e = tt
campos_leer-EnRango n (p ∷ ps) h e =
    let e0 = e.0 in (omega arith, (omega arith, campos_leer-EnRango n ps h e.1))

pub campos_dato-EnRango :
    (s : List ℕ) (ps : List Peticion)
    → length s < 2 ^ 32
    → EnMemoria (length s) ps
    → EnRango (campos_dato s ps)
campos_dato-EnRango s [] h e = tt
campos_dato-EnRango s (p ∷ ps) h e =
    let e0 = e.0 in (omega (arith, length-trozo s p e0), campos_dato-EnRango s ps h e.1)

-- The size of the answer, computed by memory beforehand.
pub calcular_tamanio_bucle_lem :
    (ps : List Peticion) (resto : List ℕ) (b : Sbuffer) (acum : ℕ)
    → EnRango (campos_leer ps)
    → acum + length (expandir ps) < 2 ^ 32
    → Pendiente (bytes_campos (campos_leer ps) ++ resto) b
    → calcular_tamanio_bucle (length ps) b acum ≡ some (acum + length (expandir ps))
unfolding calcular_tamanio_bucle
calcular_tamanio_bucle_lem [] resto b acum r h v = ap some (omega arith)
calcular_tamanio_bucle_lem (p ∷ ps) resto b acum r h v =
    let l = length-append (rango p.direccion_fisica p.bytes) (expandir ps) in
    let l2 = length-rango p.direccion_fisica p.bytes in
    let (b1, e1, v1) =
      leer_entero p.direccion_fisica (entero p.bytes ∷ campos_leer ps) resto b r.0 v in
    let (b2, e2, v2) = leer_entero p.bytes (campos_leer ps) resto b1 r.1.0 v1 in
    let suma : add_uint32 acum p.bytes ≡ acum + p.bytes = omega arith in
    rw (e1, ◌>>=◌)
      (rw (e2, ◌>>=◌)
        (ap (calcular_tamanio_bucle (length ps) b2) suma
          ∙ calcular_tamanio_bucle_lem ps resto b2 (acum + p.bytes) r.1.1 (omega arith) v2
          ∙ ap some (omega arith)))

module _ ⦃bits : Bitarray⦄ where
  pub leer_bucle_lem :
      (ps : List Peticion) (resto : List ℕ) (b datos : Sbuffer) (m : Memoria)
      → EnRango (campos_leer ps)
      → EnMemoria (length m.memoria) ps
      → Pendiente (bytes_campos (campos_leer ps) ++ resto) b
      → leer_bucle (length ps) b datos m ≡ agregar_campos datos (campos_dato m.memoria ps)
  unfolding leer_bucle leer_memoria agregar_campos agregar_campo buffer_add_void buffer_add_string
  leer_bucle_lem [] resto b datos m r h v = refl
  leer_bucle_lem (p ∷ ps) resto b datos m r h v =
      let (b1, e1, v1) =
        leer_entero p.direccion_fisica (entero p.bytes ∷ campos_leer ps) resto b r.0 v in
      let (b2, e2, v2) = leer_entero p.bytes (campos_leer ps) resto b1 r.1.0 v1 in
      rw (e1, ◌>>=◌)
        (rw (e2, ◌>>=◌)
          (rw (copiar_de-fits m.memoria p.direccion_fisica p.bytes h.0, ◌>>=◌)
            (>>=-ap (buffer_add_string datos (trozo m.memoria p)) _ _
              (λ datos'. leer_bucle_lem ps resto b2 datos' m r.1.1 h.1 v2))))

-- The parts, joined behind those that have arrived.
pub juntar_bucle_lem :
    (s : List ℕ) (ps : List Peticion) (resto : List ℕ) (b : Sbuffer) (llegados quedan : List ℕ)
    → EnRango (campos_dato s ps)
    → EnMemoria (length s) ps
    → length quedan ≡ length (expandir ps)
    → length llegados + length quedan < 2 ^ 32
    → Pendiente (bytes_campos (campos_dato s ps) ++ resto) b
    → juntar_bucle (length ps) b (length llegados) (llegados ++ quedan)
      ≡ some (llegados ++ leido s ps)
unfolding juntar_bucle
juntar_bucle_lem s [] resto b llegados [] r h l c v = refl
juntar_bucle_lem s [] resto b llegados (x ∷ quedan) r h l c v = absurd (omega arith)
juntar_bucle_lem s (p ∷ ps) resto b llegados quedan r h l c v =
    let w = trozo s p in
    let lw = length-trozo s p h.0 in
    let le = length-append (rango p.direccion_fisica p.bytes) (expandir ps) in
    let lr = length-rango p.direccion_fisica p.bytes in
    let q = drop (length w) quedan in
    let lq = length-drop (length w) quedan in
    let (b1, e1, v1) = leer_cadena w (campos_dato s ps) resto b r.0 v in
    let cabe : length llegados + length w ≤ length (llegados ++ quedan) =
      omega (arith, length-append llegados quedan) in
    let bloque =
      take (length llegados) (llegados ++ quedan)
      ++ (w ++ drop (length llegados + length w) (llegados ++ quedan)) in
    let nuevo : bloque ≡ (llegados ++ w) ++ q =
      rw (take-length llegados quedan, drop-append_right llegados quedan (length w))
        (sym (append_assoc llegados w q)) in
    let suma : add_uint32 (length llegados) (length w) ≡ length (llegados ++ w) =
      omega (arith, length-append llegados w) in
    rw (e1, ◌>>=◌)
      (rw (copiar_a-fits (llegados ++ quedan) (length llegados) w cabe, ◌>>=◌)
        (ap (λ z. juntar_bucle (length ps) b1 z bloque) suma
          ∙ ap (juntar_bucle (length ps) b1 (length (llegados ++ w))) nuevo
          ∙ juntar_bucle_lem s ps resto b1 (llegados ++ w) q r.1 h.1 (omega arith)
              (omega (arith, length-append llegados w)) v1
          ∙ ap some (append_assoc llegados w (leido s ps))))
