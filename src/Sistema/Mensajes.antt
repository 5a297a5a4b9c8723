-- ===== src/Sistema/Mensajes.antt =====
-- The requests of `mmu` as the fields of a message, written by the CPU and read by memory.
use tp_2024_1c_pccsc.Common.{
  ℕ, ◌+◌, ◌^◌, ◌≤◌, ◌<◌, Option, some, List, [], ◌∷◌, ◌++◌, ◌≡◌, refl, subst, length, take, drop,
  append_assoc, ◌>>=◌, >>=-ap,
}
use tp_2024_1c_pccsc.Common.Bitarray.{Bitarray}
use tp_2024_1c_pccsc.Common.Bytes.{bytes_uint32, copiar_de-fits}
use tp_2024_1c_pccsc.Buffer.{
  Sbuffer, buffer_add_uint32, buffer_add_string, buffer_add_void, buffer_read_uint32,
  buffer_read_string, buffer_read_void,
}
use tp_2024_1c_pccsc.Buffer.Lectura.{
  Pendiente, buffer_read_uint32-Pendiente, buffer_read_string-Pendiente,
}
use tp_2024_1c_pccsc.Buffer.Campos.{
  Campo, entero, cadena, EnRango, bytes_campos, agregar_campo, agregar_campos,
}
use tp_2024_1c_pccsc.Cpu.Mmu.{Peticion, cargar_peticiones_escribir, cargar_peticiones_leer}
use tp_2024_1c_pccsc.Memoria.{Memoria}
use tp_2024_1c_pccsc.Memoria.Espacio.{escribir_memoria, escribir_bucle}

-- The part of the datum that a request carries.
abbrev pub parte : List ℕ → Peticion → List ℕ
parte dato p = take p.bytes (drop p.desde dato)

abbrev pub campos_escribir : List ℕ → List Peticion → List Campo
campos_escribir dato [] = []
campos_escribir dato (p ∷ ps) =
    entero p.direccion_fisica ∷ cadena (parte dato p) ∷ campos_escribir dato ps

abbrev pub campos_leer : List Peticion → List Campo
campos_leer [] = []
campos_leer (p ∷ ps) = entero p.direccion_fisica ∷ entero p.bytes ∷ campos_leer ps

-- Every request lies in the datum.
abbrev pub Dentro : List ℕ → List Peticion → Type 0
Dentro dato [] = Unit {0}
Dentro dato (p ∷ ps) = (p.desde + p.bytes ≤ length dato) × Dentro dato ps

module _ (tam : ℕ) (memoria : ℕ → ℕ → Option ℕ) (pid : ℕ) where
  pub cargar_peticiones_escribir_lem :
      (dato : List ℕ) (ps : List Peticion) (b : Sbuffer)
      → Dentro dato ps
      → cargar_peticiones_escribir tam memoria pid dato ps b
        ≡ agregar_campos b (campos_escribir dato ps)
  unfolding cargar_peticiones_escribir agregar_campos agregar_campo buffer_add_string
      buffer_add_void
  cargar_peticiones_escribir_lem dato [] b h = refl
  cargar_peticiones_escribir_lem dato (p ∷ ps) b h =
      >>=-ap (buffer_add_uint32 b p.direccion_fisica) _ _ (λ b1.
        rw (copiar_de-fits dato p.desde p.bytes h.0, ◌>>=◌)
          (>>=-ap (buffer_add_string b1 (parte dato p)) _ _
            (λ b2. cargar_peticiones_escribir_lem dato ps b2 h.1)))

  pub cargar_peticiones_leer_lem :
      (ps : List Peticion) (b : Sbuffer)
      → cargar_peticiones_leer tam memoria pid ps b ≡ agregar_campos b (campos_leer ps)
  unfolding cargar_peticiones_leer agregar_campos agregar_campo
  cargar_peticiones_leer_lem [] b = refl
  cargar_peticiones_leer_lem (p ∷ ps) b =
      >>=-ap (buffer_add_uint32 b p.direccion_fisica) _ _
        (λ b1. >>=-ap (buffer_add_uint32 b1 p.bytes) _ _ (λ b2. cargar_peticiones_leer_lem ps b2))

-- The next field of a message, read.
pub leer_entero :
    (x : ℕ) (cs : List Campo) (resto : List ℕ) (b : Sbuffer)
    → x < 2 ^ 32
    → Pendiente (bytes_campos (entero x ∷ cs) ++ resto) b
    → (b' : Sbuffer) × (buffer_read_uint32 b ≡ some (x, b'))
      × Pendiente (bytes_campos cs ++ resto) b'
leer_entero x cs resto b h v =
    buffer_read_uint32-Pendiente x (bytes_campos cs ++ resto) b h
      (subst (λ l. Pendiente l b) (append_assoc (bytes_uint32 x) (bytes_campos cs) resto) v)

pub leer_cadena :
    (s : List ℕ) (cs : List Campo) (resto : List ℕ) (b : Sbuffer)
    → length s < 2 ^ 32
    → Pendiente (bytes_campos (cadena s ∷ cs) ++ resto) b
    → (b' : Sbuffer) × (buffer_read_void b ≡ some (s, b')) × Pendiente (bytes_campos cs ++ resto) b'
unfolding buffer_read_void buffer_read_string
leer_cadena s cs resto b h v = buffer_read_string-Pendiente s (bytes_campos cs ++ resto) b h (
    subst (λ l. Pendiente l b) (append_assoc (bytes_uint32 (length s) ++ s) (bytes_campos cs) resto)
      v)

module _ ⦃bits : Bitarray⦄ where
  -- The writes that a list of requests asks for.
  unfoldable pub aplicar : List ℕ → List Peticion → Memoria → Option Memoria
  aplicar dato [] m = some m
  aplicar dato (p ∷ ps) m =
      escribir_memoria p.direccion_fisica (parte dato p) m >>= λ m'. aplicar dato ps m'

  pub escribir_bucle_lem :
      (dato : List ℕ) (ps : List Peticion) (resto : List ℕ) (b : Sbuffer) (m : Memoria)
      → EnRango (campos_escribir dato ps)
      → Pendiente (bytes_campos (campos_escribir dato ps) ++ resto) b
      → escribir_bucle (length ps) b m ≡ aplicar dato ps m
  unfolding escribir_bucle aplicar
  escribir_bucle_lem dato [] resto b m r v = refl
  escribir_bucle_lem dato (p ∷ ps) resto b m r v =
      let (b1, e1, v1) =
        leer_entero p.direccion_fisica (cadena (parte dato p) ∷ campos_escribir dato ps) resto b r.0
          v in
      let (b2, e2, v2) = leer_cadena (parte dato p) (campos_escribir dato ps) resto b1 r.1.0 v1 in
      rw (e1, ◌>>=◌)
        (rw (e2, ◌>>=◌)
          (>>=-ap (escribir_memoria p.direccion_fisica (parte dato p) m) _ _
            (λ m'. escribir_bucle_lem dato ps resto b2 m' r.1.1 v2)))
