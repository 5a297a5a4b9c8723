-- ===== src/Cpu/Mmu.antt =====
-- `mmu` of cpu/src/main.c: a logical range becomes requests to memory, one for each page.
pub mod Traduccion
pub mod Cantidad
mod Tests
use tp_2024_1c_pccsc.Common.{
  ℕ, zero, suc, ◌+◌, ◌-◌, ◌*◌, ◌/◌, ◌%◌, ◌^◌, Bool, true, false, Option, none, some, List, [], ◌∷◌,
  ltb, ◌==◌, if◌then◌else◌, ◌>>=◌,
}
use tp_2024_1c_pccsc.Common.Bytes.{copiar_de}
use tp_2024_1c_pccsc.Buffer.{
  Sbuffer, buffer_create, buffer_add_uint32, buffer_add_int, buffer_add_void,
}
use tp_2024_1c_pccsc.Cpu.Tlb.{Tlb, obtener_marco}

-- One request: where, from which byte of the datum, and how many bytes.
pub record Peticion : Type 0 where
  pub direccion_fisica : ℕ
  pub desde : ℕ
  pub bytes : ℕ

-- uint32_t direccion_fisica = marco * TAM_PAGINA + desplazamiento
abbrev pub fisica : ℕ → ℕ → ℕ → ℕ
fisica tam_pagina marco desplazamiento = (marco * tam_pagina + desplazamiento) % 2 ^ 32

module _ (tam_pagina : ℕ) where
  -- The bytes that round `i` of `cantidad` sends.
  abbrev pub bytes_a_enviar : ℕ → ℕ → ℕ → ℕ → ℕ
  bytes_a_enviar cantidad i desplazamiento bytes_pendientes =
      if i == 0
      then tam_pagina - desplazamiento
      else if ltb i (cantidad - 1)
      then tam_pagina
      else bytes_pendientes

  -- cantidad_peticiones_memoria
  abbrev pub cantidad_peticiones : ℕ → ℕ → ℕ
  cantidad_peticiones direccion_logica bytes_peticion =
      ((direccion_logica - direccion_logica / tam_pagina * tam_pagina + bytes_peticion) % 2 ^ 32
        + tam_pagina
        - 1)
      / tam_pagina

module _ (tam_pagina : ℕ) (memoria : ℕ → ℕ → Option ℕ) (pid_proceso : ℕ) where
  -- The loop over the pages: rounds left, round, page, offset, bytes pending and bytes sent.
  unfoldable pub mmu_bucle : ℕ → ℕ → ℕ → ℕ → ℕ → ℕ → ℕ → Tlb → Option (List Peticion × Tlb)
  mmu_bucle cantidad zero i nro_pagina desplazamiento bytes_pendientes bytes_enviados t =
      some ([], t)
  mmu_bucle cantidad (suc vueltas) i nro_pagina desplazamiento bytes_pendientes bytes_enviados t =
      let n = bytes_a_enviar tam_pagina cantidad i desplazamiento bytes_pendientes in
      obtener_marco memoria pid_proceso nro_pagina t >>= λ r.
      mmu_bucle cantidad vueltas (suc i) (suc nro_pagina) 0
        ((bytes_pendientes + 2 ^ 32 - n) % 2 ^ 32) (bytes_enviados + n) r.1
      >>= λ resto. some (
        record {
          direccion_fisica = fisica tam_pagina r.0 desplazamiento;
          desde = bytes_enviados;
          bytes = n;
        }
            ∷ resto.0,
        resto.1,
      )

  unfoldable pub mmu_peticiones : ℕ → ℕ → Tlb → Option (List Peticion × Tlb)
  unfolding mmu_bucle
  mmu_peticiones direccion_logica bytes_peticion t =
      let nro_pagina = direccion_logica / tam_pagina in
      let desplazamiento = direccion_logica - nro_pagina * tam_pagina in
      let cantidad = cantidad_peticiones tam_pagina direccion_logica bytes_peticion in
      if cantidad == 1
      then (do
        r ← obtener_marco memoria pid_proceso nro_pagina t
        some (
          record {
            direccion_fisica = fisica tam_pagina r.0 desplazamiento;
            desde = 0;
            bytes = bytes_peticion;
          }
              ∷ [],
          r.1,
        ))
      else mmu_bucle cantidad cantidad 0 nro_pagina desplazamiento bytes_peticion 0 t

  -- The requests as they are packed: LEER sends the sizes, ESCRIBIR each part of the datum.
  unfoldable pub cargar_peticiones_leer : List Peticion → Sbuffer → Option Sbuffer
  cargar_peticiones_leer [] b = some b
  cargar_peticiones_leer (p ∷ ps) b = do
    b ← buffer_add_uint32 b p.direccion_fisica
    b ← buffer_add_uint32 b p.bytes
    cargar_peticiones_leer ps b

  unfoldable pub cargar_peticiones_escribir : List ℕ → List Peticion → Sbuffer → Option Sbuffer
  cargar_peticiones_escribir dato [] b = some b
  cargar_peticiones_escribir dato (p ∷ ps) b = do
    b ← buffer_add_uint32 b p.direccion_fisica
    parte ← copiar_de dato p.desde p.bytes
    b ← buffer_add_void b parte
    cargar_peticiones_escribir dato ps b

  -- `mmu("LEER", …)` and `mmu("ESCRIBIR", …)`
  unfoldable pub mmu_leer : ℕ → ℕ → Tlb → Option (Sbuffer × Tlb)
  mmu_leer direccion_logica bytes_peticion t = do
    let cantidad = cantidad_peticiones tam_pagina direccion_logica bytes_peticion
    b ← buffer_add_uint32 (buffer_create (8 + 4 * cantidad + 4 * cantidad)) pid_proceso
    b ← buffer_add_int b cantidad
    r ← mmu_peticiones direccion_logica bytes_peticion t
    b ← cargar_peticiones_leer r.0 b
    some (b, r.1)

  unfoldable pub mmu_escribir : ℕ → List ℕ → ℕ → Tlb → Option (Sbuffer × Tlb)
  mmu_escribir direccion_logica dato bytes_peticion t = do
    let cantidad = cantidad_peticiones tam_pagina direccion_logica bytes_peticion
    b ←
        buffer_add_uint32 (buffer_create (8 + 4 * cantidad + 4 * cantidad + bytes_peticion))
          pid_proceso
    b ← buffer_add_int b cantidad
    r ← mmu_peticiones direccion_logica bytes_peticion t
    b ← cargar_peticiones_escribir dato r.0 b
    some (b, r.1)
