-- ===== src/Memoria.antt =====
-- memoria/src/paginacion.c and the resize of memoria/src/main.c: frames, page tables, processes.
-- `none` is a fault of the process (a null `t_pcb*` or `t_pagina*` is dereferenced).
-- A `t_list` stands as the list of its elements. The semaphores only protect single accesses here,
-- and each operation runs as one step.
pub mod Marcos
pub mod Invariante
pub mod Paginas
pub mod Resize
pub mod Espacio
pub mod Instrucciones
pub mod Exclusividad
mod Tests
use tp_2024_1c_pccsc.Common.{
  ℕ, zero, suc, ◌+◌, ◌-◌, ◌*◌, ◌/◌, ◌%◌, Bool, true, false, Option, none, some, List, [], ◌∷◌, ◌++◌,
  length, get_elem?, remove_at, replicate, ltb, leb, ◌==◌, if◌then◌else◌, ◌>>=◌,
}
use tp_2024_1c_pccsc.Common.Int.{ℤ, pos, negsuc, sub_ℕ, ltb_ℤ}
use tp_2024_1c_pccsc.Common.Bitarray.{Bitarray}

-- The part of `config_struct` that the paging reads.
pub record ConfigStruct : Type 0 where
  pub tam_memoria : ℕ
  pub tam_pagina : ℕ

pub record Pagina : Type 0 where
  pub id_marco : ℕ
  pub offset : ℕ

-- `path_proceso` is its text as a list of characters.
pub record Pcb : Type 0 where
  pub pid : ℕ
  pub path_proceso : List ℕ
  pub tabla_paginas : List Pagina

-- The first process of a pid, as `list_find` gives it.
unfoldable pub buscar_pcb : ℕ → List Pcb → Option Pcb
buscar_pcb pid [] = none
buscar_pcb pid (p ∷ ps) = if p.pid == pid then some p else buscar_pcb pid ps

-- The list without the first process of a pid (`list_remove_by_condition`).
pub quitar_pcb : ℕ → List Pcb → List Pcb
quitar_pcb pid [] = []
quitar_pcb pid (p ∷ ps) = if p.pid == pid then ps else p ∷ quitar_pcb pid ps

-- A write through the pointer that `list_find` gave: the process's table becomes `t`.
pub guardar_tabla : ℕ → List Pagina → List Pcb → List Pcb
guardar_tabla pid t [] = []
guardar_tabla pid t (p ∷ ps) =
    if p.pid == pid then record p { tabla_paginas = t } ∷ ps else p ∷ guardar_tabla pid t ps

-- `create_pagina`
pub create_pagina : List Pagina → ℕ → List Pagina
create_pagina tabla marco = tabla ++ record { id_marco = marco; offset = 0 } ∷ []

-- The loop of `ampliar_proceso` over the frames asked for.
pub crear_paginas : List Pagina → List ℕ → List Pagina
crear_paginas tabla [] = tabla
crear_paginas tabla (m ∷ ms) = crear_paginas (create_pagina tabla m) ms

-- (int)ceil((double)new_size / tam_pagina)
pub paginas_solicitadas : ℤ → ℕ → ℤ
paginas_solicitadas (pos n) tam = pos ((n + tam - 1) / tam)
paginas_solicitadas (negsuc n) tam = sub_ℕ 0 ((n + 1) / tam)

pub data Respuesta : Type 0 where
  continuar out_of_memory : Respuesta

module _ ⦃bits : Bitarray⦄ where
  open bits use {Bits, create_with_mode, test_bit, set_bit, clean_bit}

  -- The globals of paginacion.c.
  pub record Memoria : Type 0 where
    pub config : ConfigStruct
    pub cantidad_marcos_totales : ℕ
    pub memoria : List ℕ
    pub bitmap_marcos : Bits
    pub lista_pcb_tablas_paginas : List Pcb

  -- Bytes of a bitmap of `n` bits.
  pub tamanio_bitmap : ℕ → ℕ
  tamanio_bitmap n = if n % 8 == 0 then n / 8 else n / 8 + 1

  -- `for (i = 0; i < n; i++) bitarray_clean_bit(b, i)`, from `i` on.
  pub limpiar_desde : ℕ → ℕ → Bits → Bits
  limpiar_desde zero i b = b
  limpiar_desde (suc k) i b = limpiar_desde k (suc i) (clean_bit b i)

  pub init_bitmap_marcos : ℕ → Bits
  unfolding limpiar_desde tamanio_bitmap
  init_bitmap_marcos n = limpiar_desde n 0 (create_with_mode (tamanio_bitmap n))

  pub init_memoria : ConfigStruct → Memoria
  unfolding init_bitmap_marcos
  init_memoria config =
      let n = config.tam_memoria / config.tam_pagina in
      record {
        config = config;
        cantidad_marcos_totales = n;
        memoria = replicate (n * config.tam_pagina) 0;
        bitmap_marcos = init_bitmap_marcos n;
        lista_pcb_tablas_paginas = [];
      }

  pub crear_proceso : ℕ → List ℕ → Memoria → Memoria
  crear_proceso pid path m = record m {
    lista_pcb_tablas_paginas =
        m.lista_pcb_tablas_paginas
        ++ record { pid = pid; path_proceso = path; tabla_paginas = [] } ∷ [];
  }

  -- The loop of `liberar_paginas`, with the rounds left and `i + 1`. At `i = -1` `list_remove`
  -- has no page to give.
  pub liberar_bucle : ℕ → ℕ → Bits → List Pagina → Option (Bits × List Pagina)
  liberar_bucle zero j b t = some (b, t)
  liberar_bucle (suc k) zero b t = none
  liberar_bucle (suc k) (suc i) b t = elim (get_elem? t i) [
    | none ↦ none
    | some p ↦ liberar_bucle k i (clean_bit b p.id_marco) (remove_at t i)
  ]

  pub liberar_paginas : List Pagina → ℕ → Bits → Option (Bits × List Pagina)
  unfolding liberar_bucle
  liberar_paginas t cantidad b = liberar_bucle cantidad (length t) b t

  pub eliminar_proceso : ℕ → Memoria → Option Memoria
  eliminar_proceso pid m = do
    p ← buscar_pcb pid m.lista_pcb_tablas_paginas
    r ← liberar_paginas p.tabla_paginas (length p.tabla_paginas) m.bitmap_marcos
    some (record m {
      bitmap_marcos = r.0;
      lista_pcb_tablas_paginas = quitar_pcb pid m.lista_pcb_tablas_paginas;
    })

  unfoldable pub get_element_from_pid : ℕ → Memoria → Option Pcb
  unfolding buscar_pcb
  get_element_from_pid pid m = buscar_pcb pid m.lista_pcb_tablas_paginas

  -- `pagina` is an `int` that the requests make from a quotient, hence not negative.
  unfoldable pub obtener_marco_proceso : ℕ → ℕ → Memoria → Option ℕ
  unfolding get_element_from_pid
  obtener_marco_proceso pid pagina m = do
    p ← get_element_from_pid pid m
    pag ← get_elem? p.tabla_paginas pagina
    some pag.id_marco

  -- The search of `buscar_marcos_libres`: bits left, bit `i`, frames still missing.
  pub libres_desde : Bits → ℕ → ℕ → ℕ → List ℕ
  libres_desde b zero i faltan = []
  libres_desde b (suc k) i zero = []
  libres_desde b (suc k) i (suc f) =
      let resto = libres_desde b k (suc i) (if test_bit b i then suc f else f) in
      if test_bit b i then resto else i ∷ resto

  pub marcar_ocupados : Bits → List ℕ → Bits
  marcar_ocupados b [] = b
  marcar_ocupados b (i ∷ is) = marcar_ocupados (set_bit b i) is

  -- The frames found, already marked in the bitmap, or NULL and nothing marked.
  pub buscar_marcos_libres : ℕ → ℕ → Bits → Option (List ℕ × Bits)
  unfolding libres_desde marcar_ocupados
  buscar_marcos_libres totales cantidad b =
      let hallados = libres_desde b totales 0 cantidad in
      if ltb (length hallados) cantidad then none else some (hallados, marcar_ocupados b hallados)

  pub suficiente_memoria : ℤ → Memoria → Bool
  suficiente_memoria n m = if ltb_ℤ (pos m.config.tam_memoria) n then false else true

  pub cant_paginas_ocupadas_proceso : ℕ → Memoria → Option ℕ
  unfolding get_element_from_pid
  cant_paginas_ocupadas_proceso pid m = do
    p ← get_element_from_pid pid m
    some (length p.tabla_paginas)

  pub ampliar_proceso : ℕ → List ℕ → Memoria → Option Memoria
  unfolding get_element_from_pid guardar_tabla crear_paginas create_pagina
  ampliar_proceso pid marcos m = do
    p ← get_element_from_pid pid m
    some (record m {
      lista_pcb_tablas_paginas =
          guardar_tabla pid (crear_paginas p.tabla_paginas marcos) m.lista_pcb_tablas_paginas;
    })

  pub reducir_proceso : ℕ → ℕ → Memoria → Option Memoria
  unfolding get_element_from_pid guardar_tabla liberar_paginas
  reducir_proceso pid cantidad m = do
    p ← get_element_from_pid pid m
    r ← liberar_paginas p.tabla_paginas cantidad m.bitmap_marcos
    some (record m {
      bitmap_marcos = r.0;
      lista_pcb_tablas_paginas = guardar_tabla pid r.1 m.lista_pcb_tablas_paginas;
    })

  -- The branch of `resize_proceso` that grows the process by `k` pages.
  pub resize_ampliar : ℕ → ℕ → Memoria → Option (Respuesta × Memoria)
  resize_ampliar pid k m = elim (buscar_marcos_libres m.cantidad_marcos_totales k m.bitmap_marcos) [
    | none ↦ some (out_of_memory, m)
    | some (marcos, b) ↦ (do
      m' ← ampliar_proceso pid marcos (record m { bitmap_marcos = b })
      some (continuar, m'))
  ]

  pub resize_reducir : ℕ → ℕ → Memoria → Option (Respuesta × Memoria)
  resize_reducir pid k m = do m' ← reducir_proceso pid k m; some (continuar, m')

  -- The part after the first check; the pages asked for may be negative.
  pub resize_paginas : ℕ → ℕ → ℤ → Memoria → Option (Respuesta × Memoria)
  resize_paginas pid ocupadas (pos n) m =
      if ltb ocupadas n
      then resize_ampliar pid (n - ocupadas) m
      else if ltb n ocupadas
      then resize_reducir pid (ocupadas - n) m
      else some (continuar, m)
  resize_paginas pid ocupadas (negsuc n) m = resize_reducir pid (ocupadas + n + 1) m

  pub resize_proceso : ℕ → ℤ → Memoria → Option (Respuesta × Memoria)
  resize_proceso pid new_size m =
      if suficiente_memoria new_size m
      then (do
        ocupadas ← cant_paginas_ocupadas_proceso pid m
        resize_paginas pid ocupadas (paginas_solicitadas new_size m.config.tam_pagina) m)
      else some (out_of_memory, m)
