-- ===== src/Sistema.antt =====
-- Modules together: an access of the CPU to memory, as cpu/src/main.c and memoria/src/main.c make it.
pub mod Mensajes
pub mod Aplicar
pub mod Direcciones
pub mod Rangos
pub mod Entrega
pub mod Acceso
pub mod Escritura
pub mod Respuesta
pub mod Lectura
pub mod IdaVuelta
pub mod Instrucciones
pub mod Ejecucion
pub mod Terminal
mod Tests
use tp_2024_1c_pccsc.Common.{ℕ, ◌+◌, Option, none, some, List, ◌>>=◌}
use tp_2024_1c_pccsc.Common.Bitarray.{Bitarray}
use tp_2024_1c_pccsc.Buffer.{Sbuffer, cargar_paquete, recibir_operacion, cargar_buffer}
use tp_2024_1c_pccsc.Cpu.Tlb.{Tlb}
use tp_2024_1c_pccsc.Cpu.Lectura.{juntar_respuesta}
use tp_2024_1c_pccsc.Cpu.Mmu.{mmu_leer, mmu_escribir}
use tp_2024_1c_pccsc.Memoria.{Memoria, obtener_marco_proceso}
use tp_2024_1c_pccsc.Memoria.Espacio.{peticion_escritura, peticion_lectura}

-- A packet over a connection with nothing else on it: the buffer that arrives.
unfoldable pub entregar : ℕ → Sbuffer → Option Sbuffer
entregar op b = do r ← recibir_operacion (cargar_paquete op b); s ← cargar_buffer r.1; some s.0

module _ ⦃bits : Bitarray⦄ where
  -- TLB_MISS: memory's answer to the CPU that asks for a frame.
  abbrev pub tlb_miss : Memoria → ℕ → ℕ → Option ℕ
  tlb_miss m proceso pagina = obtener_marco_proceso proceso pagina m

  -- MOV_OUT's access: `dato` goes to `bytes` logical addresses from `direccion_logica` on. The
  -- operation code is PETICION_ESCRITURA.
  pub escribir_logica : ℕ → ℕ → List ℕ → ℕ → Tlb → Memoria → Option (Tlb × Memoria)
  unfolding entregar
  escribir_logica pid direccion_logica dato bytes t m = do
    r ← mmu_escribir m.config.tam_pagina (tlb_miss m) pid direccion_logica dato bytes t
    b ← entregar 35 r.0
    m' ← peticion_escritura b m
    some (r.1, m')

  -- MOV_IN's and COPY_STRING's access: the bytes that arrive, joined. The operation code, of the
  -- request and of the answer, is PETICION_LECTURA.
  pub leer_logica : ℕ → ℕ → ℕ → Tlb → Memoria → Option (List ℕ × Tlb)
  unfolding entregar
  leer_logica pid direccion_logica bytes t m = do
    r ← mmu_leer m.config.tam_pagina (tlb_miss m) pid direccion_logica bytes t
    b ← entregar 36 r.0
    datos ← peticion_lectura b m
    rta ← entregar 36 datos
    peticion_completa ← juntar_respuesta rta bytes
    some (peticion_completa, r.1)

  -- COPY_STRING, with the addresses in SI and DI: the whole string is read before it is written.
  pub copy_string : ℕ → ℕ → ℕ → ℕ → Tlb → Memoria → Option (Tlb × Memoria)
  unfolding leer_logica escribir_logica
  copy_string pid si di tamanio_a_leer t m = do
    r ← leer_logica pid si tamanio_a_leer t m
    escribir_logica pid di r.0 tamanio_a_leer r.1 m
