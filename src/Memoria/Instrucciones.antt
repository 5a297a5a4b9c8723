-- ===== src/Memoria/Instrucciones.antt =====
-- LEER_PROCESO of memoria/src/main.c: the line of a process's script at a program counter.
use tp_2024_1c_pccsc.Common.{
  ℕ, suc, ◌+◌, Option, none, some, List, [], ◌∷◌, ◌++◌, length, ◌==◌, if◌then◌else◌, ◌>>=◌,
}
use tp_2024_1c_pccsc.Common.Bitarray.{Bitarray}
use tp_2024_1c_pccsc.Buffer.{Sbuffer, buffer_create, buffer_read_uint32, buffer_add_string}
use tp_2024_1c_pccsc.Memoria.{Memoria, get_element_from_pid}

-- The loop over `getline`, from line `linea_actual` on; `none` is the end of the file.
unfoldable pub leer_linea : ℕ → ℕ → List (List ℕ) → Option (List ℕ)
leer_linea linea_actual pc [] = none
leer_linea linea_actual pc (l ∷ ls) =
    let sigue = leer_linea (suc linea_actual) pc ls in if linea_actual == pc then some l else sigue

-- `fopen` gives the lines of a file, each with its line end, or nothing; `path` is the configured
-- directory. `none` is a request that is not answered.
module _ ⦃bits : Bitarray⦄ (fopen : List ℕ → Option (List (List ℕ))) (path : List ℕ) where
  unfoldable pub leer_proceso : Sbuffer → Memoria → Option Sbuffer
  unfolding leer_linea
  leer_proceso b m = do
    pid ← buffer_read_uint32 b
    pc ← buffer_read_uint32 pid.1
    p ← get_element_from_pid pid.0 m
    script ← fopen (path ++ p.path_proceso)
    instruccion ← leer_linea 0 pc.0 script
    buffer_add_string (buffer_create (length instruccion + 4)) instruccion
