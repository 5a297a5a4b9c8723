-- ===== src/Buffer/Tests.antt =====
-- The round trips at concrete messages.
use tp_2024_1c_pccsc.Common.{ℕ, some, List, [], ◌∷◌, ◌++◌, ◌≡◌, refl, arith, length, length-append}
use tp_2024_1c_pccsc.Buffer.{
  Sbuffer, RegistrosCpu, buffer_create, buffer_add_registros, buffer_read_registros, cargar_paquete,
}
use tp_2024_1c_pccsc.Buffer.Lectura.{Escrito, Pendiente, buffer_create-Escrito}
use tp_2024_1c_pccsc.Buffer.Campos.{
  Campo, entero, octeto, cadena, formas, bytes_campos, length-bytes_campos, agregar_campos,
}
use tp_2024_1c_pccsc.Buffer.Paquete.{recibir, recibir-enviar}
use tp_2024_1c_pccsc.Buffer.Registros.{campos_registros, registros_ida_vuelta}

-- A pid, a register of one byte and a path.
abbrev mensaje : List Campo
mensaje = entero 70000 ∷ octeto 200 ∷ cadena (47 ∷ 97 ∷ []) ∷ []

recibir-enviar_example :
    (b : Sbuffer) × (agregar_campos (buffer_create 11) mensaje ≡ some b)
    × (recibir (formas mensaje) (cargar_paquete 5 b ++ 1 ∷ 2 ∷ []) ≡ some (5, mensaje, 1 ∷ 2 ∷ []))
recibir-enviar_example =
    recibir-enviar 5 mensaje (1 ∷ 2 ∷ []) (omega arith)
      (omega arith, (omega arith, (omega arith, tt))) (omega arith)

abbrev registros : RegistrosCpu
registros = record {
  pc = 3;
  ax = 1;
  bx = 2;
  cx = 255;
  dx = 0;
  eax = 70000;
  ebx = 4;
  ecx = 5;
  edx = 6;
  si = 7;
  di = 8;
}

abbrev bytes_registros : List ℕ
bytes_registros = bytes_campos (campos_registros registros)

abbrev recibido : Sbuffer
recibido = record { size = 32; offset = 0; stream = bytes_registros ++ 9 ∷ [] }

largo_registros : length (bytes_registros ++ 9 ∷ []) ≡ 33
largo_registros = omega (
  arith,
  length-append bytes_registros (9 ∷ []),
  length-bytes_campos (campos_registros registros),
)

recibido-Pendiente : Pendiente (bytes_registros ++ 9 ∷ []) recibido
recibido-Pendiente = record {
  acotado = omega (arith, largo_registros);
  posicion = omega arith;
  contenido = refl;
}

registros_ida_vuelta_example :
    (b' : Sbuffer) × (c' : Sbuffer) × (buffer_add_registros (buffer_create 32) registros ≡ some b')
    × Escrito 32 ([] ++ bytes_registros) b'
    × (buffer_read_registros recibido ≡ some (registros, c'))
    × Pendiente (9 ∷ []) c'
registros_ida_vuelta_example =
    registros_ida_vuelta registros 32 [] (9 ∷ []) (buffer_create 32) recibido
      (
        omega arith,
        (
          omega arith,
          (
            omega arith,
            (
              omega arith,
              (
                omega arith,
                (
                  omega arith,
                  (omega arith, (omega arith, (omega arith, (omega arith, (omega arith, tt))))),
                ),
              ),
            ),
          ),
        ),
      )
      (buffer_create-Escrito 32 (omega arith)) (omega arith) recibido-Pendiente
