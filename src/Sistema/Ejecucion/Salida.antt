-- ===== src/Sistema/Ejecucion/Salida.antt =====
-- A round that executes EXIT is over and gives the process back.
use tp_2024_1c_pccsc.Common.{
  ℕ, Bool, true, false, not, ◌&&◌, Option, none, some, List, [], ◌∷◌, ◌++◌, ◌≡◌, inl, inr, refl,
  ◌∙◌, ap, if◌then◌else◌, ◌>>=◌, Bool-cases,
}
use tp_2024_1c_pccsc.Common.Bitarray.{Bitarray}
use tp_2024_1c_pccsc.Common.Texto.{texto}
use tp_2024_1c_pccsc.FileSystem.{igual}
use tp_2024_1c_pccsc.Buffer.{Sbuffer, buffer_create, buffer_add_registros}
use tp_2024_1c_pccsc.Cpu.Interrupciones.{
  Pic, Cpu, enviar, filtrar, remover, vacia, atender_interrupcion, check_interrupt,
}
use tp_2024_1c_pccsc.Cpu.Interrupciones.Prioridad.{desalojo_proceso_vacio}
use tp_2024_1c_pccsc.Memoria.{Memoria}
use tp_2024_1c_pccsc.Sistema.Instrucciones.{detener, abandonar}
use tp_2024_1c_pccsc.Sistema.Ejecucion.{
  Tokens, avanzar_pc, sin_memoria, com_exit, comando_de, ejecutar_comando, ejecutar_instruccion,
  fetch, ciclo_instruccion,
}

ramas_desalojado :
    (a b d : Bool) (x y z : Option Cpu)
    → d ≡ true
    → (if a then x else if not b && not d then y else z) ≡ (if a then x else z)
ramas_desalojado true b d x y z h = refl
ramas_desalojado false true d x y z h = refl
ramas_desalojado false false true x y z h = refl
ramas_desalojado false false false x y z h = absurd (cc h)

-- A check of a CPU that has given its process back sends nothing.
check_interrupt-desalojado :
    (list_sort : List Pic → List Pic) (pid : ℕ) (c : Cpu)
    → c.desalojo ≡ true
    → (is : List Pic) × (check_interrupt list_sort pid c
        ≡ some (record c { list_interrupciones = is }))
unfolding check_interrupt
check_interrupt-desalojado list_sort pid c d =
    let is = c.list_interrupciones in
    let quedan = record c { list_interrupciones = remover pid is } in
    let e =
      ramas_desalojado (vacia is) (vacia (filtrar pid is)) c.desalojo (some c)
        (atender_interrupcion list_sort (filtrar pid is) quedan) (some quedan) d in
    elim (Bool-cases (vacia is)) [
      | inl y ↦ (is, e ∙ si (vacia is) (some c) (some quedan) y)
      | inr n ↦ (remover pid is, e ∙ no (vacia is) (some c) (some quedan) n)
    ]
  where
    si : (b : Bool) (x y : Option Cpu) → b ≡ true → (if b then x else y) ≡ x
    si true x y h = refl
    si false x y h = absurd (cc h)

    no : (b : Bool) (x y : Option Cpu) → b ≡ false → (if b then x else y) ≡ y
    no true x y h = absurd (cc h)
    no false x y h = refl

module _ ⦃bits : Bitarray⦄ (list_sort : List Pic → List Pic) (string_split : List ℕ → Tokens)
    (fopen : List ℕ → Option (List (List ℕ))) (path : List ℕ) where
  es_exit : comando_de (texto "EXIT") ≡ com_exit
  unfolding comando_de igual
  es_exit = refl

  abandonar_lem :
      (mensaje : ℕ) (c : Cpu)
      → (b : Sbuffer) × (abandonar none mensaje c ≡ some (enviar mensaje b (detener c)))
        × (buffer_add_registros (buffer_create 36) c.registros ≡ some b)
  unfolding abandonar
  abandonar_lem mensaje c = desalojo_proceso_vacio mensaje (detener c)

  exit_instruccion :
      (respuesta : ℕ) (resto : Tokens) (c : Cpu) (m : Memoria)
      → (b : Sbuffer) × (ejecutar_instruccion respuesta (texto "EXIT" ∷ resto) c m
          ≡ some (enviar 9 b (detener (avanzar_pc c)), m))
        × (buffer_add_registros (buffer_create 36) (avanzar_pc c).registros ≡ some b)
  unfolding ejecutar_instruccion ejecutar_comando
  exit_instruccion respuesta resto c m =
      let (b, run, lleva) = abandonar_lem 9 (avanzar_pc c) in
      (
        b,
        ap (λ k. ejecutar_comando respuesta k (texto "EXIT" ∷ resto) (avanzar_pc c) m) es_exit
            ∙ ap (sin_memoria m) run,
        lleva,
      )

  -- A round whose instruction memory has given and whose first word is EXIT is over, whichever
  -- interrupts are in the list: the process does not go on, and exactly one packet has been sent, of
  -- operation code 9 and with the process's registers, its program counter advanced. Memory is as before.
  pub ciclo_exit_lem :
      (respuesta : ℕ) (c : Cpu) (m : Memoria) (leido : List ℕ) (resto : Tokens)
      → fetch list_sort string_split fopen path respuesta c m ≡ some leido
      → string_split leido ≡ texto "EXIT" ∷ resto
      → (c' : Cpu) × (b : Sbuffer) × (ciclo_instruccion list_sort string_split fopen path respuesta
            c m
          ≡ some (c', m))
        × (c'.seguir_ejecucion ≡ false)
        × (c'.registros ≡ (avanzar_pc c).registros)
        × (buffer_add_registros (buffer_create 36) c'.registros ≡ some b)
        × (c'.enviados ≡ c.enviados ++ (9, b) ∷ [])
  unfolding ciclo_instruccion
  ciclo_exit_lem respuesta c m leido resto f s =
      let (b, run, lleva) = exit_instruccion respuesta resto c m in
      let d = enviar 9 b (detener (avanzar_pc c)) in
      let (is, chk) = check_interrupt-desalojado list_sort d.pid_proceso d refl in
      let run' = ap (λ ts. ejecutar_instruccion respuesta ts c m) s ∙ run in
      (
        record d { list_interrupciones = is },
        b,
        rw (f, ◌>>=◌) (rw (run', ◌>>=◌) (rw (chk, ◌>>=◌) refl)),
        refl,
        refl,
        lleva,
        refl,
      )
