-- ===== src/Sistema/Ejecucion/Desalojos.antt =====
-- What an instruction sends to the kernel, and whether the process goes on.
use tp_2024_1c_pccsc.Common.{
  ℕ, ◌+◌, ◌<◌, ◌≢◌, arith, count, ==→≡, ==→ne, true, false, Option, none, some, List, [], ◌∷◌, ◌++◌,
  ◌≡◌, ◌⊎◌, inl, inr, refl, ◌∙◌, ap, subst, length, ◌==◌, if◌then◌else◌, ◌>>=◌, >>=-eq-some,
  Bool-cases,
}
use tp_2024_1c_pccsc.Common.Bitarray.{Bitarray}
use tp_2024_1c_pccsc.Buffer.{
  Sbuffer, RegistrosCpu, buffer_create, buffer_add_uint32, buffer_add_string, buffer_add_registros,
  buffer_add_buffer,
}
use tp_2024_1c_pccsc.Common.Bytes.{bytes_uint32}
use tp_2024_1c_pccsc.Common.Texto.{texto}
use tp_2024_1c_pccsc.Cpu.Numeros.{atoi}
use tp_2024_1c_pccsc.Cpu.Registros.{obtener_valor_registro, obtener_tipo, set}
use tp_2024_1c_pccsc.Cpu.Interrupciones.{Cpu, enviar, desalojo_proceso}
use tp_2024_1c_pccsc.Memoria.{Memoria, Respuesta, continuar, out_of_memory}
use tp_2024_1c_pccsc.Sistema.{leer_logica, escribir_logica, copy_string}
use tp_2024_1c_pccsc.Sistema.Instrucciones.{
  con_registros, detener, abandonar, instruccion_recurso, io_gen_sleep, io_fs_create_delete,
  instruccion_truncate, pedir_resize, resize, mov_out, mov_in, copiar, bytes_de_tipo, snprintf_u,
  valor_leido,
}
use tp_2024_1c_pccsc.Sistema.Ejecucion.{sin_memoria}

-- A packet with the context of a process: its registers, and fields behind them.
pub data ConContexto (rs : RegistrosCpu) : Sbuffer → Type 0 where
  registros : (b : Sbuffer) {b' : Sbuffer} → buffer_add_registros b rs ≡ some b' → ConContexto rs b'
  con_uint32 :
      (b : Sbuffer) {b' : Sbuffer} (x : ℕ)
      → ConContexto rs b
      → buffer_add_uint32 b x ≡ some b'
      → ConContexto rs b'
  con_string :
      (b : Sbuffer) {b' : Sbuffer} (x : List ℕ)
      → ConContexto rs b
      → buffer_add_string b x ≡ some b'
      → ConContexto rs b'
  con_buffer :
      (b : Sbuffer) {b' : Sbuffer} (x : Sbuffer)
      → ConContexto rs b
      → buffer_add_buffer b x ≡ some b'
      → ConContexto rs b'

-- The operation codes of the instructions that always give the process back: EXIT, OUT_OF_MEMORY and
-- those of the interfaces.
abbrev pub codigos_desalojo : List ℕ
codigos_desalojo = 9 ∷ 33 ∷ 16 ∷ 18 ∷ 19 ∷ 20 ∷ 21 ∷ 22 ∷ 23 ∷ 24 ∷ []

abbrev pub EsRecurso : ℕ → Type 0
EsRecurso mensaje = (mensaje ≡ 10) ⊎ (mensaje ≡ 11)

-- Why an instruction gives the process back: its code, or DESALOJAR as the answer to WAIT or SIGNAL.
abbrev pub Entrega : ℕ → ℕ → Type 0
Entrega respuesta mensaje =
    (0 < count mensaje codigos_desalojo) ⊎ (EsRecurso mensaje × (respuesta ≡ 26))

-- One step of the CPU, by what the kernel sees of it: nothing; a question about a resource, answered
-- so that the process goes on; or the process itself, given back with its context.
pub data Paso (respuesta : ℕ) (c c' : Cpu) : Type 0 where
  sigue :
      c'.seguir_ejecucion ≡ c.seguir_ejecucion
      → c'.desalojo ≡ c.desalojo
      → c'.enviados ≡ c.enviados
      → Paso respuesta c c'
  pregunta :
      (x : ℕ × Sbuffer)
      → EsRecurso x.0
      → respuesta ≢ 26
      → c'.seguir_ejecucion ≡ c.seguir_ejecucion
      → c'.desalojo ≡ c.desalojo
      → c'.enviados ≡ c.enviados ++ x ∷ []
      → Paso respuesta c c'
  desaloja :
      (x : ℕ × Sbuffer)
      → Entrega respuesta x.0
      → ConContexto c'.registros x.1
      → c'.seguir_ejecucion ≡ false
      → c'.desalojo ≡ true
      → c'.enviados ≡ c.enviados ++ x ∷ []
      → Paso respuesta c c'

-- The step of an instruction, which changes neither the process nor the interrupts.
abbrev pub PasoInstruccion : ℕ → Cpu → Cpu → Type 0
PasoInstruccion respuesta c c' =
    Paso respuesta c c'
    × (c'.pid_proceso ≡ c.pid_proceso)
    × (c'.list_interrupciones ≡ c.list_interrupciones)

-- The result of one of its ways to end.
pub sigue_igual :
    {rta : ℕ} (c d c' : Cpu) → PasoInstruccion rta c d → d ≡ c' → PasoInstruccion rta c c'
sigue_igual {rta} c d c' h e = subst (PasoInstruccion rta c) e h

pub con_registros-Paso :
    {rta : ℕ} (c c' : Cpu) (r : Option RegistrosCpu)
    → con_registros c r ≡ some c'
    → PasoInstruccion rta c c'
con_registros-Paso c c' r h =
    let (s, _, e) = >>=-eq-some r _ h in
    sigue_igual c (record c { registros = s }) c' (sigue refl refl refl, refl, refl) cc

pub abandonar-Paso :
    {rta : ℕ} (buffer : Option Sbuffer) (mensaje : ℕ) (c c' : Cpu)
    → 0 < count mensaje codigos_desalojo
    → abandonar buffer mensaje c ≡ some c'
    → PasoInstruccion rta c c'
unfolding abandonar desalojo_proceso
abandonar-Paso buffer mensaje c c' k h =
    let (b, eb, e) =
      >>=-eq-some
        (buffer_add_registros (elim buffer [ none ↦ buffer_create 36 | some b ↦ b ]) c.registros) _
        h in
    sigue_igual c (enviar mensaje b (detener c)) c'
      (
        desaloja (mensaje, b) (inl k)
            (registros (elim buffer [ none ↦ buffer_create 36 | some b ↦ b ]) eb) refl refl refl,
        refl,
        refl,
      )
      cc

pub instruccion_recurso-Paso :
    (rta : ℕ) (recurso : List ℕ) (mensaje : ℕ) (c c' : Cpu)
    → (mensaje ≡ 10) ⊎ (mensaje ≡ 11)
    → instruccion_recurso rta recurso mensaje c ≡ some c'
    → PasoInstruccion rta c c'
unfolding instruccion_recurso desalojo_proceso
instruccion_recurso-Paso rta recurso mensaje c c' m h =
    let (b0, _, e0) =
      >>=-eq-some (buffer_add_string (buffer_create (length recurso + 40)) recurso) _ h in
    let (d, ed, e1) = >>=-eq-some (desalojo_proceso (some b0) mensaje c) _ e0 in
    let (b, eb, e2) = >>=-eq-some (buffer_add_registros b0 c.registros) _ ed in
    let z : enviar mensaje b c ≡ d = cc in
    let f : (if rta == 26 then detener (enviar mensaje b c) else enviar mensaje b c) ≡ c' =
      ap (λ w. if rta == 26 then detener w else w) z
      ∙ (let y : (if rta == 26 then detener d else d) ≡ c' = cc in y) in
    elim (Bool-cases (rta == 26)) [
      | inl y ↦
          sigue_igual c (detener (enviar mensaje b c)) c'
            (
              desaloja (mensaje, b) (inr (m, ==→≡ rta 26 y)) (registros b0 eb) refl refl refl,
              refl,
              refl,
            )
            (rw y at f)
      | inr n ↦
          sigue_igual c (enviar mensaje b c) c'
            (pregunta (mensaje, b) m (==→ne rta 26 n) refl refl refl, refl, refl) (rw n at f)
    ]

pub io_gen_sleep-Paso :
    {rta : ℕ} (n t : List ℕ) (c c' : Cpu) → io_gen_sleep n t c ≡ some c' → PasoInstruccion rta c c'
unfolding io_gen_sleep
io_gen_sleep-Paso n t c c' h =
    let (b0, _, e0) = >>=-eq-some (buffer_add_string (buffer_create (length n + 44)) n) _ h in
    let (b1, _, e1) = >>=-eq-some (buffer_add_uint32 b0 (atoi t)) _ e0 in
    abandonar-Paso (some b1) 16 c c' (omega arith) e1

pub io_fs_create_delete-Paso :
    {rta : ℕ} (n f : List ℕ) (mensaje : ℕ) (c c' : Cpu)
    → 0 < count mensaje codigos_desalojo
    → io_fs_create_delete n f mensaje c ≡ some c'
    → PasoInstruccion rta c c'
unfolding io_fs_create_delete
io_fs_create_delete-Paso n f mensaje c c' k h =
    let (b0, _, e0) =
      >>=-eq-some (buffer_add_string (buffer_create (length n + 4 + (length f + 4) + 32)) n) _ h in
    let (b1, _, e1) = >>=-eq-some (buffer_add_string b0 f) _ e0 in
    abandonar-Paso (some b1) mensaje c c' k e1

pub instruccion_truncate-Paso :
    {rta : ℕ} (n f r : List ℕ) (c c' : Cpu)
    → instruccion_truncate n f r c ≡ some c'
    → PasoInstruccion rta c c'
unfolding instruccion_truncate
instruccion_truncate-Paso n f r c c' h =
    let (t, _, e) = >>=-eq-some (obtener_valor_registro r c.registros) _ h in
    let (b0, _, e0) =
      >>=-eq-some (buffer_add_string (buffer_create (length n + 4 + (length f + 4) + 36)) n) _ e in
    let (b1, _, e1) = >>=-eq-some (buffer_add_string b0 f) _ e0 in
    let (b2, _, e2) = >>=-eq-some (buffer_add_uint32 b1 t) _ e1 in
    abandonar-Paso (some b2) 24 c c' (omega arith) e2

module _ ⦃bits : Bitarray⦄ where
  pub sin_memoria-Paso :
      {rta : ℕ} (m : Memoria) (x : Option Cpu) (c : Cpu) (r : Cpu × Memoria)
      → ((c' : Cpu) → x ≡ some c' → PasoInstruccion rta c c')
      → sin_memoria m x ≡ some r
      → PasoInstruccion rta c r.0
  sin_memoria-Paso m x c r f h =
      let (d, ed, e) = >>=-eq-some x _ h in
      sigue_igual c d r.0 (f d ed) (let z : (d, m) ≡ r = cc in ap (λ w. w.0) z)

  pub resize-Paso :
      {rta : ℕ} (t : List ℕ) (c : Cpu) (m : Memoria) (r : Cpu × Memoria)
      → resize t c m ≡ some r
      → PasoInstruccion rta c r.0
  unfolding resize
  resize-Paso {rta} t c m r h =
      let (q, eq, e) = >>=-eq-some (pedir_resize c.pid_proceso (atoi t) m) _ h in final q.0 q.1 e
    where
      final :
          (x : Respuesta) (m' : Memoria)
          → (elim x [ out_of_memory ↦ abandonar none 33 c | continuar ↦ some c ] >>= λ c.
              some (c, m'))
            ≡ some r
          → PasoInstruccion rta c r.0
      final continuar m' e =
          let z : (c, m') ≡ r = cc in
          sigue_igual c c r.0 (sigue refl refl refl, refl, refl) (ap (λ w. w.0) z)
      final out_of_memory m' e =
          sin_memoria-Paso m' (abandonar none 33 c) c r
            (λ c'. abandonar-Paso none 33 c c' (omega arith)) e

  pub mov_out-Paso :
      {rta : ℕ} (a d : List ℕ) (c : Cpu) (m : Memoria) (r : Cpu × Memoria)
      → mov_out a d c m ≡ some r
      → PasoInstruccion rta c r.0
  unfolding mov_out
  mov_out-Paso a d c m r h =
      let (l, _, e0) = >>=-eq-some (obtener_valor_registro a c.registros) _ h in
      let (t, _, e1) = >>=-eq-some (obtener_tipo d) _ e0 in
      let (v, _, e2) = >>=-eq-some (obtener_valor_registro d c.registros) _ e1 in
      let (s, _, e3) =
        >>=-eq-some (escribir_logica c.pid_proceso l (bytes_uint32 v) (bytes_de_tipo t) c.tlb m) _
          e2 in
      let z : (record c { tlb = s.0 }, s.1) ≡ r = cc in
      sigue_igual c (record c { tlb = s.0 }) r.0 (sigue refl refl refl, refl, refl)
        (ap (λ w. w.0) z)

  pub mov_in-Paso :
      {rta : ℕ} (d a : List ℕ) (c : Cpu) (m : Memoria) (r : Cpu × Memoria)
      → mov_in d a c m ≡ some r
      → PasoInstruccion rta c r.0
  unfolding mov_in
  mov_in-Paso d a c m r h =
      let (l, _, e0) = >>=-eq-some (obtener_valor_registro a c.registros) _ h in
      let (t, _, e1) = >>=-eq-some (obtener_tipo d) _ e0 in
      let (s, _, e2) = >>=-eq-some (leer_logica c.pid_proceso l (bytes_de_tipo t) c.tlb m) _ e1 in
      let (g, _, e3) = >>=-eq-some (set d (snprintf_u (valor_leido t s.0)) c.registros) _ e2 in
      let z : (record c { tlb = s.1; registros = g }, m) ≡ r = cc in
      sigue_igual c (record c { tlb = s.1; registros = g }) r.0 (sigue refl refl refl, refl, refl)
        (ap (λ w. w.0) z)

  pub copiar-Paso :
      {rta : ℕ} (t : List ℕ) (c : Cpu) (m : Memoria) (r : Cpu × Memoria)
      → copiar t c m ≡ some r
      → PasoInstruccion rta c r.0
  unfolding copiar
  copiar-Paso t c m r h =
      let (si, _, e0) = >>=-eq-some (obtener_valor_registro (texto "SI") c.registros) _ h in
      let (di, _, e1) = >>=-eq-some (obtener_valor_registro (texto "DI") c.registros) _ e0 in
      let (s, _, e2) = >>=-eq-some (copy_string c.pid_proceso si di (atoi t) c.tlb m) _ e1 in
      let z : (record c { tlb = s.0 }, s.1) ≡ r = cc in
      sigue_igual c (record c { tlb = s.0 }) r.0 (sigue refl refl refl, refl, refl)
        (ap (λ w. w.0) z)
