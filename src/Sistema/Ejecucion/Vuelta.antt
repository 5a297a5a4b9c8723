-- ===== src/Sistema/Ejecucion/Vuelta.antt =====
-- What a round of the CPU sends to the kernel.
use mathlib.Core.List.{Memᴰ}
use tp_2024_1c_pccsc.Common.{
  ℕ, Bool, true, false, not, ◌&&◌, Option, none, some, List, [], ◌∷◌, ◌++◌, ◌≡◌, ◌≢◌, ◌⊎◌, inl, inr,
  refl, sym, ◌∙◌, ap, subst, append_assoc, append-nil, >>=-eq-some, some-inj, if◌then◌else◌,
}
use tp_2024_1c_pccsc.Common.Bitarray.{Bitarray}
use tp_2024_1c_pccsc.Buffer.{Sbuffer, buffer_create, buffer_add_registros}
use tp_2024_1c_pccsc.Cpu.Interrupciones.{
  Pic, Cpu, enviar, desalojo_proceso, filtrar, remover, vacia, atender_interrupcion,
  check_interrupt,
}
use tp_2024_1c_pccsc.Cpu.Interrupciones.Prioridad.{Ordena, filtrar-Mem, remover-Mem}
use tp_2024_1c_pccsc.Memoria.{Memoria}
use tp_2024_1c_pccsc.Sistema.Ejecucion.{
  Tokens, ejecutar_instruccion, avanzar_pc, comando_de, fetch, ciclo_instruccion,
}
use tp_2024_1c_pccsc.Sistema.Ejecucion.Desalojos.{
  Paso, sigue, pregunta, desaloja, EsRecurso, ConContexto, registros, Entrega,
}
use tp_2024_1c_pccsc.Sistema.Ejecucion.Comandos.{ejecutar_comando-Paso}

-- The questions of a round: none, or one WAIT or SIGNAL that is not answered by DESALOJAR.
pub data Consulta (respuesta : ℕ) : List (ℕ × Sbuffer) → Type 0 where
  ninguna : Consulta respuesta []
  una : (x : ℕ × Sbuffer) → EsRecurso x.0 → respuesta ≢ 26 → Consulta respuesta (x ∷ [])

-- Why a process is given back: an instruction, or an interrupt `i` of the process.
pub data Motivo (pid : ℕ) (llegada : Pic → Type 0) (respuesta mensaje : ℕ) : Type 0 where
  por_instruccion : Entrega respuesta mensaje → Motivo pid llegada respuesta mensaje
  por_interrupcion :
      (i : Pic)
      → llegada i
      → i.pid ≡ pid
      → mensaje ≡ i.motivo_interrupcion
      → Motivo pid llegada respuesta mensaje

-- The packets of a round from `c` to `c'`: questions, and behind them, if the process does not go on,
-- one with the process's context and the reason.
pub data Enviados (respuesta : ℕ) (c c' : Cpu) : Type 0 where
  continua :
      (pre : List (ℕ × Sbuffer))
      → Consulta respuesta pre
      → c'.seguir_ejecucion ≡ true
      → c'.desalojo ≡ false
      → c'.enviados ≡ c.enviados ++ pre
      → Enviados respuesta c c'
  termina :
      (pre : List (ℕ × Sbuffer)) (x : ℕ × Sbuffer)
      → Consulta respuesta pre
      → Motivo c.pid_proceso (λ i. Memᴰ i c.list_interrupciones) respuesta x.0
      → ConContexto c'.registros x.1
      → c'.seguir_ejecucion ≡ false
      → c'.enviados ≡ c.enviados ++ (pre ++ x ∷ [])
      → Enviados respuesta c c'

-- The process stays the same, and no interrupt appears in the list.
pub record MismoProceso (c c' : Cpu) : Type 0 where
  pub proceso : c'.pid_proceso ≡ c.pid_proceso
  pub interrupciones : (i : Pic) → Memᴰ i c'.list_interrupciones → Memᴰ i c.list_interrupciones

-- What a check for interrupts may do.
data Chequeo (pid : ℕ) (c c' : Cpu) : Type 0 where
  nada :
      c'.seguir_ejecucion ≡ c.seguir_ejecucion
      → c'.desalojo ≡ c.desalojo
      → c'.enviados ≡ c.enviados
      → c'.registros ≡ c.registros
      → Chequeo pid c c'
  interrumpe :
      (x : ℕ × Sbuffer) (i : Pic)
      → c.desalojo ≡ false
      → Memᴰ i c.list_interrupciones
      → i.pid ≡ pid
      → x.0 ≡ i.motivo_interrupcion
      → ConContexto c'.registros x.1
      → c'.seguir_ejecucion ≡ false
      → c'.enviados ≡ c.enviados ++ x ∷ []
      → Chequeo pid c c'

atender_interrupcion-Chequeo :
    (list_sort : List Pic → List Pic) (pid : ℕ) (c c' : Cpu)
    → Ordena list_sort
    → c.desalojo ≡ false
    → let is = c.list_interrupciones in
      atender_interrupcion list_sort
          (filtrar pid is)
          (record c { list_interrupciones = remover pid is })
        ≡ some c'
      → Chequeo pid c c' × MismoProceso c c'
unfolding atender_interrupcion desalojo_proceso
atender_interrupcion-Chequeo list_sort pid c c' o d h =
    con (list_sort (filtrar pid c.list_interrupciones)) refl h
  where
    con :
        (l : List Pic)
        → list_sort (filtrar pid c.list_interrupciones) ≡ l
        → elim l [
          | [] ↦ none
          | primera ∷ _ ↦ desalojo_proceso none primera.motivo_interrupcion (record c {
            list_interrupciones = remover pid c.list_interrupciones;
            seguir_ejecucion = false;
          })
        ]
          ≡ some c'
        → Chequeo pid c c' × MismoProceso c c'
    con [] e h = absurd (cc h)
    con (i ∷ is) e h =
        let propias = filtrar pid c.list_interrupciones in
        let (b, eb, e') = >>=-eq-some (buffer_add_registros (buffer_create 36) c.registros) _ h in
        let s = record c {
          list_interrupciones = remover pid c.list_interrupciones;
          seguir_ejecucion = false;
        } in
        let m =
          filtrar-Mem pid c.list_interrupciones i
            (o.sale i propias (subst (λ z. Memᴰ i z) (sym e) (Memᴰ.head refl))) in
        subst (λ z. Chequeo pid c z × MismoProceso c z)
          (let z : enviar i.motivo_interrupcion b s ≡ c' = some-inj e' in z)
          (
            interrumpe (i.motivo_interrupcion, b) i d m.0 m.1 refl (registros (buffer_create 36) eb)
                refl refl,
            record {
              proceso = refl;
              interrupciones = λ j k. (remover-Mem pid c.list_interrupciones j k).0;
            },
          )

ramas :
    (a b d : Bool) (x y z : Option Cpu) (c' : Cpu)
    → (if a then x else if not b && not d then y else z) ≡ some c'
    → (x ≡ some c') ⊎ (((d ≡ false) × (y ≡ some c')) ⊎ (z ≡ some c'))
ramas true b d x y z c' h = inl h
ramas false true d x y z c' h = inr (inr h)
ramas false false true x y z c' h = inr (inr h)
ramas false false false x y z c' h = inr (inl (refl, h))

check_interrupt-Chequeo :
    (list_sort : List Pic → List Pic) (pid : ℕ) (c c' : Cpu)
    → Ordena list_sort
    → check_interrupt list_sort pid c ≡ some c'
    → Chequeo pid c c' × MismoProceso c c'
unfolding check_interrupt
check_interrupt-Chequeo list_sort pid c c' o h =
    let is = c.list_interrupciones in
    let propias = filtrar pid is in
    let quedan = record c { list_interrupciones = remover pid is } in
    elim (ramas (vacia is) (vacia propias) c.desalojo (some c)
      (atender_interrupcion list_sort propias quedan) (some quedan) c' h) [
        | inl e ↦
            subst (λ z. Chequeo pid c z × MismoProceso c z) (some-inj e)
              (nada refl refl refl refl, record { proceso = refl; interrupciones = λ j k. k })
        | inr (inl (d, e)) ↦ atender_interrupcion-Chequeo list_sort pid c c' o d e
        | inr (inr e) ↦
            subst (λ z. Chequeo pid c z × MismoProceso c z) (some-inj e)
              (
                nada refl refl refl refl,
                record { proceso = refl; interrupciones = λ j k. (remover-Mem pid is j k).0 },
              )
      ]

-- An instruction and the check behind it.
juntar :
    (respuesta : ℕ) (c d c' : Cpu)
    → c.seguir_ejecucion ≡ true
    → c.desalojo ≡ false
    → d.list_interrupciones ≡ c.list_interrupciones
    → Paso respuesta c d
    → Chequeo c.pid_proceso d c'
    → Enviados respuesta c c'
juntar q c d c' s f l (sigue s1 f1 e1) (nada s2 f2 e2 r2) =
    continua [] ninguna (s2 ∙ s1 ∙ s) (f2 ∙ f1 ∙ f) (e2 ∙ e1 ∙ sym (append-nil c.enviados))
juntar q c d c' s f l (sigue s1 f1 e1) (interrumpe x i f2 mi pi oi k2 s2 e2) =
    termina [] x ninguna (por_interrupcion i (subst (λ z. Memᴰ i z) l mi) pi oi) k2 s2
      (e2 ∙ ap (λ z. z ++ x ∷ []) e1)
juntar q c d c' s f l (pregunta x o n s1 f1 e1) (nada s2 f2 e2 r2) =
    continua (x ∷ []) (una x o n) (s2 ∙ s1 ∙ s) (f2 ∙ f1 ∙ f) (e2 ∙ e1)
juntar q c d c' s f l (pregunta y o n s1 f1 e1) (interrumpe x i f2 mi pi oi k2 s2 e2) =
    termina (y ∷ []) x (una y o n) (por_interrupcion i (subst (λ z. Memᴰ i z) l mi) pi oi) k2 s2
      (e2 ∙ ap (λ z. z ++ x ∷ []) e1 ∙ append_assoc c.enviados (y ∷ []) (x ∷ []))
juntar q c d c' s f l (desaloja x o k s1 f1 e1) (nada s2 f2 e2 r2) =
    termina [] x ninguna (por_instruccion o) (subst (λ z. ConContexto z x.1) (sym r2) k) (s2 ∙ s1)
      (e2 ∙ e1)
juntar q c d c' s f l (desaloja y o k s1 f1 e1) (interrumpe x i f2 mi pi oi k2 s2 e2) =
    absurd (cc (f1, f2))

Enviados-desde :
    (respuesta : ℕ) (c d c' : Cpu)
    → d.pid_proceso ≡ c.pid_proceso
    → d.list_interrupciones ≡ c.list_interrupciones
    → d.enviados ≡ c.enviados
    → Enviados respuesta d c'
    → Enviados respuesta c c'
Enviados-desde q c d c' p l e (continua pre k s f g) = continua pre k s f (g ∙ ap (λ z. z ++ pre) e)
Enviados-desde q c d c' p l e (termina pre x k (por_instruccion o) v s g) =
    termina pre x k (por_instruccion o) v s (g ∙ ap (λ z. z ++ (pre ++ x ∷ [])) e)
Enviados-desde q c d c' p l e (termina pre x k (por_interrupcion i m pi o) v s g) =
    termina pre x k (por_interrupcion i (subst (λ z. Memᴰ i z) l m) (pi ∙ p) o) v s
      (g ∙ ap (λ z. z ++ (pre ++ x ∷ [])) e)

module _ ⦃bits : Bitarray⦄ (list_sort : List Pic → List Pic) (string_split : List ℕ → Tokens)
    (fopen : List ℕ → Option (List (List ℕ))) (path : List ℕ) where
  -- An instruction, from the CPU with its program counter advanced.
  pub instruccion-Paso :
      (respuesta : ℕ) (tokens : Tokens) (c : Cpu) (m : Memoria) (r : Cpu × Memoria)
      → ejecutar_instruccion respuesta tokens c m ≡ some r
      → (d : Cpu) × Paso respuesta d r.0
        × (d.seguir_ejecucion ≡ c.seguir_ejecucion)
        × (d.desalojo ≡ c.desalojo)
        × (d.enviados ≡ c.enviados)
        × (d.pid_proceso ≡ c.pid_proceso)
        × (d.list_interrupciones ≡ c.list_interrupciones)
        × (r.0.pid_proceso ≡ c.pid_proceso)
        × (r.0.list_interrupciones ≡ c.list_interrupciones)
  unfolding ejecutar_instruccion
  instruccion-Paso respuesta [] c m r h =
      let e : (c, m) ≡ r = some-inj h in
      let z : c ≡ r.0 = ap (λ w. w.0) e in
      (
        c,
        subst (λ z. Paso respuesta c z) z (sigue refl refl refl),
        refl,
        refl,
        refl,
        refl,
        refl,
        ap (λ w. w.pid_proceso) (sym z),
        ap (λ w. w.list_interrupciones) (sym z),
      )
  instruccion-Paso respuesta (t ∷ ts) c m r h =
      let p = ejecutar_comando-Paso respuesta (t ∷ ts) (avanzar_pc c) m r (comando_de t) h in
      (avanzar_pc c, p.0, refl, refl, refl, refl, refl, p.1, p.2)

  -- A round that starts with a process going on, with a library that sorts, and that is over: if the
  -- process still goes on, the CPU has not marked an eviction and has sent the kernel nothing, or one
  -- WAIT or SIGNAL that is not answered by DESALOJAR; if not, it has sent, behind that, exactly one
  -- packet more, with the process's registers, whose code is that of an instruction that gives the
  -- process back, or WAIT or SIGNAL answered by DESALOJAR, or the motive of an interrupt of the process.
  -- The CPU keeps the process's pid, and the list of interrupts has got no new ones.
  pub ciclo_instruccion_lem :
      (respuesta : ℕ) (c : Cpu) (m : Memoria) (r : Cpu × Memoria)
      → Ordena list_sort
      → c.seguir_ejecucion ≡ true
      → c.desalojo ≡ false
      → ciclo_instruccion list_sort string_split fopen path respuesta c m ≡ some r
      → Enviados respuesta c r.0 × MismoProceso c r.0
  unfolding ciclo_instruccion
  ciclo_instruccion_lem respuesta c m r o s f h =
      let (leido, _, e0) =
        >>=-eq-some (fetch list_sort string_split fopen path respuesta c m) _ h in
      let (q, eq, e1) =
        >>=-eq-some (ejecutar_instruccion respuesta (string_split leido) c m) _ e0 in
      let (c', ec, e2) = >>=-eq-some (check_interrupt list_sort q.0.pid_proceso q.0) _ e1 in
      let (d, p, ds, df, de, dp, dl, qp, ql) =
        instruccion-Paso respuesta (string_split leido) c m q eq in
      let (v, w) = check_interrupt-Chequeo list_sort q.0.pid_proceso q.0 c' o ec in
      let fin =
        juntar respuesta d q.0 c' (ds ∙ s) (df ∙ f) (ql ∙ sym dl) p
          (subst (λ z. Chequeo z q.0 c') (qp ∙ sym dp) v) in
      let z : (c', q.1) ≡ r = some-inj e2 in
      subst (λ z. Enviados respuesta c z × MismoProceso c z) (ap (λ w. w.0) z)
        (
          Enviados-desde respuesta c d c' dp dl de fin,
          record {
            proceso = w.proceso ∙ qp;
            interrupciones = λ i k. subst (λ z. Memᴰ i z) ql (w.interrupciones i k);
          },
        )
