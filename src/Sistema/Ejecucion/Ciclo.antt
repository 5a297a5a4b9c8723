-- ===== src/Sistema/Ejecucion/Ciclo.antt =====
-- What a whole execution sends to the kernel.
use mathlib.Core.List.{Memᴰ}
use mathlib.Core.List.Memᴰ
use tp_2024_1c_pccsc.Common.{
  ℕ, Bool, true, false, Option, some, List, [], ◌∷◌, ◌++◌, ◌≡◌, ◌⊎◌, inl, inr, refl, sym, ◌∙◌, ap,
  subst, append_assoc, append-nil, >>=-eq-some, some-inj, if◌then◌else◌,
}
use tp_2024_1c_pccsc.Common.Bitarray.{Bitarray}
use tp_2024_1c_pccsc.Buffer.{Sbuffer}
use tp_2024_1c_pccsc.Cpu.Interrupciones.{Pic, Cpu}
use tp_2024_1c_pccsc.Cpu.Interrupciones.Prioridad.{Ordena}
use tp_2024_1c_pccsc.Memoria.{Memoria}
use tp_2024_1c_pccsc.Sistema.Ejecucion.{Tokens, Ronda, llegar, ciclo_instruccion, ejecutar_bucle}
use tp_2024_1c_pccsc.Sistema.Ejecucion.Desalojos.{ConContexto}
use tp_2024_1c_pccsc.Sistema.Ejecucion.Vuelta.{
  Consulta, Motivo, por_instruccion, por_interrupcion, continua, termina, MismoProceso,
  ciclo_instruccion_lem,
}

module _ ⦃bits : Bitarray⦄ where
  -- The questions of some rounds, in order: at most one of each, and never of a round whose answer is
  -- DESALOJAR.
  pub data Consultas : List Ronda → List (ℕ × Sbuffer) → Type 0 where
    sin_rondas : Consultas [] []
    ronda :
        (r : Ronda) (rs : List Ronda) (xs ys : List (ℕ × Sbuffer))
        → Consulta r.respuesta xs
        → Consultas rs ys
        → Consultas (r ∷ rs) (xs ++ ys)

  -- An interrupt that was in the list at the start, or that came in one of the rounds.
  abbrev pub Llegada : Cpu → List Ronda → Pic → Type 0
  Llegada c rs i = Memᴰ i c.list_interrupciones ⊎ ((r : Ronda) × Memᴰ r rs × Memᴰ i r.llegan)

  -- The packets of an execution from `c` to `c'` over the rounds `rs`. Either the process goes on after
  -- all of them, and the packets are the questions. Or there is a last round: its own question and those
  -- of the rounds before it come first, and then exactly one packet, with the context of the process and
  -- the reason.
  pub data Ejecucion (rs : List Ronda) (c c' : Cpu) : Type 0 where
    en_marcha :
        (pre : List (ℕ × Sbuffer))
        → Consultas rs pre
        → c'.seguir_ejecucion ≡ true
        → c'.desalojo ≡ false
        → c'.enviados ≡ c.enviados ++ pre
        → Ejecucion rs c c'
    terminada :
        (hechas quedan : List Ronda) (ultima : Ronda) (pre suyas : List (ℕ × Sbuffer))
        (x : ℕ × Sbuffer)
        → rs ≡ hechas ++ ultima ∷ quedan
        → Consultas hechas pre
        → Consulta ultima.respuesta suyas
        → Motivo c.pid_proceso (Llegada c rs) ultima.respuesta x.0
        → ConContexto c'.registros x.1
        → c'.seguir_ejecucion ≡ false
        → c'.enviados ≡ c.enviados ++ (pre ++ (suyas ++ x ∷ []))
        → Ejecucion rs c c'

  -- One round before an execution.
  Llegada-detras :
      (c d : Cpu) (r : Ronda) (rs : List Ronda) (i : Pic)
      → MismoProceso (llegar r c) d
      → Llegada d rs i
      → Llegada c (r ∷ rs) i
  Llegada-detras c d r rs i m (inl k) =
      elim (Memᴰ.append_cases c.list_interrupciones (m.interrupciones i k)) [
        | inl a ↦ inl a
        | inr b ↦ inr (r, Memᴰ.head refl, b)
      ]
  Llegada-detras c d r rs i m (inr (q, k, l)) = inr (q, Memᴰ.tail k, l)

  Motivo-map :
      (pid pid' q mensaje : ℕ) (I J : Pic → Type 0)
      → pid ≡ pid'
      → ((i : Pic) → I i → J i)
      → Motivo pid I q mensaje
      → Motivo pid' J q mensaje
  Motivo-map pid pid' q mensaje I J e f (por_instruccion o) = por_instruccion o
  Motivo-map pid pid' q mensaje I J e f (por_interrupcion i k p o) =
      por_interrupcion i (f i k) (p ∙ e) o

  Ejecucion-detras :
      (r : Ronda) (rs : List Ronda) (c d c' : Cpu) (xs : List (ℕ × Sbuffer))
      → Consulta r.respuesta xs
      → d.enviados ≡ c.enviados ++ xs
      → MismoProceso (llegar r c) d
      → Ejecucion rs d c'
      → Ejecucion (r ∷ rs) c c'
  Ejecucion-detras r rs c d c' xs q e m (en_marcha pre k s f g) =
      en_marcha (xs ++ pre) (ronda r rs xs pre q k) s f
        (g ∙ ap (λ z. z ++ pre) e ∙ append_assoc c.enviados xs pre)
  Ejecucion-detras r rs c d c' xs q e m (terminada hs qs u pre ps x l k v o w s g) =
      terminada (r ∷ hs) qs u (xs ++ pre) ps x (ap (◌∷◌ r) l) (ronda r hs xs pre q k) v
        (Motivo-map d.pid_proceso c.pid_proceso u.respuesta x.0 (Llegada d rs) (Llegada c (r ∷ rs))
          m.proceso (λ i. Llegada-detras c d r rs i m) o)
        w s
        (g
          ∙ ap (λ z. z ++ (pre ++ (ps ++ x ∷ []))) e
          ∙ append_assoc c.enviados xs (pre ++ (ps ++ x ∷ []))
          ∙ ap (λ z. c.enviados ++ z) (sym (append_assoc xs pre (ps ++ x ∷ []))))

  Ejecucion-final :
      (r : Ronda) (rs : List Ronda) (c c' : Cpu) (ps : List (ℕ × Sbuffer)) (x : ℕ × Sbuffer)
      → Consulta r.respuesta ps
      → Motivo c.pid_proceso (λ i. Memᴰ i (llegar r c).list_interrupciones) r.respuesta x.0
      → ConContexto c'.registros x.1
      → c'.seguir_ejecucion ≡ false
      → c'.enviados ≡ c.enviados ++ (ps ++ x ∷ [])
      → Ejecucion (r ∷ rs) c c'
  Ejecucion-final r rs c c' ps x q o w s g =
      terminada [] rs r [] ps x refl sin_rondas q
        (Motivo-map c.pid_proceso c.pid_proceso r.respuesta x.0
          (λ i. Memᴰ i (llegar r c).list_interrupciones) (Llegada c (r ∷ rs)) refl
          (λ i k. elim (Memᴰ.append_cases c.list_interrupciones k) [
            | inl a ↦ inl a
            | inr b ↦ inr (r, Memᴰ.head refl, b)
          ])
          o)
        w s g

rama_si {ℓ} :
    {A : Type ℓ} (b : Bool) (x y : Option A) {r : Option A}
    → b ≡ true
    → (if b then x else y) ≡ r
    → x ≡ r
rama_si true x y e h = h
rama_si false x y e h = absurd (cc e)

rama_no {ℓ} :
    {A : Type ℓ} (b : Bool) (x y : Option A) {r : Option A}
    → b ≡ false
    → (if b then x else y) ≡ r
    → y ≡ r
rama_no true x y e h = absurd (cc e)
rama_no false x y e h = h

module _ ⦃bits : Bitarray⦄ (list_sort : List Pic → List Pic) (string_split : List ℕ → Tokens)
    (fopen : List ℕ → Option (List (List ℕ))) (path : List ℕ) where
  -- Once the process does not go on, the loop is over.
  bucle-parado :
      (rs : List Ronda) (c : Cpu) (m : Memoria) (r : Cpu × Memoria)
      → c.seguir_ejecucion ≡ false
      → ejecutar_bucle list_sort string_split fopen path rs c m ≡ some r
      → c ≡ r.0
  unfolding ejecutar_bucle
  bucle-parado [] c m r s h = ap (λ w. w.0) (let z : (c, m) ≡ r = some-inj h in z)
  bucle-parado (q ∷ rs) c m r s h =
      ap (λ w. w.0)
        (let z : (c, m) ≡ r = some-inj (rama_no c.seguir_ejecucion _ (some (c, m)) s h) in z)

  -- An execution that starts with a process going on, with a library that sorts, after any number of
  -- rounds that are over, whatever the kernel answers and whichever interrupts come in them: either the
  -- process goes on and the CPU has sent at most one WAIT or SIGNAL a round, none of them answered by
  -- DESALOJAR; or the loop has ended in one of the rounds, and behind those questions exactly one packet
  -- has been sent, with the process's registers, because of an instruction that gives the process back,
  -- of the answer DESALOJAR to this round's WAIT or SIGNAL, or of an interrupt of the process.
  pub ejecutar_bucle_lem :
      (rs : List Ronda) (c : Cpu) (m : Memoria) (r : Cpu × Memoria)
      → Ordena list_sort
      → c.seguir_ejecucion ≡ true
      → c.desalojo ≡ false
      → ejecutar_bucle list_sort string_split fopen path rs c m ≡ some r
      → Ejecucion rs c r.0
  unfolding ejecutar_bucle
  ejecutar_bucle_lem [] c m r o s f h =
      let z : (c, m) ≡ r = some-inj h in
      subst (λ w. Ejecucion [] c w.0) z (en_marcha [] sin_rondas s f (sym (append-nil c.enviados)))
  ejecutar_bucle_lem (q ∷ rs) c m r o s f h =
      let (x, ex, h') =
        >>=-eq-some (ciclo_instruccion list_sort string_split fopen path q.respuesta (llegar q c) m)
          _ (rama_si c.seguir_ejecucion _ (some (c, m)) s h) in
      let (v, w) =
        ciclo_instruccion_lem list_sort string_split fopen path q.respuesta (llegar q c) m x o s f
          ex in
      elim v [
        | continua pre k s' f' e ↦
            Ejecucion-detras q rs c x.0 r.0 pre k e w (ejecutar_bucle_lem rs x.0 x.1 r o s' f' h')
        | termina pre y k p l s' e ↦
            subst (λ z. Ejecucion (q ∷ rs) c z) (bucle-parado rs x.0 x.1 r s' h')
              (Ejecucion-final q rs c x.0 pre y k p l s' e)
      ]
