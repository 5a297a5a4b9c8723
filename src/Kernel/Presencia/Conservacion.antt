-- ===== src/Kernel/Presencia/Conservacion.antt =====
-- The handler of the CPU's messages, branch by branch.
use tp_2024_1c_pccsc.Common.{
  ℕ, suc, ◌<◌, Bool, true, false, Option, none, some, List, [], ◌∷◌, ◌≡◌, refl, sym, ◌∙◌, subst,
  arith, length, count-append, ◌>>=◌, >>=-eq-some, Bool-cases, Option-cases, inl, inr,
}
use tp_2024_1c_pccsc.Buffer.{Sbuffer, buffer_read_string, buffer_read_registros}
use tp_2024_1c_pccsc.FileSystem.{igual}
use tp_2024_1c_pccsc.Kernel.{Kernel, Pcb, sin_desalojar, desalojado, pedido_finalizacion, con_pcb}
use tp_2024_1c_pccsc.Kernel.Recursos.{wait_recurso, signal_recurso, restar_recurso}
use tp_2024_1c_pccsc.Kernel.Io.{
  InstruccionIo, cortar_linea, a_exit, preparar_io, asignar_interfaz, cargar_quantum_restante,
  manejo_instruccion_io,
}
use tp_2024_1c_pccsc.Kernel.Desalojo.{
  Motivo, exit_proceso, finalizar_proceso, out_of_memory, wait, signal, fin_quantum, de_io,
  posicion_recurso, recupera_contexto, usar_recurso, pedir_recurso, manejar_motivo, a_ready,
  con_primero, desalojar, recibir_proceso_desalojado,
}
use tp_2024_1c_pccsc.Kernel.Presencia.{
  List-cases, presencias, devolver_instancia-presencias, wait_recurso-presencias, a_exit-presencias,
  asignar_interfaz-presencias,
}

posicion_recurso_lt :
    (r : List ℕ) (ns : List (List ℕ)) (i : ℕ) → posicion_recurso r ns ≡ some i → i < length ns
unfolding posicion_recurso
posicion_recurso_lt r [] i h = absurd cc
posicion_recurso_lt r (n ∷ ns) i h = elim (Bool-cases (igual r n)) [
  | inl y ↦ let e : some 0 ≡ some i = (rw y at h) in let z : 0 ≡ i = cc in omega arith
  | inr f ↦
      let (j, ej, e) = >>=-eq-some (posicion_recurso r ns) _ (rw f at h) in
      let z : suc j ≡ i = cc in omega (arith, posicion_recurso_lt r ns j ej)
]

-- The same queues.
record Iguales (k k' : Kernel) : Type 0 where
  running : k'.monitor_running ≡ k.monitor_running
  nombres : k'.nombres_recursos ≡ k.nombres_recursos
  todas : (q : ℕ) → presencias q k' ≡ presencias q k

con_pcb-Iguales : (p : ℕ) (f : Pcb → Pcb) (k : Kernel) → Iguales k (con_pcb p f k)
con_pcb-Iguales p f k = record { running = refl; nombres = refl; todas = λ q. refl }

recupera_contexto-Iguales :
    (p : ℕ) (b : Sbuffer) (k k' : Kernel) → recupera_contexto p b k ≡ some k' → Iguales k k'
unfolding recupera_contexto
recupera_contexto-Iguales p b k k' h =
    let (r, er, e) = >>=-eq-some (buffer_read_registros b) _ h in
    let z : con_pcb p (λ q. record q { registros = r.0 }) k ≡ k' = cc in
    subst (Iguales k) z (con_pcb-Iguales p (λ q. record q { registros = r.0 }) k)

module _ (q p : ℕ) (ps : List ℕ) where
  -- The process leaves with its registers saved, by a step that keeps the presences.
  salir :
      {R : Type 0} (f : Kernel → Kernel) (g : R) (b : Sbuffer) (k k' : Kernel) (g' : R)
      → k.monitor_running ≡ p ∷ ps
      → ((h : Kernel) → h.monitor_running ≡ p ∷ ps → presencias q (f h) ≡ presencias q h)
      → ◌>>=◌ {B = R × Kernel} (recupera_contexto p b k) (λ h. some (g, f h)) ≡ some (g', k')
      → presencias q k' ≡ presencias q k
  salir f g b k k' g' r s e =
      let (h, eh, e') = >>=-eq-some (recupera_contexto p b k) _ e in
      let i = recupera_contexto-Iguales p b k h eh in
      let z : f h ≡ k' = cc in
      subst (λ x. presencias q x ≡ presencias q k) z (s h (i.running ∙ r) ∙ i.todas q)

  -- WAIT or SIGNAL on a resource that the configuration has.
  usar_recurso-presencias :
      (es_wait : Bool) (i : ℕ) (b : Sbuffer) (k k' : Kernel) (c : Bool)
      → k.monitor_running ≡ p ∷ ps
      → i < length k.nombres_recursos
      → usar_recurso es_wait i b p k ≡ some (c, k')
      → presencias q k' ≡ presencias q k
  unfolding usar_recurso signal_recurso
  usar_recurso-presencias true i b k k' c r h e = elim (Bool-cases (wait_recurso p i k).0) [
    | inl y ↦
        let e1 : ◌≡◌ {A = Option (Bool × Kernel)} (some (true, (wait_recurso p i k).1))
            (some (c, k')) =
          (rw y at e) in
        let z : (wait_recurso p i k).1 ≡ k' = cc in
        subst (λ x. presencias q x ≡ presencias q k) z (wait_recurso-presencias q p i ps k r h)
    | inr n ↦
        let (k1, ek, e1) = >>=-eq-some (recupera_contexto p b k) _ (rw n at e) in
        let g = recupera_contexto-Iguales p b k k1 ek in
        let z : (wait_recurso p i k1).1 ≡ k' = cc in
        subst (λ x. presencias q x ≡ presencias q k) z
          (wait_recurso-presencias q p i ps k1 (g.running ∙ r)
              (subst (λ n. i < length n) (sym g.nombres) h)
            ∙ g.todas q)
  ]
  usar_recurso-presencias false i b k k' c r h e =
      let z : signal_recurso p i k ≡ k' = cc in
      subst (λ x. presencias q x ≡ presencias q k) z
        (devolver_instancia-presencias q i (con_pcb p (restar_recurso i) k) h)

  pedir_recurso-presencias :
      (es_wait : Bool) (b : Sbuffer) (k k' : Kernel) (c : Bool)
      → k.monitor_running ≡ p ∷ ps
      → pedir_recurso es_wait b p k ≡ some (c, k')
      → presencias q k' ≡ presencias q k
  unfolding pedir_recurso
  pedir_recurso-presencias es_wait b k k' c r e =
      let (n, en, e1) = >>=-eq-some (buffer_read_string b) _ e in
      elim (Option-cases (posicion_recurso (cortar_linea n.0) k.nombres_recursos)) [
        | inl x ↦ salir (a_exit p) false n.1 k k' c r (a_exit-presencias q p ps) (rw x at e1)
        | inr (i, x) ↦
            usar_recurso-presencias es_wait i n.1 k k' c r
              (posicion_recurso_lt (cortar_linea n.0) k.nombres_recursos i x) (rw x at e1)
      ]

  salida :
      (b : Sbuffer) (k k' : Kernel) (c : Bool) (a : Option (ℕ × ℕ × Sbuffer))
      → k.monitor_running ≡ p ∷ ps
      → ◌>>=◌ {B = Bool × Option (ℕ × ℕ × Sbuffer) × Kernel}
          (recupera_contexto p b k)
          (λ h. some (false, none, a_exit p h))
        ≡ some (c, a, k')
      → presencias q k' ≡ presencias q k
  salida b k k' c a r e =
      let (h, eh, e1) = >>=-eq-some (recupera_contexto p b k) _ e in
      let i = recupera_contexto-Iguales p b k h eh in
      let z : a_exit p h ≡ k' = cc in
      subst (λ x. presencias q x ≡ presencias q k) z
        (a_exit-presencias q p ps h (i.running ∙ r) ∙ i.todas q)

  cargar_quantum-Iguales : (ms : ℕ) (k : Kernel) → Iguales k (cargar_quantum_restante ms p k)
  unfolding cargar_quantum_restante
  cargar_quantum-Iguales ms k = elim (Bool-cases k.corresponde_timer_vrr) [
    | inl y ↦ rw y (record { running = refl; nombres = refl; todas = λ q. refl })
    | inr n ↦ rw n (record { running = refl; nombres = refl; todas = λ q. refl })
  ]

  manejo_instruccion_io-presencias :
      (ins : InstruccionIo) (b : Sbuffer) (ms : ℕ) (k k' : Kernel) (a : Option (ℕ × ℕ × Sbuffer))
      → k.monitor_running ≡ p ∷ ps
      → manejo_instruccion_io ins b ms p k ≡ some (a, k')
      → presencias q k' ≡ presencias q k
  unfolding manejo_instruccion_io
  manejo_instruccion_io-presencias ins b ms k k' a r e =
      let k0 = cargar_quantum_restante ms p k in
      let g = cargar_quantum-Iguales ms k in
      let (n, en, e1) = >>=-eq-some (buffer_read_string b) _ e in
      let (s, es, e2) = >>=-eq-some (preparar_io ins p (length n.0) n.1) _ e1 in
      let k1 = con_pcb p (λ x. record x { registros = s.0 }) k0 in
      let z : (asignar_interfaz ins (cortar_linea n.0) p s.1 k1).1 ≡ k' = cc in
      subst (λ x. presencias q x ≡ presencias q k) z
        (asignar_interfaz-presencias q p ps ins (cortar_linea n.0) s.1 k1 (g.running ∙ r)
          ∙ g.todas q)

  a_ready-presencias :
      (k : Kernel) → k.monitor_running ≡ p ∷ ps → presencias q (a_ready p k) ≡ presencias q k
  unfolding a_ready
  a_ready-presencias k e = rw e (omega (arith, count-append q k.monitor_ready (p ∷ [])))

  manejar_motivo-presencias :
      (m : Motivo) (b : Sbuffer) (ms : ℕ) (k k' : Kernel) (c : Bool) (a : Option (ℕ × ℕ × Sbuffer))
      → k.monitor_running ≡ p ∷ ps
      → manejar_motivo m b ms p k ≡ some (c, a, k')
      → presencias q k' ≡ presencias q k
  unfolding manejar_motivo
  manejar_motivo-presencias exit_proceso b ms k k' c a r e = salida b k k' c a r e
  manejar_motivo-presencias finalizar_proceso b ms k k' c a r e = salida b k k' c a r e
  manejar_motivo-presencias out_of_memory b ms k k' c a r e = salida b k k' c a r e
  manejar_motivo-presencias wait b ms k k' c a r e =
      let (s, es, e1) = >>=-eq-some (pedir_recurso true b p k) _ e in
      let z : s.1 ≡ k' = cc in
      subst (λ x. presencias q x ≡ presencias q k) z
        (pedir_recurso-presencias true b k s.1 s.0 r es)
  manejar_motivo-presencias signal b ms k k' c a r e =
      let (s, es, e1) = >>=-eq-some (pedir_recurso false b p k) _ e in
      let z : s.1 ≡ k' = cc in
      subst (λ x. presencias q x ≡ presencias q k) z
        (pedir_recurso-presencias false b k s.1 s.0 r es)
  manejar_motivo-presencias fin_quantum b ms k k' c a r e =
      let (h, eh, e1) = >>=-eq-some (recupera_contexto p b k) _ e in
      let i = recupera_contexto-Iguales p b k h eh in
      let z : a_ready p h ≡ k' = cc in
      subst (λ x. presencias q x ≡ presencias q k) z
        (a_ready-presencias h (i.running ∙ r) ∙ i.todas q)
  manejar_motivo-presencias (de_io ins) b ms k k' c a r e =
      let (s, es, e1) = >>=-eq-some (manejo_instruccion_io ins b ms p k) _ e in
      let z : s.1 ≡ k' = cc in
      subst (λ x. presencias q x ≡ presencias q k) z
        (manejo_instruccion_io-presencias ins b ms k s.1 s.0 r es)

desalojar-presencias :
    (q p : ℕ) (ps : List ℕ) (motivo : Motivo) (b : Sbuffer) (ms : ℕ) (k k' : Kernel) (c : Bool)
    (a : Option (ℕ × ℕ × Sbuffer))
    → k.monitor_running ≡ p ∷ ps
    → desalojar motivo b ms p k ≡ some (c, a, k')
    → presencias q k' ≡ presencias q k
unfolding desalojar
desalojar-presencias q p ps motivo b ms k k' c a v e =
    let marca : Pcb → Pcb =
      λ x. record x { desalojo = elim (x.desalojo) [ sin_desalojar ↦ desalojado | d ↦ d ] } in
    let m : Motivo = elim ((k.pcbs p).desalojo) [
      | pedido_finalizacion ↦ finalizar_proceso
      | _ ↦ motivo
    ] in
    let (r, er, e1) = >>=-eq-some (manejar_motivo m b ms p (con_pcb p marca k)) _ e in
    let z : con_pcb p (λ x. record x { desalojo = sin_desalojar }) r.2 ≡ k' = cc in
    subst (λ x. presencias q x ≡ presencias q k) z
      (manejar_motivo-presencias q p ps m b ms (con_pcb p marca k) r.2 r.0 r.1 v er)

-- Whatever the CPU reports of the process in RUNNING, an end, WAIT or SIGNAL, an I/O instruction or
-- the end of its quantum, a handler that completes leaves each process in the queues of the kernel,
-- all together, as often as before: none is lost and none is duplicated.
pub recibir_proceso_desalojado-presencias :
    (q : ℕ) (motivo : Motivo) (b : Sbuffer) (ms : ℕ) (k k' : Kernel) (c : Bool)
    (a : Option (ℕ × ℕ × Sbuffer))
    → recibir_proceso_desalojado motivo b ms k ≡ some (c, a, k')
    → presencias q k' ≡ presencias q k
unfolding recibir_proceso_desalojado
recibir_proceso_desalojado-presencias q motivo b ms k k' c a e =
    elim (List-cases k.monitor_running) [
      | inl v ↦
          (let f =
              subst (λ l. con_primero l (λ p. desalojar motivo b ms p k) ≡ some (c, a, k')) v e in
            absurd cc)
      | inr (p, ps, v) ↦
          desalojar-presencias q p ps motivo b ms k k' c a v
            (subst (λ l. con_primero l (λ p. desalojar motivo b ms p k) ≡ some (c, a, k')) v e)
    ]
