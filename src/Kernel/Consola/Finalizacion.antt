-- ===== src/Kernel/Consola/Finalizacion.antt =====
-- FINALIZAR_PROCESO against the queues of the kernel.
use tp_2024_1c_pccsc.Common.{
  ℕ, ◌+◌, ◌<◌, true, false, ◌&&◌, Option, none, some, List, [], ◌∷◌, ◌≡◌, inl, inr, refl, sym, ◌∙◌,
  ap, subst, arith, length, count, count-append, ltb, ◌==◌, if◌then◌else◌, ◌>>=◌, >>=-eq-some,
  some-inj, Bool-cases, ==→≡,
}
use tp_2024_1c_pccsc.Kernel.{
  Kernel, Estado, new, ready, exec, blocked, exit, CodDesalojo, sin_desalojar, desalojado,
  desalojado_por_io, pedido_finalizacion, Cola, de_recurso, de_interfaz, Interfaz, con_pcb,
  con_interfaz, quitar, extraer_proceso,
}
use tp_2024_1c_pccsc.Kernel.Presencia.{presencias, en_recursos-poner, en_interfaces}
use tp_2024_1c_pccsc.Kernel.Consola.{
  esta, cola_de_interfaz, cola_actual, Interrupcion, finalizar_en_exec, finalizar_en_cola,
  finalizar_proceso,
}

count-quitar :
    (q p : ℕ) (xs : List ℕ)
    → esta p xs ≡ true
    → count q (quitar p xs) + count q (p ∷ []) ≡ count q xs
unfolding quitar esta
count-quitar q p [] h = absurd (cc h)
count-quitar q p (x ∷ xs) h = elim (Bool-cases (x == p)) [
  | inl y ↦ let e = ap (λ z. count q (z ∷ [])) (==→≡ x p y) in rw y (omega arith)
  | inr n ↦ let i = count-quitar q p xs (rw n at h) in rw n (omega arith)
]

esta-vacia : (p : ℕ) → esta p [] ≡ true → ⊥
unfolding esta
esta-vacia p h = cc h

esta-count : (p : ℕ) (xs : List ℕ) → count p xs ≡ 0 → esta p xs ≡ false
unfolding esta
esta-count p [] h = refl
esta-count p (x ∷ xs) h = elim (Bool-cases (x == p)) [
  | inl y ↦ absurd (let z = (rw y at h) in omega arith)
  | inr n ↦ rw n (esta-count p xs (let z = (rw n at h) in omega arith))
]

en_interfaces-quitar :
    (q p s : ℕ) (is : List Interfaz)
    → esta p (cola_de_interfaz s is) ≡ true
    → en_interfaces q
          (con_interfaz s (λ i. record i { cola_bloqueados = quitar p i.cola_bloqueados }) is)
        + count q (p ∷ [])
      ≡ en_interfaces q is
unfolding cola_de_interfaz con_interfaz esta
en_interfaces-quitar q p s [] h = absurd (cc h)
en_interfaces-quitar q p s (i ∷ is) h = elim (Bool-cases (i.socket_interfaz == s)) [
  | inl y ↦ let c = count-quitar q p i.cola_bloqueados (rw y at h) in rw y (omega arith)
  | inr n ↦ let c = en_interfaces-quitar q p s is (rw n at h) in rw n (omega arith)
]

-- Every resource that a process waits for is one of the configuration.
abbrev pub Espera : ℕ → Kernel → Type 0
Espera p k =
    (i : ℕ) → (k.pcbs p).cola_bloqueado ≡ some (de_recurso i) → i < length k.nombres_recursos

-- By the state of the process and the queue that it waits in.
data Lugar (p : ℕ) (k : Kernel) : Type 0 where
  en_new : (k.pcbs p).estado ≡ new → Lugar p k
  en_ready : (k.pcbs p).estado ≡ ready → Lugar p k
  en_exec : (k.pcbs p).estado ≡ exec → Lugar p k
  en_exit : (k.pcbs p).estado ≡ exit → Lugar p k
  sin_cola : (k.pcbs p).estado ≡ blocked → (k.pcbs p).cola_bloqueado ≡ none → Lugar p k
  en_recurso :
      (i : ℕ)
      → (k.pcbs p).estado ≡ blocked
      → (k.pcbs p).cola_bloqueado ≡ some (de_recurso i)
      → Lugar p k
  en_interfaz :
      (s : ℕ)
      → (k.pcbs p).estado ≡ blocked
      → (k.pcbs p).cola_bloqueado ≡ some (de_interfaz s)
      → Lugar p k

lugar : (p : ℕ) (k : Kernel) → Lugar p k
lugar p k = con (k.pcbs p).estado (k.pcbs p).cola_bloqueado refl refl
  where
    con :
        (e : Estado) (c : Option Cola)
        → (k.pcbs p).estado ≡ e
        → (k.pcbs p).cola_bloqueado ≡ c
        → Lugar p k
    con new c h g = en_new h
    con ready c h g = en_ready h
    con exec c h g = en_exec h
    con exit c h g = en_exit h
    con blocked none h g = sin_cola h g
    con blocked (some (de_recurso i)) h g = en_recurso i h g
    con blocked (some (de_interfaz s)) h g = en_interfaz s h g

extraer_proceso-presencias :
    (q p : ℕ) (k k' : Kernel)
    → Espera p k
    → esta p (cola_actual p k) ≡ true
    → extraer_proceso p k ≡ some k'
    → presencias q k' + count q (p ∷ []) ≡ presencias q k
unfolding extraer_proceso cola_actual
extraer_proceso-presencias q p k k' w c h = elim (lugar p k) [
  | en_new e ↦
      let c' : esta p k.monitor_new ≡ true = (rw (e, cola_actual) at c) in
      let h' = some-inj (rw (e, extraer_proceso) at h) in
      subst (λ z. presencias q z + count q (p ∷ []) ≡ presencias q k) h'
        (omega (arith, count-quitar q p k.monitor_new c'))
  | en_ready e ↦
      let vrr = k.corresponde_timer_vrr && ltb (k.pcbs p).quantum k.quantum_config in
      let c' : esta p (if vrr then k.monitor_ready_vrr else k.monitor_ready) ≡ true =
        (rw (e, cola_actual) at c) in
      let h' = some-inj (rw (e, extraer_proceso) at h) in
      subst (λ z. presencias q z + count q (p ∷ []) ≡ presencias q k) h'
        (elim (Bool-cases vrr) [
          | inl y ↦ rw y (omega (arith, count-quitar q p k.monitor_ready_vrr (rw y at c')))
          | inr n ↦ rw n (omega (arith, count-quitar q p k.monitor_ready (rw n at c')))
        ])
  | en_exec e ↦ absurd (esta-vacia p (rw (e, cola_actual) at c))
  | en_exit e ↦ absurd (esta-vacia p (rw (e, cola_actual) at c))
  | sin_cola e g ↦
      absurd
        (let z = (rw (e, extraer_proceso) at h) in let z' : none ≡ some k' = (rw g at z) in cc z')
  | en_recurso i e g ↦
      let c0 = (rw (e, cola_actual) at c) in
      let c' : esta p (k.cola_recursos_bloqueados i) ≡ true = (rw g at c0) in
      let h0 = (rw (e, extraer_proceso) at h) in
      let h' = some-inj (rw g at h0) in
      subst (λ z. presencias q z + count q (p ∷ []) ≡ presencias q k) h'
        (omega (
          arith,
          en_recursos-poner q (length k.nombres_recursos) i
              (quitar p (k.cola_recursos_bloqueados i)) k.cola_recursos_bloqueados (w i g),
          count-quitar q p (k.cola_recursos_bloqueados i) c',
        ))
  | en_interfaz s e g ↦
      let c0 = (rw (e, cola_actual) at c) in
      let c' : esta p (cola_de_interfaz s k.interfaces_conectadas) ≡ true = (rw g at c0) in
      let h0 = (rw (e, extraer_proceso) at h) in
      let h' = some-inj (rw g at h0) in
      subst (λ z. presencias q z + count q (p ∷ []) ≡ presencias q k) h'
        (omega (arith, en_interfaces-quitar q p s k.interfaces_conectadas c'))
]

finalizar_en_cola-presencias :
    (q p : ℕ) (k k' : Kernel)
    → Espera p k
    → finalizar_en_cola p k ≡ some k'
    → presencias q k' ≡ presencias q k
unfolding finalizar_en_cola
finalizar_en_cola-presencias q p k k' w h = elim (Bool-cases (esta p (cola_actual p k))) [
  | inr n ↦ absurd (let z : none ≡ some k' = (rw n at h) in cc z)
  | inl y ↦
      let (k1, run, e) = >>=-eq-some (extraer_proceso p k) _ (rw y at h) in
      let f = extraer_proceso-presencias q p k k1 w y run in
      subst (λ z. presencias q z ≡ presencias q k) (some-inj e)
        (omega (arith, count-append q k1.monitor_exit (p ∷ [])))
]

finalizar_en_exec-presencias :
    (q p : ℕ) (k : Kernel) → presencias q (finalizar_en_exec p k).1 ≡ presencias q k
unfolding finalizar_en_exec
finalizar_en_exec-presencias q p k = con ((k.pcbs p).desalojo)
  where
    con :
        (d : CodDesalojo)
        → presencias q
            (elim d as (λ _. Option Interrupcion × Kernel) [
              | sin_desalojar ↦
                  (some (p, 13, 0), con_pcb p (λ q. record q { desalojo = pedido_finalizacion }) k)
              | desalojado ↦ (none, con_pcb p (λ q. record q { desalojo = pedido_finalizacion }) k)
              | _ ↦ (none, k)
            ]).1
          ≡ presencias q k
    con sin_desalojar = refl
    con desalojado = refl
    con desalojado_por_io = refl
    con pedido_finalizacion = refl

-- FINALIZAR_PROCESO of a process that waits, if at all, for a resource of the configuration: where it
-- has a result, it leaves each process in the queues of the kernel, all together, as often as before.
pub finalizar_proceso-presencias :
    (q p : ℕ) (k : Kernel) (r : Option Interrupcion × Kernel)
    → Espera p k
    → finalizar_proceso p k ≡ some r
    → presencias q r.1 ≡ presencias q k
unfolding finalizar_proceso
finalizar_proceso-presencias q p k r w h = elim (Bool-cases (esta p k.pcb_list)) [
  | inr n ↦ ap (λ z. presencias q z.1) (sym (some-inj (rw n at h)))
  | inl y ↦ con (k.pcbs p).estado (rw y at h)
]
  where
    en_cola :
        (finalizar_en_cola p k >>= λ k'. some (none, k')) ≡ some r
        → presencias q r.1 ≡ presencias q k
    en_cola g =
        let (k1, run, e) = >>=-eq-some (finalizar_en_cola p k) _ g in
        ap (λ z. presencias q z.1) (sym (some-inj e)) ∙ finalizar_en_cola-presencias q p k k1 w run

    con :
        (e : Estado)
        → elim e as (λ _. Option (Option Interrupcion × Kernel)) [
          | exit ↦ some (none, k)
          | exec ↦ some (finalizar_en_exec p k)
          | _ ↦ finalizar_en_cola p k >>= λ k'. some (none, k')
        ]
          ≡ some r
        → presencias q r.1 ≡ presencias q k
    con exit g = ap (λ z. presencias q z.1) (sym (some-inj g))
    con exec g = ap (λ z. presencias q z.1) (sym (some-inj g)) ∙ finalizar_en_exec-presencias q p k
    con new g = en_cola g
    con ready g = en_cola g
    con blocked g = en_cola g
