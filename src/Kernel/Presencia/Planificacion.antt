-- ===== src/Kernel/Presencia/Planificacion.antt =====
-- The steps of the short and the long term planner over the queues of the kernel.
use tp_2024_1c_pccsc.Common.{
  ℕ, zero, suc, ◌+◌, ◌≤◌, ◌<◌, Bool, none, some, List, [], ◌∷◌, ◌≡◌, refl, sym, ◌∙◌, ap, subst,
  arith, length, count, count-append, bit, ◌==◌, inl, inr,
}
use tp_2024_1c_pccsc.Kernel.{
  Kernel, Estado, new, ready, exec, blocked, exit, con_pcb, algoritmo_fifo_rr, algoritmo_vrr,
}
use tp_2024_1c_pccsc.Kernel.Recursos.{
  devolver_instancia, devolver_instancias, restar_recurso, liberar_recursos_desde, liberar_recursos,
  finalizar, salir_de_exit, all_to_exit,
}
use tp_2024_1c_pccsc.Kernel.Presencia.{List-cases, presencias, devolver_instancia-presencias}

algoritmo_fifo_rr-presencias :
    (q : ℕ) (k : Kernel) → presencias q (algoritmo_fifo_rr k).1 ≡ presencias q k
unfolding algoritmo_fifo_rr
algoritmo_fifo_rr-presencias q k = elim (List-cases k.monitor_ready) [
  | inl e ↦ rw (e, algoritmo_fifo_rr) (omega (arith, ap (count q) e))
  | inr (p, ps, e) ↦
      rw (e, algoritmo_fifo_rr)
        (omega (arith, count-append q k.monitor_running (p ∷ []), ap (count q) e))
]

algoritmo_vrr-presencias : (q : ℕ) (k : Kernel) → presencias q (algoritmo_vrr k).1 ≡ presencias q k
unfolding algoritmo_vrr
algoritmo_vrr-presencias q k = elim (List-cases k.monitor_ready_vrr) [
  | inr (p, ps, e) ↦
      rw (e, algoritmo_vrr)
        (omega (arith, count-append q k.monitor_running (p ∷ []), ap (count q) e))
  | inl v ↦ elim (List-cases k.monitor_ready) [
    | inl e ↦
        rw (v, algoritmo_vrr)
          (rw (e, algoritmo_vrr) (omega (arith, ap (count q) e, ap (count q) v)))
    | inr (p, ps, e) ↦
        rw (v, algoritmo_vrr)
          (rw (e, algoritmo_vrr)
            (omega
              (arith, count-append q k.monitor_running (p ∷ []), ap (count q) e, ap (count q) v)))
  ]
]

-- A step of the short term planner, by FIFO and RR or by VRR, leaves each process in the queues of
-- the kernel, all together, as often as before.
pub planificar_corto_plazo-presencias :
    (q : ℕ) (k : Kernel)
    → (presencias q (algoritmo_fifo_rr k).1 ≡ presencias q k)
      × (presencias q (algoritmo_vrr k).1 ≡ presencias q k)
planificar_corto_plazo-presencias q k =
    (algoritmo_fifo_rr-presencias q k, algoritmo_vrr-presencias q k)

-- What giving back resources leaves of the queues.
record Devueltos (q : ℕ) (k k' : Kernel) : Type 0 where
  todas : presencias q k' ≡ presencias q k
  nombres : k'.nombres_recursos ≡ k.nombres_recursos
  salida : k'.monitor_exit ≡ k.monitor_exit

Devueltos-trans :
    (q : ℕ) (k k1 k2 : Kernel) → Devueltos q k k1 → Devueltos q k1 k2 → Devueltos q k k2
Devueltos-trans q k k1 k2 a b = record {
  todas = b.todas ∙ a.todas;
  nombres = b.nombres ∙ a.nombres;
  salida = b.salida ∙ a.salida;
}

devolver_instancia-Devueltos :
    (q i : ℕ) (k : Kernel) → i < length k.nombres_recursos → Devueltos q k (devolver_instancia i k)
unfolding devolver_instancia
devolver_instancia-Devueltos q i k h = record {
  todas = devolver_instancia-presencias q i k h;
  nombres = elim (List-cases (k.cola_recursos_bloqueados i)) [
    | inl e ↦ rw (e, devolver_instancia) refl
    | inr (p, ps, e) ↦ rw (e, devolver_instancia) refl
  ];
  salida = elim (List-cases (k.cola_recursos_bloqueados i)) [
    | inl e ↦ rw (e, devolver_instancia) refl
    | inr (p, ps, e) ↦ rw (e, devolver_instancia) refl
  ];
}

devolver_instancias-Devueltos :
    (q n p i : ℕ) (k : Kernel)
    → i < length k.nombres_recursos
    → Devueltos q k (devolver_instancias n p i k)
unfolding devolver_instancias
devolver_instancias-Devueltos q zero p i k h = record {
  todas = refl;
  nombres = refl;
  salida = refl;
}
devolver_instancias-Devueltos q (suc n) p i k h =
    let d = devolver_instancia-Devueltos q i k h in
    let k1 = con_pcb p (restar_recurso i) (devolver_instancia i k) in
    Devueltos-trans q k k1 (devolver_instancias n p i k1)
      (record { todas = d.todas; nombres = d.nombres; salida = d.salida })
      (devolver_instancias-Devueltos q n p i k1 (subst (λ l. i < length l) (sym d.nombres) h))

liberar_recursos_desde-Devueltos :
    (q r i p : ℕ) (k : Kernel)
    → i + r ≤ length k.nombres_recursos
    → Devueltos q k (liberar_recursos_desde r i p k)
unfolding liberar_recursos_desde
liberar_recursos_desde-Devueltos q zero i p k h = record {
  todas = refl;
  nombres = refl;
  salida = refl;
}
liberar_recursos_desde-Devueltos q (suc r) i p k h =
    let k1 = devolver_instancias ((k.pcbs p).recursos i) p i k in
    let d = devolver_instancias-Devueltos q ((k.pcbs p).recursos i) p i k (omega arith) in
    Devueltos-trans q k k1 (liberar_recursos_desde r (suc i) p k1) d (
      liberar_recursos_desde-Devueltos q r (suc i) p k1
        (let e = ap length d.nombres in omega arith))

finalizar-Devueltos :
    (q p : ℕ) (e : Estado) (k : Kernel)
    → Devueltos q k (finalizar e (length k.nombres_recursos) p k).1
unfolding finalizar liberar_recursos
finalizar-Devueltos q p new k = record { todas = refl; nombres = refl; salida = refl }
finalizar-Devueltos q p exit k = record { todas = refl; nombres = refl; salida = refl }
finalizar-Devueltos q p ready k =
    let d = liberar_recursos_desde-Devueltos q (length k.nombres_recursos) 0 p k (omega arith) in
    record { todas = d.todas; nombres = d.nombres; salida = d.salida }
finalizar-Devueltos q p exec k =
    let d = liberar_recursos_desde-Devueltos q (length k.nombres_recursos) 0 p k (omega arith) in
    record { todas = d.todas; nombres = d.nombres; salida = d.salida }
finalizar-Devueltos q p blocked k =
    let d = liberar_recursos_desde-Devueltos q (length k.nombres_recursos) 0 p k (omega arith) in
    record { todas = d.todas; nombres = d.nombres; salida = d.salida }

-- A round of `planificar_all_to_exit` with `p` at the head of EXIT succeeds and takes that one
-- occurrence of `p` out of the queues; every other process, among them those that its resources
-- unblock, is in the queues of the kernel, all together, as often as before.
pub all_to_exit-presencias :
    (q p : ℕ) (ps : List ℕ) (k : Kernel)
    → k.monitor_exit ≡ p ∷ ps
    → (r : Bool × Kernel) × (all_to_exit (length k.nombres_recursos) k ≡ some r)
      × (presencias q r.1 + bit (p == q) ≡ presencias q k)
unfolding all_to_exit salir_de_exit
all_to_exit-presencias q p ps k e =
    let r = finalizar (k.pcbs p).estado (length k.nombres_recursos) p k in
    let d = finalizar-Devueltos q p (k.pcbs p).estado k in
    (
      (r.0, record (con_pcb p (λ x. record x { instruccion_io = none }) r.1) { monitor_exit = ps }),
      subst
          (λ l.
            salir_de_exit l (length k.nombres_recursos) k
            ≡ some (
              r.0,
              record (con_pcb p (λ x. record x { instruccion_io = none }) r.1) {
                monitor_exit = ps;
              },
            ))
          (sym e) refl,
      omega (arith, d.todas, ap (count q) d.salida, ap (count q) e),
    )
