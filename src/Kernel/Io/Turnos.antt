-- ===== src/Kernel/Io/Turnos.antt =====
-- The turns of an interface: IO_LIBERAR and the packets that the waiting processes keep.
use tp_2024_1c_pccsc.Common.{
  ℕ, ◌≤◌, ◌<◌, ◌&&◌, Option, none, some, List, [], ◌∷◌, ◌≡◌, ◌≢◌, inl, inr, refl, sym, ◌∙◌, ap,
  subst, arith, count, ltb, ◌==◌, ◌>>=◌, Bool-cases, ==→≡, ==→ne, ne→==,
}
use tp_2024_1c_pccsc.Buffer.{Sbuffer}
use tp_2024_1c_pccsc.Kernel.{Kernel, Pcb, Interfaz, con_pcb, con_estado, con_interfaz, poner, ready}
use tp_2024_1c_pccsc.Kernel.Io.{io_liberar, desbloquear_servido, servir_siguiente}
use tp_2024_1c_pccsc.Kernel.Io.Servicio.{
  cola_tras_liberar, Desbloqueo, Servicio, queda_libre, Resto, desbloquear_servido-Desbloqueo,
  Servicio-servir, Desbloqueo-Resto, Servicio-desde,
}

abbrev pub Paquete : (ℕ → Pcb) → ℕ → Type 0
Paquete pcbs p = (a : ℕ × Sbuffer) × ((pcbs p).instruccion_io ≡ some a)

-- A free interface has nobody in its queue, no process is in it twice, and each process of the
-- queue but the one that is served keeps the packet of its instruction. The one that is served is
-- the first, unless it has been taken out.
pub record Turno (i : Interfaz) (pcbs : ℕ → Pcb) : Type 0 where
  pub libre : i.disponibilidad ≡ 0 → i.cola_bloqueados ≡ []
  pub unica : (p : ℕ) → count p i.cola_bloqueados ≤ 1
  pub esperan : (p : ℕ) → 0 < count p i.cola_bloqueados → p ≢ i.pid_ejecutando → Paquete pcbs p
  pub servido :
      0 < count i.pid_ejecutando i.cola_bloqueados
      → (ps : List ℕ) × (i.cola_bloqueados ≡ i.pid_ejecutando ∷ ps)

servir_siguiente_lem :
    (ls : List ℕ) (i : Interfaz) (k : Kernel)
    → ((p : ℕ) → 0 < count p ls → Paquete k.pcbs p)
    → ((p : ℕ) → count p ls ≤ 1)
    → (i.disponibilidad ≡ 0 → ls ≡ [])
    → (i' : Interfaz) × (a : Option (ℕ × Sbuffer)) × (k' : Kernel) × (servir_siguiente ls i k
        ≡ some (i', a, k'))
      × Turno i' k'.pcbs
      × (i'.cola_bloqueados ≡ ls)
      × Servicio ls i k i' a k'
      × Resto k k'
      × (k'.interfaces_conectadas ≡ k.interfaces_conectadas)
unfolding servir_siguiente
servir_siguiente_lem [] i k h u d = (
  record i { cola_bloqueados = []; disponibilidad = 0 },
  none,
  k,
  refl,
  record {
    libre = λ _. refl;
    unica = u;
    esperan = λ p c n. h p c;
    servido = λ c. absurd (omega arith);
  },
  refl,
  queda_libre refl refl refl,
  record { estados = λ q. refl; en_ready = refl; en_ready_vrr = refl },
  refl,
)
servir_siguiente_lem (p ∷ ps) i k h u d =
    let c : 0 < count p (p ∷ ps) = ground arith in
    let (a, e) = h p c in
    (
      record i { cola_bloqueados = p ∷ ps; pid_ejecutando = p },
      some a,
      con_pcb p (λ q. record q { instruccion_io = none }) k,
      rw (e, ◌>>=◌) refl,
      record {
        libre = d;
        unica = u;
        esperan = λ q cq n.
            let (b, eb) = h q cq in let pq : p ≢ q = λ z. n (sym z) in (b, rw (ne→== p q pq) eb);
        servido = λ _. (ps, refl);
      },
      refl,
      (Servicio-servir p ps a i k e).0,
      (Servicio-servir p ps a i k e).1,
      refl,
    )

Paquete-poner :
    (p q : ℕ) (f : Pcb → Pcb) (pcbs : ℕ → Pcb)
    → p ≢ q
    → Paquete pcbs q
    → Paquete (poner p (f (pcbs p)) pcbs) q
Paquete-poner p q f pcbs h (a, e) = (a, rw (ne→== p q h) e)

-- What `desbloquear_servido` leaves for the rest of IO_LIBERAR.
record Listos (i : Interfaz) (ls : List ℕ) (k' : Kernel) : Type 0 where
  paquetes : (p : ℕ) → 0 < count p ls → Paquete k'.pcbs p
  unica : (p : ℕ) → count p ls ≤ 1
  libre : i.disponibilidad ≡ 0 → ls ≡ []

desbloquear_servido_lem :
    (i : Interfaz) (ls : List ℕ) (k : Kernel)
    → Turno (record i { cola_bloqueados = ls }) k.pcbs
    → ((desbloquear_servido (record i { cola_bloqueados = ls }) k).0
        ≡ cola_tras_liberar i.pid_ejecutando ls)
      × Listos i
          (cola_tras_liberar i.pid_ejecutando ls)
          (desbloquear_servido (record i { cola_bloqueados = ls }) k).1
unfolding desbloquear_servido cola_tras_liberar
desbloquear_servido_lem i [] k t =
    (refl, record { paquetes = λ p c. absurd (omega arith); unica = t.unica; libre = λ _. refl })
desbloquear_servido_lem i (p ∷ ps) k t = elim (Bool-cases (p == i.pid_ejecutando)) [
  | inl y ↦
      let pe : p ≡ i.pid_ejecutando = ==→≡ p i.pid_ejecutando y in
      let cero : count p ps ≡ 0 = (let u = t.unica p in ground arith) in
      rw y (
        refl,
        record {
          paquetes = λ q c.
              let pq : p ≢ q =
                λ z. (let w = subst (λ x. 0 < count x ps) (sym z) c in absurd (omega arith)) in
              let n : q ≢ i.pid_ejecutando = λ z. pq (pe ∙ sym z) in
              let c' : 0 < count q (p ∷ ps) = omega arith in
              (elim (Bool-cases
                (k.corresponde_timer_vrr && ltb (k.pcbs p).quantum k.quantum_config)) [
                  | inl v ↦ rw v (Paquete-poner p q (con_estado ready) k.pcbs pq (t.esperan q c' n))
                  | inr v ↦ rw v (Paquete-poner p q (con_estado ready) k.pcbs pq (t.esperan q c' n))
                ]);
          unica = λ q. (let u = t.unica q in omega arith);
          libre = λ d. (let e = t.libre d in absurd cc);
        },
      )
  | inr n ↦ rw n (
    refl,
    record {
      paquetes = λ q c.
          (let pn = ==→ne p i.pid_ejecutando n in
            t.esperan q c (λ z.
              let (rs, e) = t.servido (subst (λ x. 0 < count x (p ∷ ps)) z c) in
              let pz : p ≡ i.pid_ejecutando = cc in pn pz));
      unica = t.unica;
      libre = λ d. (let e = t.libre d in absurd cc);
    },
  )
]

-- IO_LIBERAR from an interface whose turns are in order succeeds and keeps the turns in order. The
-- process that was served, if it is still the first of the queue, leaves it and goes to READY, or to
-- READY+ with quantum left under VRR, and the others keep their places. If any is left, the first of
-- them is served: its packet is sent to the interface and the interface notes its pid; if none is,
-- nothing is sent and the interface is free. The interface is written back to the list.
pub io_liberar_lem :
    (i : Interfaz) (k : Kernel)
    → Turno i k.pcbs
    → (i' : Interfaz) × (a : Option (ℕ × Sbuffer)) × (k' : Kernel) × (io_liberar i k
        ≡ some (i', a, k'))
      × Turno i' k'.pcbs
      × (i'.cola_bloqueados ≡ cola_tras_liberar i.pid_ejecutando i.cola_bloqueados)
      × Desbloqueo i.pid_ejecutando i.cola_bloqueados k k'
      × Servicio (cola_tras_liberar i.pid_ejecutando i.cola_bloqueados) i k i' a k'
      × (k'.interfaces_conectadas
          ≡ con_interfaz i.socket_interfaz (λ _. i') k.interfaces_conectadas)
unfolding io_liberar
io_liberar_lem i k t =
    let (e, l) = desbloquear_servido_lem i i.cola_bloqueados k t in
    let ls = cola_tras_liberar i.pid_ejecutando i.cola_bloqueados in
    let (sale, quedan, lista) = desbloquear_servido-Desbloqueo i i.cola_bloqueados k in
    let (i', a, k', run, t', c, sirve, resto, igual) =
      servir_siguiente_lem ls i (desbloquear_servido i k).1 l.paquetes l.unica l.libre in
    let k2 = record k' {
      interfaces_conectadas = con_interfaz i.socket_interfaz (λ _. i') k'.interfaces_conectadas;
    } in
    (
      i',
      a,
      record k' {
        interfaces_conectadas = con_interfaz i.socket_interfaz (λ _. i') k'.interfaces_conectadas;
      },
      rw e (rw (run, ◌>>=◌) refl),
      t',
      c,
      Desbloqueo-Resto i.pid_ejecutando i.cola_bloqueados k (desbloquear_servido i k).1 k2 sale
          (record {
            estados = resto.estados;
            en_ready = resto.en_ready;
            en_ready_vrr = resto.en_ready_vrr;
          }),
      Servicio-desde ls i i' k (desbloquear_servido i k).1 k' k2 a quedan refl sirve,
      ap (con_interfaz i.socket_interfaz (λ _. i')) (igual ∙ lista),
    )
