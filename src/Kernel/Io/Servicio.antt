-- ===== src/Kernel/Io/Servicio.antt =====
-- What IO_LIBERAR does to the process that the interface served and to the next one.
use tp_2024_1c_pccsc.Common.{
  ℕ, ◌&&◌, true, false, Option, none, some, List, [], ◌∷◌, ◌++◌, ◌≡◌, inl, inr, refl, sym, ◌∙◌, ap,
  arith, ltb, ◌==◌, if◌then◌else◌, Bool-cases, ==→≡,
}
use tp_2024_1c_pccsc.Buffer.{Sbuffer}
use tp_2024_1c_pccsc.Kernel.{Kernel, Pcb, Interfaz, con_pcb, con_estado, poner, ready}
use tp_2024_1c_pccsc.Kernel.Io.{desbloquear_servido}

-- The queue that IO_LIBERAR leaves: without its first process if that is the one served.
unfoldable pub cola_tras_liberar : ℕ → List ℕ → List ℕ
cola_tras_liberar pid [] = []
cola_tras_liberar pid (p ∷ ps) = if p == pid then ps else p ∷ ps

-- The process `pid`, if it is the first of the queue `ls`, goes to READY, or to READY+ if it has
-- quantum left under VRR; with another process first, or with none, nothing is pushed.
pub data Desbloqueo (pid : ℕ) (ls : List ℕ) (k k' : Kernel) : Type 0 where
  ninguno :
      cola_tras_liberar pid ls ≡ ls
      → k'.monitor_ready ≡ k.monitor_ready
      → k'.monitor_ready_vrr ≡ k.monitor_ready_vrr
      → Desbloqueo pid ls k k'
  a_ready :
      (ps : List ℕ)
      → ls ≡ pid ∷ ps
      → (k.corresponde_timer_vrr && ltb (k.pcbs pid).quantum k.quantum_config) ≡ false
      → (k'.pcbs pid).estado ≡ ready
      → k'.monitor_ready ≡ k.monitor_ready ++ pid ∷ []
      → k'.monitor_ready_vrr ≡ k.monitor_ready_vrr
      → Desbloqueo pid ls k k'
  a_ready_vrr :
      (ps : List ℕ)
      → ls ≡ pid ∷ ps
      → (k.corresponde_timer_vrr && ltb (k.pcbs pid).quantum k.quantum_config) ≡ true
      → (k'.pcbs pid).estado ≡ ready
      → k'.monitor_ready ≡ k.monitor_ready
      → k'.monitor_ready_vrr ≡ k.monitor_ready_vrr ++ pid ∷ []
      → Desbloqueo pid ls k k'

-- With a queue `ls` the first process is served: the packet that it kept is sent and it keeps none
-- any more. With an empty queue nothing is sent and the interface is free.
pub data Servicio (ls : List ℕ) (i : Interfaz) (k : Kernel) (i' : Interfaz)
    (a : Option (ℕ × Sbuffer)) (k' : Kernel) : Type 0 where
  queda_libre : ls ≡ [] → a ≡ none → i'.disponibilidad ≡ 0 → Servicio ls i k i' a k'
  atiende :
      (p : ℕ) (ps : List ℕ) (x : ℕ × Sbuffer)
      → ls ≡ p ∷ ps
      → (k.pcbs p).instruccion_io ≡ some x
      → a ≡ some x
      → i'.pid_ejecutando ≡ p
      → i'.disponibilidad ≡ i.disponibilidad
      → (k'.pcbs p).instruccion_io ≡ none
      → Servicio ls i k i' a k'

-- The rest of the state.
pub record Resto (k k' : Kernel) : Type 0 where
  pub estados : (q : ℕ) → (k'.pcbs q).estado ≡ (k.pcbs q).estado
  pub en_ready : k'.monitor_ready ≡ k.monitor_ready
  pub en_ready_vrr : k'.monitor_ready_vrr ≡ k.monitor_ready_vrr

estado-sin_instruccion :
    (p q : ℕ) (pcbs : ℕ → Pcb)
    → (poner p (record (pcbs p) { instruccion_io = none }) pcbs q).estado ≡ (pcbs q).estado
estado-sin_instruccion p q pcbs = elim (Bool-cases (p == q)) [
  | inl y ↦ rw y (ap (λ z. (pcbs z).estado) (==→≡ p q y))
  | inr n ↦ rw n refl
]

instruccion-con_estado :
    (p q : ℕ) (pcbs : ℕ → Pcb)
    → (poner p (con_estado ready (pcbs p)) pcbs q).instruccion_io ≡ (pcbs q).instruccion_io
instruccion-con_estado p q pcbs = elim (Bool-cases (p == q)) [
  | inl y ↦ rw y (ap (λ z. (pcbs z).instruccion_io) (==→≡ p q y))
  | inr n ↦ rw n refl
]

poner-propio {ℓ} : {A : Type ℓ} (p : ℕ) (x : A) (f : ℕ → A) → poner p x f p ≡ x
poner-propio p x f = let z : (p == p) ≡ true = ground arith in rw z refl

pub desbloquear_servido-Desbloqueo :
    (i : Interfaz) (ls : List ℕ) (k : Kernel)
    → let k' = (desbloquear_servido (record i { cola_bloqueados = ls }) k).1 in
      Desbloqueo i.pid_ejecutando ls k k'
      × ((q : ℕ) → (k'.pcbs q).instruccion_io ≡ (k.pcbs q).instruccion_io)
      × (k'.interfaces_conectadas ≡ k.interfaces_conectadas)
unfolding desbloquear_servido cola_tras_liberar
desbloquear_servido-Desbloqueo i [] k = (ninguno refl refl refl, λ q. refl, refl)
desbloquear_servido-Desbloqueo i (p ∷ ps) k = elim (Bool-cases (p == i.pid_ejecutando)) [
  | inl y ↦
      let pe : p ≡ i.pid_ejecutando = ==→≡ p i.pid_ejecutando y in
      let e : (p ∷ ps) ≡ i.pid_ejecutando ∷ ps = ap (λ z. z ∷ ps) pe in
      rw y (
        rw (sym pe)
          (elim (Bool-cases (k.corresponde_timer_vrr && ltb (k.pcbs p).quantum k.quantum_config)) [
            | inl v ↦ rw v (
              a_ready_vrr ps refl v (ap (λ z. z.estado) (poner-propio p _ k.pcbs)) refl refl,
              λ q. instruccion-con_estado p q k.pcbs,
              refl,
            )
            | inr v ↦ rw v (
              a_ready ps refl v (ap (λ z. z.estado) (poner-propio p _ k.pcbs)) refl refl,
              λ q. instruccion-con_estado p q k.pcbs,
              refl,
            )
          ]))
  | inr n ↦ rw n (ninguno (rw n refl) refl refl, λ q. refl, refl)
]

pub Servicio-servir :
    (p : ℕ) (ps : List ℕ) (x : ℕ × Sbuffer) (i : Interfaz) (k : Kernel)
    → (k.pcbs p).instruccion_io ≡ some x
    → let k' = con_pcb p (λ q. record q { instruccion_io = none }) k in
      Servicio (p ∷ ps) i k (record i { cola_bloqueados = p ∷ ps; pid_ejecutando = p }) (some x) k'
      × Resto k k'
Servicio-servir p ps x i k e = (
  atiende p ps x refl e refl refl refl (ap (λ z. z.instruccion_io) (poner-propio p _ k.pcbs)),
  record { estados = λ q. estado-sin_instruccion p q k.pcbs; en_ready = refl; en_ready_vrr = refl },
)

-- The two parts, one behind the other, with the interface written back at the end.
pub Desbloqueo-Resto :
    (pid : ℕ) (ls : List ℕ) (k k1 k' : Kernel)
    → Desbloqueo pid ls k k1
    → Resto k1 k'
    → Desbloqueo pid ls k k'
Desbloqueo-Resto pid ls k k1 k' (ninguno c e f) r = ninguno c (r.en_ready ∙ e) (r.en_ready_vrr ∙ f)
Desbloqueo-Resto pid ls k k1 k' (a_ready ps c v s e f) r =
    a_ready ps c v (r.estados pid ∙ s) (r.en_ready ∙ e) (r.en_ready_vrr ∙ f)
Desbloqueo-Resto pid ls k k1 k' (a_ready_vrr ps c v s e f) r =
    a_ready_vrr ps c v (r.estados pid ∙ s) (r.en_ready ∙ e) (r.en_ready_vrr ∙ f)

pub Servicio-desde :
    (ls : List ℕ) (i i' : Interfaz) (k k1 k' k2 : Kernel) (a : Option (ℕ × Sbuffer))
    → ((q : ℕ) → (k1.pcbs q).instruccion_io ≡ (k.pcbs q).instruccion_io)
    → k2.pcbs ≡ k'.pcbs
    → Servicio ls i k1 i' a k'
    → Servicio ls i k i' a k2
Servicio-desde ls i i' k k1 k' k2 a h u (queda_libre e f g) = queda_libre e f g
Servicio-desde ls i i' k k1 k' k2 a h u (atiende p ps x e f g l d n) =
    atiende p ps x e (sym (h p) ∙ f) g l d (ap (λ z. (z p).instruccion_io) u ∙ n)
