-- ===== src/Kernel/Presencia.antt =====
-- Over all the queues of the kernel a process is as often as before, whatever the CPU's message.
pub mod Conservacion
pub mod Planificacion
use tp_2024_1c_pccsc.Common.{
  ℕ, zero, suc, ◌+◌, ◌-◌, ◌≤◌, ◌<◌, Bool, true, false, ◌&&◌, Option, none, some, List, [], ◌∷◌,
  ◌++◌, ◌≡◌, ◌≢◌, ◌⊎◌, inl, inr, refl, sym, ◌∙◌, ap, subst, arith, length, count, count-append, bit,
  ltb, ◌==◌, if◌then◌else◌, ◌>>=◌, Bool-cases, Option-cases, ==→≡, ==→ne, ne→==,
}
use tp_2024_1c_pccsc.Kernel.{Kernel, Pcb, Interfaz, con_pcb, con_interfaz, poner}
use tp_2024_1c_pccsc.FileSystem.{igual}
use tp_2024_1c_pccsc.Buffer.{Sbuffer}
use tp_2024_1c_pccsc.Kernel.Io.{
  InstruccionIo, tipo_de, a_exit, buscar_interfaz, bloquear_en_interfaz, asignar_interfaz,
}
use tp_2024_1c_pccsc.Kernel.Recursos.{devolver_instancia, wait_recurso, signal_recurso}

-- How often a process is in the queues of the first `n` resources, and of the interfaces.
abbrev pub en_recursos : ℕ → ℕ → (ℕ → List ℕ) → ℕ
en_recursos p zero f = 0
en_recursos p (suc n) f = count p (f n) + en_recursos p n f

abbrev pub en_interfaces : ℕ → List Interfaz → ℕ
en_interfaces p [] = 0
en_interfaces p (i ∷ is) = count p i.cola_bloqueados + en_interfaces p is

-- How often a process is in the queues of the kernel, all together.
abbrev pub presencias : ℕ → Kernel → ℕ
presencias p k =
    count p k.monitor_new
    + count p k.monitor_ready
    + count p k.monitor_ready_vrr
    + count p k.monitor_running
    + count p k.monitor_exit
    + en_recursos p (length k.nombres_recursos) k.cola_recursos_bloqueados
    + en_interfaces p k.interfaces_conectadas

en_recursos-otro :
    (p n i : ℕ) (q : List ℕ) (f : ℕ → List ℕ)
    → n ≤ i
    → en_recursos p n (poner i q f) ≡ en_recursos p n f
en_recursos-otro p zero i q f h = refl
en_recursos-otro p (suc n) i q f h =
    let ne : i ≢ n = λ e. absurd (omega arith) in
    rw (ne→== i n ne, en_recursos-otro p n i q f (omega arith)) refl

pub en_recursos-poner :
    (p n i : ℕ) (q : List ℕ) (f : ℕ → List ℕ)
    → i < n
    → en_recursos p n (poner i q f) + count p (f i) ≡ en_recursos p n f + count p q
en_recursos-poner p zero i q f h = absurd (omega arith)
en_recursos-poner p (suc n) i q f h = elim (Bool-cases (i == n)) [
  | inl y ↦
      let e : i ≡ n = ==→≡ i n y in
      let c = ap (λ z. count p (f z)) e in
      let o = en_recursos-otro p n i q f (omega arith) in rw y (omega (arith, c, o))
  | inr z ↦ let ne = ==→ne i n z in rw z (omega (arith, en_recursos-poner p n i q f (omega arith)))
]

-- An interface of a socket is connected.
pub Conectada : ℕ → List Interfaz → Type 0
Conectada s [] = ⊥
Conectada s (i ∷ is) = (i.socket_interfaz ≡ s) ⊎ Conectada s is

pub en_interfaces-con_interfaz :
    (p s d : ℕ) (f : Interfaz → Interfaz) (is : List Interfaz)
    → ((i : Interfaz) → count p (f i).cola_bloqueados ≡ count p i.cola_bloqueados + d)
    → Conectada s is
    → en_interfaces p (con_interfaz s f is) ≡ en_interfaces p is + d
unfolding Conectada con_interfaz
en_interfaces-con_interfaz p s d f [] h c = absurd c
en_interfaces-con_interfaz p s d f (i ∷ is) h c = elim (Bool-cases (i.socket_interfaz == s)) [
  | inl y ↦ rw y (omega (arith, h i))
  | inr n ↦ elim c [
    | inl e ↦ absurd (==→ne i.socket_interfaz s n e)
    | inr c' ↦ rw n (omega (arith, en_interfaces-con_interfaz p s d f is h c'))
  ]
]

pub List-cases : (q : List ℕ) → (q ≡ []) ⊎ ((p : ℕ) × (ps : List ℕ) × (q ≡ p ∷ ps))
List-cases [] = inl refl
List-cases (p ∷ ps) = inr (p, ps, refl)

pub devolver_instancia-presencias :
    (q i : ℕ) (k : Kernel)
    → i < length k.nombres_recursos
    → presencias q (devolver_instancia i k) ≡ presencias q k
unfolding devolver_instancia
devolver_instancia-presencias q i k h = elim (List-cases (k.cola_recursos_bloqueados i)) [
  | inl e ↦ rw (e, devolver_instancia) refl
  | inr (p, ps, e) ↦
      rw (e, devolver_instancia)
        (omega (
          arith,
          en_recursos-poner q (length k.nombres_recursos) i ps k.cola_recursos_bloqueados h,
          ap (count q) e,
          count-append q k.monitor_ready (p ∷ []),
        ))
]

Nat-cases : (n : ℕ) → (n ≡ 0) ⊎ ((m : ℕ) × (n ≡ suc m))
Nat-cases zero = inl refl
Nat-cases (suc m) = inr (m, refl)

pub wait_recurso-presencias :
    (q p i : ℕ) (ps : List ℕ) (k : Kernel)
    → k.monitor_running ≡ p ∷ ps
    → i < length k.nombres_recursos
    → presencias q (wait_recurso p i k).1 ≡ presencias q k
unfolding wait_recurso
wait_recurso-presencias q p i ps k e h = elim (Nat-cases (k.instancias_recursos i)) [
  | inr (n, en) ↦ rw (en, wait_recurso) refl
  | inl en ↦
      rw (en, wait_recurso)
        (rw e (
          omega (
            arith,
            en_recursos-poner q (length k.nombres_recursos) i
                (k.cola_recursos_bloqueados i ++ p ∷ []) k.cola_recursos_bloqueados h,
            count-append q (k.cola_recursos_bloqueados i) (p ∷ []),
          )))
]

pub a_exit-presencias :
    (q p : ℕ) (ps : List ℕ) (k : Kernel)
    → k.monitor_running ≡ p ∷ ps
    → presencias q (a_exit p k) ≡ presencias q k
a_exit-presencias q p ps k e = rw e (omega (arith, count-append q k.monitor_exit (p ∷ [])))

Conectada-buscar :
    (n : List ℕ) (is : List Interfaz) (i : Interfaz)
    → buscar_interfaz n is ≡ some i
    → Conectada i.socket_interfaz is
unfolding buscar_interfaz Conectada
Conectada-buscar n [] i h = absurd cc
Conectada-buscar n (j ∷ is) i h = elim (Bool-cases (igual j.nombre_interfaz n)) [
  | inl y ↦
      (let e : some j ≡ some i = (rw y at h) in
        let ji : j ≡ i = cc in inl (ap (λ z. z.socket_interfaz) ji))
  | inr z ↦ inr (Conectada-buscar n is i (rw z at h))
]

pub asignar_interfaz-presencias :
    (q p : ℕ) (ps : List ℕ) (ins : InstruccionIo) (nombre : List ℕ) (io : Sbuffer) (k : Kernel)
    → k.monitor_running ≡ p ∷ ps
    → presencias q (asignar_interfaz ins nombre p io k).1 ≡ presencias q k
unfolding asignar_interfaz bloquear_en_interfaz
asignar_interfaz-presencias q p ps ins nombre io k e =
    elim (Option-cases (buscar_interfaz nombre k.interfaces_conectadas)) [
      | inl b ↦ rw (b, asignar_interfaz) (a_exit-presencias q p ps k e)
      | inr (i, b) ↦
          let c = Conectada-buscar nombre k.interfaces_conectadas i b in
          rw (b, asignar_interfaz)
            (elim (Bool-cases (igual i.tipo_interfaz (tipo_de ins))) [
              | inr t ↦ rw t (a_exit-presencias q p ps k e)
              | inl t ↦ rw t (elim (Bool-cases (i.disponibilidad == 0)) [
                | inl d ↦ rw d (
                    rw e (
                      omega (
                        arith,
                        en_interfaces-con_interfaz q i.socket_interfaz (count q (p ∷ []))
                            (λ j. record j {
                              cola_bloqueados = j.cola_bloqueados ++ p ∷ [];
                              pid_ejecutando = p;
                              disponibilidad = 1;
                            })
                            k.interfaces_conectadas (λ j. count-append q j.cola_bloqueados (p ∷ []))
                            c,
                      )))
                | inr d ↦ rw d (
                    rw e (
                      omega (
                        arith,
                        en_interfaces-con_interfaz q i.socket_interfaz (count q (p ∷ []))
                            (λ j. record j { cola_bloqueados = j.cola_bloqueados ++ p ∷ [] })
                            k.interfaces_conectadas (λ j. count-append q j.cola_bloqueados (p ∷ []))
                            c,
                      )))
              ])
            ])
    ]
