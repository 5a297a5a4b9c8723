-- ===== src/Cpu/Interrupciones/Prioridad.antt =====
-- Which interrupt evicts the process, and which are left.
use mathlib.Core.List.{Memᴰ}
use mathlib.Core.List.Memᴰ
use tp_2024_1c_pccsc.Common.{
  ℕ, ◌≤◌, Bool, true, false, not, ◌&&◌, Option, none, some, List, [], ◌∷◌, ◌≡◌, ◌≢◌, refl, sym, ◌∙◌,
  ap, subst, arith, ◌==◌, if◌then◌else◌, ◌>>=◌, Bool-cases, inl, inr, ==→≡, ==→ne, ≡→==, ne→==,
  ltb→ge,
}
use tp_2024_1c_pccsc.Buffer.{Sbuffer, buffer_create, buffer_add_registros}
use tp_2024_1c_pccsc.Buffer.Lectura.{buffer_create-Escrito}
use tp_2024_1c_pccsc.Buffer.Campos.{agregar_campos-Escrito}
use tp_2024_1c_pccsc.Buffer.Registros.{campos_registros, agregar-registros}
use tp_2024_1c_pccsc.Cpu.Interrupciones.{
  Pic, Cpu, enviar, desalojo_proceso, filtrar, remover, vacia, comparar_prioridad,
  atender_interrupcion, check_interrupt,
}

-- What the library says of a list sorted by `comparar_prioridad`: it has the same elements, and none
-- comes behind one that it should precede.
abbrev pub Ordenada : List Pic → Type 0
Ordenada [] = Unit {0}
Ordenada (i ∷ is) = ((j : Pic) → Memᴰ j is → comparar_prioridad j i ≡ false) × Ordenada is

pub record Ordena (list_sort : List Pic → List Pic) : Type 0 where
  pub entra : (i : Pic) (is : List Pic) → Memᴰ i is → Memᴰ i (list_sort is)
  pub sale : (i : Pic) (is : List Pic) → Memᴰ i (list_sort is) → Memᴰ i is
  pub ordenada : (is : List Pic) → Ordenada (list_sort is)

-- A list and the two that `filtrar_y_remover_lista` makes of it.
pub filtrar-Mem :
    (pid : ℕ) (is : List Pic) (i : Pic) → Memᴰ i (filtrar pid is) → Memᴰ i is × (i.pid ≡ pid)
unfolding filtrar
filtrar-Mem pid [] i h = absurd (Memᴰ.not-nil h)
filtrar-Mem pid (j ∷ is) i h = elim (Bool-cases (j.pid == pid)) [
  | inl y ↦ elim (Memᴰ.cases_cons (rw y at h)) [
    | inl e ↦ (Memᴰ.head e, ap (λ z. z.pid) e ∙ ==→≡ j.pid pid y)
    | inr m ↦ let r = filtrar-Mem pid is i m in (Memᴰ.tail r.0, r.1)
  ]
  | inr n ↦ let r = filtrar-Mem pid is i (rw n at h) in (Memᴰ.tail r.0, r.1)
]

Mem-filtrar :
    (pid : ℕ) (is : List Pic) (i : Pic) → Memᴰ i is → i.pid ≡ pid → Memᴰ i (filtrar pid is)
unfolding filtrar
Mem-filtrar pid [] i h e = absurd (Memᴰ.not-nil h)
Mem-filtrar pid (j ∷ is) i h e = elim (Memᴰ.cases_cons h) [
  | inl a ↦
      let y : (j.pid == pid) ≡ true = ≡→== j.pid pid (ap (λ z. z.pid) (sym a) ∙ e) in
      rw y (Memᴰ.head a)
  | inr m ↦
      let r = Mem-filtrar pid is i m e in
      elim (Bool-cases (j.pid == pid)) [ inl y ↦ rw y (Memᴰ.tail r) | inr n ↦ rw n r ]
]

pub remover-Mem :
    (pid : ℕ) (is : List Pic) (i : Pic) → Memᴰ i (remover pid is) → Memᴰ i is × (i.pid ≢ pid)
unfolding remover
remover-Mem pid [] i h = absurd (Memᴰ.not-nil h)
remover-Mem pid (j ∷ is) i h = elim (Bool-cases (j.pid == pid)) [
  | inl y ↦ let r = remover-Mem pid is i (rw y at h) in (Memᴰ.tail r.0, r.1)
  | inr n ↦ elim (Memᴰ.cases_cons (rw n at h)) [
    | inl e ↦ (Memᴰ.head e, λ z. ==→ne j.pid pid n (ap (λ w. w.pid) (sym e) ∙ z))
    | inr m ↦ let r = remover-Mem pid is i m in (Memᴰ.tail r.0, r.1)
  ]
]

pub Mem-remover :
    (pid : ℕ) (is : List Pic) (i : Pic) → Memᴰ i is → i.pid ≢ pid → Memᴰ i (remover pid is)
unfolding remover
Mem-remover pid [] i h e = absurd (Memᴰ.not-nil h)
Mem-remover pid (j ∷ is) i h e = elim (Memᴰ.cases_cons h) [
  | inl a ↦
      let n : (j.pid == pid) ≡ false = ne→== j.pid pid (λ z. e (ap (λ w. w.pid) a ∙ z)) in
      rw n (Memᴰ.head a)
  | inr m ↦
      let r = Mem-remover pid is i m e in
      elim (Bool-cases (j.pid == pid)) [ inl y ↦ rw y r | inr n ↦ rw n (Memᴰ.tail r) ]
]

vacia-Mem : (i : Pic) (is : List Pic) → Memᴰ i is → vacia is ≡ false
vacia-Mem i [] h = absurd (Memᴰ.not-nil h)
vacia-Mem i (j ∷ is) h = refl

primera : (is : List Pic) (i : Pic) → Memᴰ i is → (j : Pic) × (js : List Pic) × (is ≡ j ∷ js)
primera [] i h = absurd (Memᴰ.not-nil h)
primera (j ∷ js) i h = (j, js, refl)

primera-minima :
    (j : Pic) (js : List Pic) (i : Pic)
    → Ordenada (j ∷ js)
    → Memᴰ i (j ∷ js)
    → j.bit_prioridad ≤ i.bit_prioridad
primera-minima j js i o h = elim (Memᴰ.cases_cons h) [
  | inl e ↦ let q = ap (λ z. z.bit_prioridad) e in omega arith
  | inr m ↦ ltb→ge i.bit_prioridad j.bit_prioridad (o.0 i m)
]

-- Without a buffer, the one created has room for the registers.
pub desalojo_proceso_vacio :
    (mensaje : ℕ) (c : Cpu)
    → (b : Sbuffer) × (desalojo_proceso none mensaje c ≡ some (enviar mensaje b c))
      × (buffer_add_registros (buffer_create 36) c.registros ≡ some b)
unfolding desalojo_proceso
desalojo_proceso_vacio mensaje c =
    let cs = campos_registros c.registros in
    let (b, run, _) =
      agregar_campos-Escrito 36 cs [] (buffer_create 36) (buffer_create-Escrito 36 (omega arith))
        (omega arith) in
    let lleva = sym (agregar-registros (buffer_create 36) c.registros) ∙ run in
    (b, rw (lleva, ◌>>=◌) refl, lleva)

atender_interrupcion_lem :
    (list_sort : List Pic → List Pic) (propias js : List Pic) (i : Pic) (c : Cpu)
    → list_sort propias ≡ i ∷ js
    → atender_interrupcion list_sort propias c
      ≡ desalojo_proceso none i.motivo_interrupcion (record c { seguir_ejecucion = false })
unfolding atender_interrupcion
atender_interrupcion_lem list_sort propias js i c s = rw (s, atender_interrupcion) refl

si_ninguna :
    (a b d : Bool) (x y z : Option Cpu)
    → a ≡ false
    → b ≡ false
    → d ≡ false
    → (if a then x else if not b && not d then y else z) ≡ y
si_ninguna a b d x y z ha hb hd = rw (ha, hb, hd) refl

module _ (list_sort : List Pic → List Pic) (orden : Ordena list_sort) (pid : ℕ) (c : Cpu) where
  -- A check with an interrupt for the process that runs, not yet evicted, and a library that sorts:
  -- the execution stops, one packet with the registers goes to the kernel, with the motive of one of the process's
  -- interrupts whose priority bit no other of them has smaller; the interrupts that are left are
  -- exactly those of the other processes.
  pub check_interrupt_lem :
      (pedida : Pic)
      → Memᴰ pedida c.list_interrupciones
      → pedida.pid ≡ pid
      → c.desalojo ≡ false
      → (i : Pic) × (b : Sbuffer) × (quedan : List Pic) × (check_interrupt list_sort pid c
          ≡ some (
              enviar i.motivo_interrupcion b
                (record c { seguir_ejecucion = false; list_interrupciones = quedan })))
        × ((j : Pic) → Memᴰ j quedan → Memᴰ j c.list_interrupciones × (j.pid ≢ pid))
        × ((j : Pic) → Memᴰ j c.list_interrupciones → j.pid ≢ pid → Memᴰ j quedan)
        × (buffer_add_registros (buffer_create 36) c.registros ≡ some b)
        × Memᴰ i c.list_interrupciones
        × (i.pid ≡ pid)
        × ((j : Pic)
            → Memᴰ j c.list_interrupciones
            → j.pid ≡ pid
            → i.bit_prioridad ≤ j.bit_prioridad)
  unfolding check_interrupt
  check_interrupt_lem pedida h e d =
      let is = c.list_interrupciones in
      let propias = filtrar pid is in
      let en = Mem-filtrar pid is pedida h e in
      let (i, js, s) = primera (list_sort propias) pedida (orden.entra pedida propias en) in
      let c' = record c { seguir_ejecucion = false; list_interrupciones = remover pid is } in
      let (b, run, lleva) = desalojo_proceso_vacio i.motivo_interrupcion c' in
      let de = filtrar-Mem pid is i (orden.sale i propias (rw s (Memᴰ.head refl))) in
      (
        i,
        b,
        remover pid is,
        si_ninguna (vacia is) (vacia propias) c.desalojo (some c)
              (atender_interrupcion list_sort propias
                (record c { list_interrupciones = remover pid is }))
              (some (record c { list_interrupciones = remover pid is })) (vacia-Mem pedida is h)
              (vacia-Mem pedida propias en) d
            ∙ atender_interrupcion_lem list_sort propias js i
                (record c { list_interrupciones = remover pid is }) s
            ∙ run,
        λ j. remover-Mem pid is j,
        λ j. Mem-remover pid is j,
        lleva,
        de.0,
        de.1,
        λ j hj ej.
            primera-minima i js j (subst Ordenada s (orden.ordenada propias))
              (subst (λ z. Memᴰ j z) s (orden.entra j propias (Mem-filtrar pid is j hj ej))),
      )
