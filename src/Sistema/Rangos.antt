-- ===== src/Sistema/Rangos.antt =====
-- The images of a range of logical addresses, and the requests that reach them.
use tp_2024_1c_pccsc.Common.{
  ℕ, zero, suc, ◌+◌, ◌-◌, ◌*◌, ◌^◌, ◌≤◌, ◌<◌, List, [], ◌∷◌, ◌≡◌, ◌≢◌, refl, sym, ◌∙◌, ap, subst,
  arith, length, length-append, length-take, length-drop, drop, map, count, count-append, inl, inr,
  ◌==◌, Bool-cases, ==→≡, ==→ne, ne→==,
}
use tp_2024_1c_pccsc.Common.Celdas.{celda, rango, length-rango}
use tp_2024_1c_pccsc.Buffer.Campos.{EnRango, tamanio_campos}
use tp_2024_1c_pccsc.Cpu.Mmu.{Peticion}
use tp_2024_1c_pccsc.Cpu.Mmu.Traduccion.{expandir, Contiguas, Positivas}
use tp_2024_1c_pccsc.Sistema.Mensajes.{Dentro, campos_escribir}
use tp_2024_1c_pccsc.Sistema.Aplicar.{SinRepetir, EnMemoria, count-rango_dentro}

module _ (f : ℕ → ℕ) where
  pub count-imagen_fuera :
      (v a n : ℕ) → ((x : ℕ) → a ≤ x → x < a + n → f x ≢ v) → count v (map f (rango a n)) ≡ 0
  count-imagen_fuera v a zero h = refl
  count-imagen_fuera v a (suc n) h =
      let i = count-imagen_fuera v (suc a) n (λ x p q. h x (omega arith) (omega arith)) in
      rw (ne→== (f a) v (h a (omega arith) (omega arith))) (omega arith)

  pub imagen-SinRepetir :
      (a n : ℕ)
      → ((x y : ℕ) → a ≤ x → x < a + n → a ≤ y → y < a + n → f x ≡ f y → x ≡ y)
      → SinRepetir (map f (rango a n))
  imagen-SinRepetir a zero h v = omega arith
  imagen-SinRepetir a (suc n) h v = elim (Bool-cases (f a == v)) [
    | inl y ↦
        let e = ==→≡ (f a) v y in
        let i = count-imagen_fuera v (suc a) n (λ x p q k.
          (let z = h x a (omega arith) (omega arith) (omega arith) (omega arith) (k ∙ sym e) in
            absurd (omega arith))) in
        rw y (omega arith)
    | inr z ↦
        let i =
          imagen-SinRepetir (suc a) n
            (λ x y p q r s. h x y (omega arith) (omega arith) (omega arith) (omega arith)) v in
        rw z (omega arith)
  ]

  pub imagen_lt :
      (v a n m : ℕ)
      → ((x : ℕ) → a ≤ x → x < a + n → f x < m)
      → 0 < count v (map f (rango a n))
      → v < m
  imagen_lt v a zero m h c = absurd (omega arith)
  imagen_lt v a (suc n) m h c = elim (Bool-cases (f a == v)) [
    | inl y ↦ subst (λ z. z < m) (==→≡ (f a) v y) (h a (omega arith) (omega arith))
    | inr z ↦
        let c0 = (rw z at c) in
        let c' : 0 < count v (map f (rango (suc a) n)) = omega arith in
        imagen_lt v (suc a) n m (λ x p q. h x (omega arith) (omega arith)) c'
  ]

  -- One value out of the values along a range.
  pub imagen_en :
      (g : ℕ → ℕ) (a n x : ℕ)
      → a ≤ x
      → x < a + n
      → celda (map g (map f (rango a n))) (x - a) ≡ g (f x)
  imagen_en g a zero x p q = absurd (omega arith)
  imagen_en g a (suc n) x p q = elim (Bool-cases (a == x)) [
    | inl y ↦
        let e = ==→≡ a x y in
        ap (celda (g (f a) ∷ map g (map f (rango (suc a) n))))
          (let z : x - a ≡ 0 = omega arith in z)
        ∙ ap (λ z. g (f z)) e
    | inr z ↦
        let ne = ==→ne a x z in
        ap (celda (g (f a) ∷ map g (map f (rango (suc a) n))))
          (let z : x - a ≡ suc (x - suc a) = omega arith in z)
        ∙ imagen_en g (suc a) n x (omega arith) (omega arith)
  ]

-- Requests that reach only places below `n` lie there.
pub EnMemoria_lem :
    (n : ℕ) (ps : List Peticion)
    → Positivas ps
    → ((x : ℕ) → 0 < count x (expandir ps) → x < n)
    → EnMemoria n ps
EnMemoria_lem n [] h k = tt
EnMemoria_lem n (p ∷ ps) h k =
    let u = p.direccion_fisica + p.bytes - 1 in
    let h0 = h.0 in
    let c = count-append u (rango p.direccion_fisica p.bytes) (expandir ps) in
    let d = count-rango_dentro u p.direccion_fisica p.bytes (omega arith) (omega arith) in
    let l = k u (omega arith) in
    (
      omega arith,
      EnMemoria_lem n ps h.1 (λ x q.
          k x (omega (arith, count-append x (rango p.direccion_fisica p.bytes) (expandir ps)))),
    )

pub Dentro_lem :
    (dato : List ℕ) (ps : List Peticion) (e : ℕ)
    → Contiguas e ps
    → e + length (expandir ps) ≤ length dato
    → Dentro dato ps
Dentro_lem dato [] e c h = tt
Dentro_lem dato (p ∷ ps) e c h =
    let l = length-append (rango p.direccion_fisica p.bytes) (expandir ps) in
    let r = length-rango p.direccion_fisica p.bytes in
    let c0 = c.0 in (omega arith, Dentro_lem dato ps (e + p.bytes) c.1 (omega arith))

pub tamanio-campos_escribir :
    (dato : List ℕ) (ps : List Peticion)
    → Dentro dato ps
    → tamanio_campos (campos_escribir dato ps) ≡ 8 * length ps + length (expandir ps)
tamanio-campos_escribir dato [] h = refl
tamanio-campos_escribir dato (p ∷ ps) h =
    let h0 = h.0 in
    omega (
      arith,
      tamanio-campos_escribir dato ps h.1,
      length-append (rango p.direccion_fisica p.bytes) (expandir ps),
      length-rango p.direccion_fisica p.bytes,
      length-take p.bytes (drop p.desde dato),
      length-drop p.desde dato,
    )

pub campos_escribir-EnRango :
    (dato : List ℕ) (n : ℕ) (ps : List Peticion)
    → n < 2 ^ 32
    → EnMemoria n ps
    → EnRango (campos_escribir dato ps)
campos_escribir-EnRango dato n [] h e = tt
campos_escribir-EnRango dato n (p ∷ ps) h e =
    let e0 = e.0 in
    (
      omega arith,
      (
        omega (arith, length-take p.bytes (drop p.desde dato)),
        campos_escribir-EnRango dato n ps h e.1,
      ),
    )
