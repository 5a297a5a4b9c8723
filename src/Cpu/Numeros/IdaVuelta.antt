-- ===== src/Cpu/Numeros/IdaVuelta.antt =====
-- A number written by `intToCadena` with the length of `contar_digitos`, read again by `atoi`.
use tp_2024_1c_pccsc.Common.{
  ℕ, zero, suc, ◌+◌, ◌-◌, ◌*◌, ◌/◌, ◌%◌, ◌^◌, ◌<◌, true, false, some, List, [], ◌∷◌, ◌++◌, ◌≡◌, ◌≢◌,
  refl, sym, ◌∙◌, ap, arith, append_assoc, append-nil, ltb, ◌==◌, if◌then◌else◌, ◌>>=◌, inl, inr,
  Bool-cases, ltb→lt,
}
use tp_2024_1c_pccsc.Cpu.Numeros.{
  opuesto_si_negativo, digitos, contar_digitos, cifras, int_to_cadena, es_digito, es_espacio,
  leer_cifras, con_signo, atoi,
}

digito-ok : (n : ℕ) → es_digito (n % 10 + b'0') ≡ true
digito-ok n = ground arith

leer_cifras-cifras :
    (k n acum : ℕ) (resto : List ℕ)
    → n < 10 ^ k
    → leer_cifras acum (cifras k n ++ resto) ≡ leer_cifras (acum * 10 ^ k + n) resto
unfolding leer_cifras cifras
leer_cifras-cifras zero n acum resto h = ap (λ z. leer_cifras z resto) (omega arith)
leer_cifras-cifras (suc k) n acum resto h =
    let c = n % 10 + b'0' in
    let d : n / 10 < 10 ^ k = omega arith in
    let p : acum * 10 ^ suc k ≡ acum * (10 ^ k * 10) = ap (λ z. acum * z) (omega arith) in
    let e : (acum * 10 ^ k + n / 10) * 10 + (c - b'0') ≡ acum * 10 ^ suc k + n = omega arith in
    ap (leer_cifras acum) (append_assoc (cifras k (n / 10)) (c ∷ []) resto)
    ∙ leer_cifras-cifras k (n / 10) acum (c ∷ resto) d
    ∙ rw (digito-ok n) (ap (λ z. leer_cifras z resto) e)

-- A text of digits begins with one.
cifras-cabeza :
    (k n : ℕ) → (c : ℕ) × (cs : List ℕ) × (cifras (suc k) n ≡ c ∷ cs) × (es_digito c ≡ true)
unfolding cifras
cifras-cabeza zero n = (n % 10 + b'0', [], refl, digito-ok n)
cifras-cabeza (suc k) n =
    let (c, cs, e, d) = cifras-cabeza k (n / 10) in
    (c, cs ++ (n % 10 + b'0') ∷ [], ap (λ z. z ++ (n % 10 + b'0') ∷ []) e, d)

digitos_acotado : (k n : ℕ) → n < 10 ^ suc k → n < 10 ^ digitos k n
unfolding digitos
digitos_acotado zero n h = h
digitos_acotado (suc k) n h = elim (Bool-cases (ltb n 10)) [
  | inl y ↦ let m : n < 10 ^ 1 = omega (arith, ltb→lt n 10 y) in rw y m
  | inr z ↦
      let i = digitos_acotado k (n / 10) (omega arith) in
      let m : n < 10 ^ suc (digitos k (n / 10)) = omega arith in rw z m
]

digitos_pos : (k n : ℕ) → (j : ℕ) × (digitos k n ≡ suc j)
unfolding digitos
digitos_pos zero n = (0, refl)
digitos_pos (suc k) n = elim (Bool-cases (ltb n 10)) [
  | inl y ↦ (0, rw y refl)
  | inr z ↦ (digitos k (n / 10), rw z refl)
]

atoi-digitos :
    (c : ℕ) (cs : List ℕ) → es_digito c ≡ true → atoi (c ∷ cs) ≡ leer_cifras 0 (c ∷ cs) % 2 ^ 32
unfolding atoi con_signo
atoi-digitos c cs h =
    let a : es_espacio c ≡ false = ground arith in
    let b : (c == b'-') ≡ false = ground arith in
    let d : (c == b'+') ≡ false = ground arith in rw (a, b, d) refl

-- A number of 32 bits, written in decimal and read again.
pub atoi-cifras : (n : ℕ) → n < 2 ^ 32 → atoi (cifras (digitos 9 n) n) ≡ n
unfolding leer_cifras
atoi-cifras n h =
    let k = digitos 9 n in
    let (j, ej) = digitos_pos 9 n in
    let (c, cs, e, d) = cifras-cabeza j n in
    let e' : cifras k n ≡ c ∷ cs = ap (λ z. cifras z n) ej ∙ e in
    let w = leer_cifras-cifras k n 0 [] (digitos_acotado 9 n (omega arith)) in
    let lee : leer_cifras 0 (c ∷ cs) ≡ n =
      ap (leer_cifras 0) (sym e' ∙ sym (append-nil (cifras k n)))
      ∙ w
      ∙ (let z : 0 * 10 ^ k + n ≡ n = omega arith in z) in
    ap atoi e'
    ∙ atoi-digitos c cs d
    ∙ ap (λ z. z % 2 ^ 32) lee
    ∙ (let z : n % 2 ^ 32 ≡ n = omega arith in z)

-- The absolute value of an `int`.
abbrev pub magnitud : ℕ → ℕ
magnitud num = if ltb num (2 ^ 31) then num else 2 ^ 32 - num

-- An `int` other than the least one, by its bit pattern: `contar_digitos` gives a length with which
-- `intToCadena` writes a text that `atoi` reads as the absolute value.
pub int_to_cadena_lem :
    (num : ℕ)
    → num < 2 ^ 32
    → num ≢ 2 ^ 31
    → (l : ℕ) × (s : List ℕ) × (contar_digitos num ≡ some l)
      × (int_to_cadena num l ≡ some s)
      × (atoi s ≡ magnitud num)
unfolding contar_digitos int_to_cadena
int_to_cadena_lem num h k =
    let v = magnitud num in
    let o : opuesto_si_negativo num ≡ some v = ground arith in
    let l = digitos 9 v in
    (l, cifras l v, rw (o, ◌>>=◌) refl, rw (o, ◌>>=◌) refl, atoi-cifras v (ground arith))
