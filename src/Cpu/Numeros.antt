-- ===== src/Cpu/Numeros.antt =====
-- Numbers and their digits in cpu/src/instrucciones.c, and `atoi` as it reads them.
pub mod IdaVuelta
use tp_2024_1c_pccsc.Common.{
  ℕ, zero, suc, ◌+◌, ◌-◌, ◌*◌, ◌/◌, ◌%◌, ◌^◌, Bool, ◌&&◌, ◌||◌, Option, none, some, List, [], ◌∷◌,
  ◌++◌, ltb, leb, ◌==◌, if◌then◌else◌, ◌>>=◌,
}

-- `if (num < 0) num = -num;` on an `int` by its bit pattern. The least `int` has no opposite: the
-- behaviour is undefined, and the length that comes of it is negative.
abbrev pub opuesto_si_negativo : ℕ → Option ℕ
opuesto_si_negativo num =
    if ltb num (2 ^ 31) then some num else if num == 2 ^ 31 then none else some (2 ^ 32 - num)

-- (int)log10(num) + 1: the number of decimal digits, with one round for each digit but the first.
unfoldable pub digitos : ℕ → ℕ → ℕ
digitos zero num = 1
digitos (suc k) num = let resto = digitos k (num / 10) in if ltb num 10 then 1 else suc resto

-- An `int` has ten digits at most.
unfoldable pub contar_digitos : ℕ → Option ℕ
unfolding digitos
contar_digitos num = do v ← opuesto_si_negativo num; some (digitos 9 v)

-- The loop of `intToCadena`, which writes the characters from the last to the first.
unfoldable pub cifras : ℕ → ℕ → List ℕ
cifras zero num = []
cifras (suc i) num = cifras i (num / 10) ++ (num % 10 + b'0') ∷ []

unfoldable pub int_to_cadena : ℕ → ℕ → Option (List ℕ)
unfolding cifras
int_to_cadena num longitud = do v ← opuesto_si_negativo num; some (cifras longitud v)

abbrev pub es_digito : ℕ → Bool
es_digito c = leb b'0' c && leb c b'9'

abbrev pub es_espacio : ℕ → Bool
es_espacio c = (c == b' ') || (leb 9 c && leb c 13)

unfoldable pub leer_cifras : ℕ → List ℕ → ℕ
leer_cifras acum [] = acum
leer_cifras acum (c ∷ cs) =
    let sigue = leer_cifras (acum * 10 + (c - b'0')) cs in if es_digito c then sigue else acum

-- A sign, then digits. The result is an `int` by its bit pattern; of a number that no `int` holds
-- the low 32 bits are kept.
unfoldable pub con_signo : List ℕ → ℕ
unfolding leer_cifras
con_signo [] = 0
con_signo (c ∷ cs) =
    if c == b'-'
    then (2 ^ 32 - leer_cifras 0 cs % 2 ^ 32) % 2 ^ 32
    else if c == b'+'
    then leer_cifras 0 cs % 2 ^ 32
    else leer_cifras 0 (c ∷ cs) % 2 ^ 32

unfoldable pub atoi : List ℕ → ℕ
unfolding con_signo
atoi [] = 0
atoi (c ∷ cs) = let sigue = atoi cs in if es_espacio c then sigue else con_signo (c ∷ cs)
