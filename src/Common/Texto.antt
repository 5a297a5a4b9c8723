-- ===== src/Common/Texto.antt =====
-- Literal texts of the source, as the lists of characters that the models use for strings.
use Prim.Native.Char.{code}
use Prim.Native.String.{String}
use mathlib.Core.List.{List, [], ◌∷◌}
use Prim.Native.Nat.{ℕ}

abbrev pub texto : String → List ℕ
texto String.[] = []
texto (String.◌∷◌ c s) = code c ∷ texto s
