-- ===== src/Common/Muestra.antt =====
-- A bit array to evaluate the models on: its size in bits and its bits, all set when it is new.
use Prim.Native.Nat.{ℕ, ◌*◌}
use mathlib.Core.Path.{refl}
use mathlib.Core.Bool.{Bool, true, false}
use tp_2024_1c_pccsc.Common.Tests.{◌==◌, if◌then◌else◌}
use tp_2024_1c_pccsc.Common.Bitarray.{Bitarray}

instance abbrev pub muestra : Bitarray
muestra = record {
  Bits = ℕ × (ℕ → Bool);
  create_with_mode = λ n. (n * 8, λ _. true);
  max_bit = λ b. b.0;
  test_bit = λ b i. b.1 i;
  set_bit = λ b i. (b.0, λ j. if i == j then true else b.1 j);
  clean_bit = λ b i. (b.0, λ j. if i == j then false else b.1 j);
  max_bit-create = λ n. refl;
  max_bit-set = λ b i h. refl;
  max_bit-clean = λ b i h. refl;
  test-set = λ b i j h. refl;
  test-clean = λ b i j h. refl;
}
