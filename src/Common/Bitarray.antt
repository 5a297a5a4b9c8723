-- ===== src/Common/Bitarray.antt =====
-- The bit array that the memory and the file system keep (`t_bitarray` of so-commons, a library
-- outside the repository), as an interface. `max_bit` is `bitarray_get_max_bit`; the laws are
-- assumed only within it, and nothing is assumed of the bytes that `bitarray_create_with_mode`
-- is handed.
use Prim.Native.Nat.{ℕ, ◌*◌, ◌<◌}
use mathlib.Core.Path.{◌≡◌}
use mathlib.Core.Bool.{Bool, true, false}
use tp_2024_1c_pccsc.Common.Tests.{◌==◌, if◌then◌else◌}

pub record Bitarray : Type 1 where
  pub Bits : Type 0
  -- The argument is the size in bytes.
  pub create_with_mode : ℕ → Bits
  pub max_bit : Bits → ℕ
  pub test_bit : Bits → ℕ → Bool
  pub set_bit : Bits → ℕ → Bits
  pub clean_bit : Bits → ℕ → Bits
  pub max_bit-create : (n : ℕ) → max_bit (create_with_mode n) ≡ n * 8
  pub max_bit-set : (b : Bits) (i : ℕ) → i < max_bit b → max_bit (set_bit b i) ≡ max_bit b
  pub max_bit-clean : (b : Bits) (i : ℕ) → i < max_bit b → max_bit (clean_bit b i) ≡ max_bit b
  pub test-set :
      (b : Bits) (i j : ℕ)
      → i < max_bit b
      → test_bit (set_bit b i) j ≡ (if i == j then true else test_bit b j)
  pub test-clean :
      (b : Bits) (i j : ℕ)
      → i < max_bit b
      → test_bit (clean_bit b i) j ≡ (if i == j then false else test_bit b j)
