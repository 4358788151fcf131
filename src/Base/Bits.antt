-- ===== src/Base/Bits.antt =====
-- Finite tables, and the bit operations that the program's masks need.
use Prim.Native.Nat.{ℕ, zero, suc, ◌+◌, ◌<◌, bit_or}
use mathlib.Core.Path.{◌≡◌, refl}
use mathlib.Core.Bool.{Bool, true, false}
use native.Mathlib.Omega.{arith}
use msime_linux.Base.Tests.{if◌then◌else◌, ◌==◌, ==_iff}

-- A test that passes at every number under a bound.
unfoldable pub passes : (ℕ → Bool) → ℕ → Bool
passes test zero = true
passes test (suc bound) = if test bound then passes test bound else false

pub test_of_passes :
    (test : ℕ → Bool) (bound k : ℕ) → passes test bound ≡ true → k < bound → test k ≡ true
unfolding passes
test_of_passes test zero k checked lt = absurd (omega arith)
test_of_passes test (suc bound) k checked lt = ground (arith, test_of_passes test bound k)

continuation_table : passes (λ x. bit_or 0x80 x == 0x80 + x) 64 ≡ true
unfolding passes
continuation_table = refl

lead2_table : passes (λ x. bit_or 0xc0 x == 0xc0 + x) 32 ≡ true
unfolding passes
lead2_table = refl

lead3_table : passes (λ x. bit_or 0xe0 x == 0xe0 + x) 16 ≡ true
unfolding passes
lead3_table = refl

lead4_table : passes (λ x. bit_or 0xf0 x == 0xf0 + x) 8 ≡ true
unfolding passes
lead4_table = refl

-- A marker and a payload of disjoint bits add up.
pub bit_or-continuation : (x : ℕ) → x < 64 → bit_or 0x80 x ≡ 0x80 + x
bit_or-continuation x h = (==_iff _ _).0 (test_of_passes _ 64 x continuation_table h)

pub bit_or-lead2 : (x : ℕ) → x < 32 → bit_or 0xc0 x ≡ 0xc0 + x
bit_or-lead2 x h = (==_iff _ _).0 (test_of_passes _ 32 x lead2_table h)

pub bit_or-lead3 : (x : ℕ) → x < 16 → bit_or 0xe0 x ≡ 0xe0 + x
bit_or-lead3 x h = (==_iff _ _).0 (test_of_passes _ 16 x lead3_table h)

pub bit_or-lead4 : (x : ℕ) → x < 8 → bit_or 0xf0 x ≡ 0xf0 + x
bit_or-lead4 x h = (==_iff _ _).0 (test_of_passes _ 8 x lead4_table h)
