-- ===== src/Base/Conditions.antt =====
-- Conditions that have to hold together: a chain of `&&`, as the list of its parts.
use Prim.Native.Nat.{ℕ, zero, suc}
use mathlib.Core.Path.{◌≡◌, refl}
use mathlib.Core.Bool.{Bool, true, false, ◌&&◌}
use mathlib.Core.List.{List, [], ◌∷◌}

unfoldable pub all_of : List Bool → Bool
all_of [] = true
all_of (b ∷ bs) = b && all_of bs

-- A part, and the chain with one part replaced.
abbrev pub part : List Bool → ℕ → Bool
part [] i = true
part (b ∷ bs) zero = b
part (b ∷ bs) (suc i) = part bs i

abbrev pub set : List Bool → ℕ → Bool → List Bool
set [] i v = []
set (b ∷ bs) zero v = v ∷ bs
set (b ∷ bs) (suc i) v = b ∷ set bs i v

pub part-all_of : (bs : List Bool) (i : ℕ) → all_of bs ≡ true → part bs i ≡ true
unfolding all_of
part-all_of [] i h = refl
part-all_of (true ∷ bs) zero h = refl
part-all_of (false ∷ bs) zero h = h
part-all_of (true ∷ bs) (suc i) h = part-all_of bs i h
part-all_of (false ∷ bs) (suc i) h = absurd (cc h)

pub all_of-set :
    (bs : List Bool) (i : ℕ) (v : Bool) → v ≡ true → all_of bs ≡ true → all_of (set bs i v) ≡ true
unfolding all_of
all_of-set [] i v e h = h
all_of-set (true ∷ bs) zero v e h = rw e h
all_of-set (false ∷ bs) zero v e h = absurd (cc h)
all_of-set (true ∷ bs) (suc i) v e h = all_of-set bs i v e h
all_of-set (false ∷ bs) (suc i) v e h = absurd (cc h)
