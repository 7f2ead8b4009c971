-- ===== src/Graph/Sets.antt =====
-- The sets of a walk, which are lists: membership, distinctness, and how many of a list are missing.
use foldlab.Base.{
  ℕ, suc, ◌+◌, ◌≤◌, ◌≡◌, Bool, true, false, not, ◌&&◌, ◌||◌, List, [], ◌∷◌, ◌++◌, length, some,
  none, get_elem?, zero, ◌<◌, text_eq, text_eq_iff, text_eq_refl, if◌then◌else◌, arith,
}
use foldlab.Node.{ContentId}
use foldlab.Backend.{contains}

pub contains-append :
    (x y : ContentId) (xs : List ContentId)
    → contains y (xs ++ x ∷ []) ≡ (contains y xs || text_eq x y)
unfolding contains
contains-append x y [] = ground arith
contains-append x y (k ∷ xs) = ground (arith, contains-append x y xs)

-- No identifier twice.
unfoldable pub distinct : List ContentId → Bool
distinct [] = true
distinct (x ∷ xs) = not (contains x xs) && distinct xs

pub distinct-append :
    (x : ContentId) (xs : List ContentId)
    → distinct xs ≡ true
    → contains x xs ≡ false
    → distinct (xs ++ x ∷ []) ≡ true
unfolding distinct contains
distinct-append x [] d h = ground arith
distinct-append x (k ∷ xs) d h =
    ground (arith, distinct-append x xs, contains-append x k xs, text_eq_iff x k, text_eq_iff k x)

-- How many of a list are not in a set.
pub missing : List ContentId → List ContentId → ℕ
missing [] set = 0
missing (k ∷ ids) set = (if contains k set then 0 else 1) + missing ids set

pub missing-append :
    (x : ContentId) (ids set : List ContentId) → missing ids (set ++ x ∷ []) ≤ missing ids set
unfolding missing
missing-append x [] set = omega arith
missing-append x (k ∷ ids) set = ground (arith, missing-append x ids set, contains-append x k set)

pub missing-less :
    (x : ContentId) (ids set : List ContentId)
    → contains x ids ≡ true
    → contains x set ≡ false
    → missing ids (set ++ x ∷ []) + 1 ≤ missing ids set
unfolding missing contains
missing-less x [] set h k = ground arith
missing-less x (y ∷ ids) set h k = ground (
  arith,
  missing-less x ids set,
  missing-append x ids set,
  contains-append x y set,
  text_eq_iff y x,
  text_eq_refl y,
)

pub missing-length : (ids set : List ContentId) → missing ids set ≤ length ids
unfolding missing
missing-length [] set = omega arith
missing-length (k ∷ ids) set = ground (arith, missing-length ids set)

pub get_elem?-bound :
    {A : Type 0} (xs : List A) (i j : ℕ) (x : A)
    → get_elem? xs i ≡ none
    → get_elem? xs j ≡ some x
    → j < i
get_elem?-bound [] i j x h k = cc
get_elem?-bound (y ∷ xs) zero j x h k = cc
get_elem?-bound (y ∷ xs) (suc i) zero x h k = omega arith
get_elem?-bound (y ∷ xs) (suc i) (suc j) x h k = omega (arith, get_elem?-bound xs i j x h k)
