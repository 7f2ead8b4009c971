-- ===== src/Base/Outcome.antt =====
-- Chains of pure fallible steps.
use foldlab.Base.Effects.{Result, ok, err}

infixl 10 ◌>>=◌
abbrev pub ◌>>=◌ : {E A B : Type 0} → Result E A → (A → Result E B) → Result E B
ok value >>= next = next value
err failure >>= next = err failure
