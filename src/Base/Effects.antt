-- ===== src/Base/Effects.antt =====
-- Effects: a computation reads and writes the world, and returns a value or fails in its error channel.
-- What was written before a failure stays written.
use mathlib.Core.Path.{◌≡◌, refl}
use mathlib.Core.Logic.{◌⊎◌, inl, inr}

pub data Result {ℓ κ} (E : Type ℓ) (A : Type κ) : Type (ℓ ⊔ κ) where
  ok : A → Result E A
  err : E → Result E A

-- To split on a computed result and keep the equation.
pub Result-cases :
    {E A : Type 0} (r : Result E A) → ((a : A) × (r ≡ ok a)) ⊎ ((e : E) × (r ≡ err e))
Result-cases (ok a) = inl (a, refl)
Result-cases (err e) = inr (e, refl)

abbrev pub Eff : Type 0 → Type 0 → Type 0 → Type 0
Eff S E A = S → Result E A × S

module _ {S E : Type 0} where
  abbrev pub succeed : {A : Type 0} → A → Eff S E A
  succeed a s = (ok a, s)

  abbrev pub fail : {A : Type 0} → E → Eff S E A
  fail e s = (err e, s)

  abbrev pub continue : {A B : Type 0} → Result E A → (A → Eff S E B) → Eff S E B
  continue (ok a) f s = f a s
  continue (err e) f s = (err e, s)

  infixl 10 ◌>>=◌ ◌>>◌
  abbrev pub ◌>>=◌ : {A B : Type 0} → Eff S E A → (A → Eff S E B) → Eff S E B
  ◌>>=◌ m f s = let (r, s') = m s in continue r f s'

  abbrev pub ◌>>◌ : {B : Type 0} → Eff S E (Unit {0}) → Eff S E B → Eff S E B
  m >> n = m >>= λ _. n

-- A result of no effect.
abbrev pub lift : {S E A : Type 0} → Result E A → Eff S E A
lift r s = (r, s)

abbrev pub map_err : {E F A : Type 0} → (E → F) → Result E A → Result F A
map_err f (ok a) = ok a
map_err f (err e) = err (f e)

-- `Effect.mapError`.
abbrev pub map_error : {S E F A : Type 0} → (E → F) → Eff S E A → Eff S F A
map_error f m s = let (r, s') = m s in (map_err f r, s')

module _ {S E A B : Type 0} (f : A → Eff S E B) {b : B} {t : S} where
  continue-eq-ok :
      (p : Result E A × S)
      → continue p.0 f p.1 ≡ (ok b, t)
      → (a : A) × (u : S) × (p ≡ (ok a, u)) × (f a u ≡ (ok b, t))
  continue-eq-ok (ok a, u) h = (a, u, refl, h)
  continue-eq-ok (err e, u) h = cc

  -- Inversion of a successful bind.
  pub >>=-eq-ok :
      (m : Eff S E A) (s : S)
      → (m >>= f) s ≡ (ok b, t)
      → (a : A) × (u : S) × (m s ≡ (ok a, u)) × (f a u ≡ (ok b, t))
  >>=-eq-ok m s h = continue-eq-ok (m s) h

module _ {S E F A : Type 0} (g : E → F) {a : A} {t : S} where
  map_err-eq-ok :
      (p : Result E A × S) → ◌≡◌ {A = Result F A × S} (map_err g p.0, p.1) (ok a, t) → p ≡ (ok a, t)
  map_err-eq-ok (ok b, u) h = cc
  map_err-eq-ok (err e, u) h = cc

  -- Inversion of a success whose errors are renamed.
  pub map_error-eq-ok : (m : Eff S E A) (s : S) → map_error g m s ≡ (ok a, t) → m s ≡ (ok a, t)
  map_error-eq-ok m s h = map_err-eq-ok (m s) h
