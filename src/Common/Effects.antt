-- ===== src/Common/Effects.antt =====
-- Operations on a state that may fail: a failed one keeps the changes that it made before.
use mathlib.Core.Path.{◌≡◌, refl}
use mathlib.Core.Logic.{◌⊎◌, inl, inr}
use stwo_starknet_verifier.Common.Results.{Result, ok, err}

abbrev pub Effect : Type 0 → Type 0 → Type 0 → Type 0
Effect S E A = S → S × Result E A

module _ {S E : Type 0} where
  -- The rest of a chain, from the outcome of its first operation.
  abbrev pub after : {A B : Type 0} → S × Result E A → (A → Effect S E B) → S × Result E B
  after (s, ok a) next = next a s
  after (s, err e) next = (s, err e)

  infixl 5 ◌>>=◌
  abbrev pub ◌>>=◌ : {A B : Type 0} → Effect S E A → (A → Effect S E B) → Effect S E B
  ◌>>=◌ m next s = after (m s) next

  infixl 5 ◌>>◌
  abbrev pub ◌>>◌ : {B : Type 0} → Effect S E (Unit {0}) → Effect S E B → Effect S E B
  ◌>>◌ m rest s = after (m s) (λ _. rest)

  abbrev pub pure : {A : Type 0} → A → Effect S E A
  pure a s = (s, ok a)

  abbrev pub fail : {A : Type 0} → E → Effect S E A
  fail e s = (s, err e)

  -- A pure result, `f()?`.
  abbrev pub lift : {A : Type 0} → Result E A → Effect S E A
  lift r s = (s, r)

  -- A change of the state that cannot fail.
  abbrev pub modify : (S → S) → Effect S E (Unit {0})
  modify f s = (f s, ok tt)

  -- Inversion of a successful chain.
  pub after-eq-ok :
      {A B : Type 0} (m : S × Result E A) (next : A → Effect S E B) {s : S} {b : B}
      → after m next ≡ (s, ok b)
      → (mid : S) × (a : A) × (m ≡ (mid, ok a)) × (next a mid ≡ (s, ok b))
  after-eq-ok (mid, ok a) next h = (mid, a, refl, h)
  after-eq-ok (mid, err e) next h = cc

  -- What holds after a chain: after its first operation, and after the rest from any state there.
  pub after-keeps :
      {A B : Type 0} (P : S → Type 0) (m : S × Result E A) (next : A → Effect S E B)
      → P m.0
      → ((a : A) (mid : S) → P mid → P (next a mid).0)
      → P (after m next).0
  after-keeps P (mid, ok a) next h rest = rest a mid h
  after-keeps P (mid, err e) next h rest = h

  -- What holds of a chain's outcome, from how its first operation ended.
  pub after-ends :
      {A B : Type 0} (Q : S × Result E B → Type 0) (m : S × Result E A) (next : A → Effect S E B)
      → ((s : S) (a : A) → m ≡ (s, ok a) → Q (next a s))
      → ((s : S) (e : E) → m ≡ (s, err e) → Q (s, err e))
      → Q (after m next)
  after-ends Q (mid, ok a) next good bad = good mid a refl
  after-ends Q (mid, err e) next good bad = bad mid e refl

  -- To split on how an operation ended and keep the equation.
  pub Outcome-cases :
      {A : Type 0} (m : S × Result E A)
      → ((s : S) × (e : E) × (m ≡ (s, err e))) ⊎ ((s : S) × (a : A) × (m ≡ (s, ok a)))
  Outcome-cases (s, err e) = inl (s, e, refl)
  Outcome-cases (s, ok a) = inr (s, a, refl)
