-- ===== src/Common/Results.antt =====
-- `anyhow::Result` with the errors of a component as a data type, and the `?` operator as bind.
use mathlib.Core.Path.{◌≡◌, refl}
use mathlib.Core.Logic.{◌⊎◌, inl, inr}
use mathlib.Core.Bool.{Bool, true, false}
use mathlib.Core.Option.{Option, none, some}

pub data Result {ℓ κ} (Err : Type ℓ) (Out : Type κ) : Type (ℓ ⊔ κ) where
  err : Err → Result Err Out
  ok : Out → Result Err Out

module _ {ℓ κ} {Err : Type ℓ} {Out : Type κ} where
  -- To split on a result and keep the equation.
  pub Result-cases : (m : Result Err Out) → ((e : Err) × (m ≡ err e)) ⊎ ((out : Out) × (m ≡ ok out))
  Result-cases (err e) = inl (e, refl)
  Result-cases (ok out) = inr (out, refl)

  -- `option.context(e)?`
  abbrev pub context : Option Out → Err → Result Err Out
  context (some out) e = ok out
  context none e = err e

  infixl 5 ◌>>=◌
  abbrev pub ◌>>=◌ {μ} :
      {Next : Type μ} → Result Err Out → (Out → Result Err Next) → Result Err Next
  err e >>= next = err e
  ok out >>= next = next out

  -- Inversion of a successful bind.
  pub >>=-eq-ok {μ} :
      {Next : Type μ} (m : Result Err Out) (next : Out → Result Err Next) {end : Next}
      → (m >>= next) ≡ ok end
      → (out : Out) × (m ≡ ok out) × (next out ≡ ok end)
  >>=-eq-ok (err e) next h = cc
  >>=-eq-ok (ok out) next h = (out, refl, h)

  pub context-eq-ok : (o : Option Out) (e : Err) {out : Out} → context o e ≡ ok out → o ≡ some out
  context-eq-ok none e h = cc
  context-eq-ok (some found) e h = cc

module _ {ℓ} {Err : Type ℓ} where
  infixl 5 ◌>>◌
  abbrev pub ◌>>◌ {κ} : {Out : Type κ} → Result Err (Unit {0}) → Result Err Out → Result Err Out
  m >> k = m >>= λ _. k

  -- `ensure!(test, e)`
  abbrev pub ensure : Bool → Err → Result Err (Unit {0})
  ensure false e = err e
  ensure true e = ok tt

  -- Inversion of a chain past a test.
  pub ensure-eq-ok {κ} :
      {Out : Type κ} (test : Bool) (e : Err) {rest : Result Err Out} {out : Out}
      → (ensure test e >> rest) ≡ ok out
      → (test ≡ true) × (rest ≡ ok out)
  ensure-eq-ok false e h = cc
  ensure-eq-ok true e h = (refl, h)
