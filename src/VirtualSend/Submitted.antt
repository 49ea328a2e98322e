-- ===== src/VirtualSend/Submitted.antt =====
-- tools/zkmsg/core/src/virtual_send.rs: where `publish` and `mark_done` put a hash, it is read.
use stwo_starknet_verifier.Common.{
  ℕ, zero, suc, ◌≡◌, inl, inr, refl, sym, ap, subst, ◌∙◌, true, Option, some, List, [], ◌∷◌,
  get_elem?, set, Bool-cases, Option-cases, arith,
}
use stwo_starknet_verifier.Felts.{Text}
use stwo_starknet_verifier.Sends.{SendState, StepRecord, mark_done}
use stwo_starknet_verifier.VirtualSend.Finish.{is_publish, publish_index}
use stwo_starknet_verifier.VirtualSend.Log.{hash_in, submitted}

-- The publish step with another hash.
pub publish_index-set :
    (ss : List StepRecord) (i : ℕ) (step step' : StepRecord)
    → publish_index ss ≡ some i
    → get_elem? ss i ≡ some step
    → is_publish step' ≡ is_publish step
    → publish_index (set ss i step') ≡ some i
unfolding publish_index
publish_index-set [] i step step' e at kind = cc
publish_index-set (x ∷ xs) zero step step' e at kind =
    let is_step : x ≡ step = cc in
    elim (Bool-cases (is_publish x)) [
      | inl t ↦ rw (kind, sym (ap (λ s. is_publish s) is_step), t) refl
      | inr f ↦ elim (Option-cases (publish_index xs)) [
        | inl none_later ↦ cc (rw f at e)
        | inr (j, later) ↦ cc (rw f at e)
      ]
    ]
publish_index-set (x ∷ xs) (suc i) step step' e at kind = elim (Bool-cases (is_publish x)) [
  | inl t ↦ cc (rw (t, publish_index) at e)
  | inr f ↦ elim (Option-cases (publish_index xs)) [
    | inl none_later ↦ cc (rw f at e)
    | inr (j, later) ↦
        let here : publish_index xs ≡ some i = later ∙ ap some (ground arith) in
        rw (f, publish_index-set xs i step step' here at kind) refl
  ]
]

get_elem?-set_at :
    (ss : List StepRecord) (i : ℕ) (step step' : StepRecord)
    → get_elem? ss i ≡ some step
    → get_elem? (set ss i step') i ≡ some step'
get_elem?-set_at [] i step step' e = cc
get_elem?-set_at (x ∷ xs) zero step step' e = refl
get_elem?-set_at (x ∷ xs) (suc i) step step' e = get_elem?-set_at xs i step step' e

-- A step with the publish step's kind and this hash, in its place.
pub set-hash_in :
    (ss : List StepRecord) (i : ℕ) (step step' : StepRecord) (t : Text)
    → publish_index ss ≡ some i
    → get_elem? ss i ≡ some step
    → is_publish step' ≡ is_publish step
    → step'.tx_hash ≡ some t
    → hash_in (set ss i step') ≡ some t
unfolding hash_in
set-hash_in ss i step step' t e at kind hash =
    rw (publish_index-set ss i step step' e at kind, get_elem?-set_at ss i step step' at, hash_in)
      hash

pub mark_done-submitted :
    (i : ℕ) (t : Text) (text : Option Text) (s s' : SendState)
    → publish_index s.steps ≡ some i
    → mark_done i (some t) text s ≡ some s'
    → submitted s' ≡ some t
unfolding mark_done
mark_done-submitted i t text s s' e done = elim (Option-cases (get_elem? s.steps i)) [
  | inl missing ↦ cc (rw (missing, mark_done) at done)
  | inr (step, at) ↦
      let step' : StepRecord = record step { is_done = true; tx_hash = some t; note = text } in
      let steps : set s.steps i step' ≡ s'.steps = ground arith in
      subst (λ ss. hash_in ss ≡ some t) steps (set-hash_in s.steps i step step' t e at refl refl)
]
