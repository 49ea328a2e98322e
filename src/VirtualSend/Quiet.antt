-- ===== src/VirtualSend/Quiet.antt =====
-- tools/zkmsg/core/src/virtual_send.rs: a log that grows by events that neither post nor free.
use stwo_starknet_verifier.Common.{
  ℕ, ◌≡◌, inl, inr, refl, sym, ◌∙◌, Bool, true, false, ◌||◌, none, List, ◌∷◌, arith,
}
use stwo_starknet_verifier.Felts.{Felt, Crates}
use stwo_starknet_verifier.VirtualSend.World.{
  Event, shown, head_said, root_said, posted, refused, feeder_said, node_said, accepted, freed,
}
use stwo_starknet_verifier.VirtualSend.Log.{
  posted_hash, last_posted, since_post, IsGone, root_answer, last_root, HeadReached, earlier,
  MayFollow, GoodEvent, GoodLog,
}

-- An event that says nothing of the root, and neither posts nor frees.
abbrev pub is_quiet : Event → Bool
is_quiet e = elim e [ posted tx disk ↦ false | freed ↦ false | root_said r a ↦ false | _ ↦ true ]

pub data Grows (es : List Event) : List Event → Type 0 where
  same : Grows es es
  adds : {e : Event} {es' : List Event} → Grows es es' → is_quiet e ≡ true → Grows es (e ∷ es')

pub Grows-trans : {a b c : List Event} → Grows a b → Grows b c → Grows a c
Grows-trans g same = g
Grows-trans g (adds h q) = adds (Grows-trans g h) q

quiet-posted_hash : (e : Event) → is_quiet e ≡ true → posted_hash e ≡ none
quiet-posted_hash e q = ground arith

quiet-root_answer : (e : Event) → is_quiet e ≡ true → root_answer e ≡ none
quiet-root_answer e q = ground arith

pub Grows-last_posted : {a b : List Event} → Grows a b → last_posted b ≡ last_posted a
unfolding last_posted
Grows-last_posted same = refl
Grows-last_posted (adds {e} {es'} g q) =
    rw (quiet-posted_hash e q, last_posted) (Grows-last_posted g)

pub Grows-last_root : {a b : List Event} → Grows a b → last_root b ≡ last_root a
unfolding last_root
Grows-last_root same = refl
Grows-last_root (adds {e} {es'} g q) = rw (quiet-root_answer e q, last_root) (Grows-last_root g)

or_true : (b : Bool) → b || true ≡ true
or_true true = refl
or_true false = refl

pub Grows-since_post :
    {a b : List Event} (test : Event → Bool)
    → Grows a b
    → since_post test a ≡ true
    → since_post test b ≡ true
unfolding since_post
Grows-since_post test same h = h
Grows-since_post test (adds {e} {es'} g q) h =
    let older = Grows-since_post test g h in
    rw (quiet-posted_hash e q, older, since_post) (or_true (test e))

pub Grows-IsGone : {a b : List Event} (h : Felt) → Grows a b → IsGone h a → IsGone h b
unfolding IsGone
Grows-IsGone h g (f, n) = (Grows-since_post _ g f, Grows-since_post _ g n)

pub Grows-HeadReached : {a b : List Event} (t : ℕ) → Grows a b → HeadReached t a → HeadReached t b
Grows-HeadReached t same h = h
Grows-HeadReached t (adds g q) h = earlier (Grows-HeadReached t g h)

pub Grows-MayFollow : {a b : List Event} (h : Felt) → Grows a b → MayFollow h a → MayFollow h b
unfolding MayFollow
Grows-MayFollow h g may h' last = elim (may h' (sym (Grows-last_posted g) ∙ last)) [
  | inl e ↦ inl e
  | inr gone ↦ inr (Grows-IsGone h' g gone)
]

module _ (k : Crates) where
  quiet-GoodEvent : (e : Event) (es : List Event) → is_quiet e ≡ true → GoodEvent k e es
  unfolding GoodEvent
  quiet-GoodEvent (shown _) es q = tt
  quiet-GoodEvent (head_said _) es q = tt
  quiet-GoodEvent (root_said _ _) es q = tt
  quiet-GoodEvent (refused _) es q = tt
  quiet-GoodEvent (feeder_said _ _) es q = tt
  quiet-GoodEvent (node_said _ _) es q = tt
  quiet-GoodEvent (accepted _) es q = tt
  quiet-GoodEvent (posted _ _) es q = cc
  quiet-GoodEvent freed es q = cc

  pub Grows-GoodLog : {a b : List Event} → Grows a b → GoodLog k a → GoodLog k b
  unfolding GoodLog
  Grows-GoodLog same h = h
  Grows-GoodLog (adds {e} {es'} g q) h = (quiet-GoodEvent e es' q, Grows-GoodLog g h)
