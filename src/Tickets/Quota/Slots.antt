-- ===== src/Tickets/Quota/Slots.antt =====
-- tools/zkmsg/core/src/tickets.rs, `take_slot`: the slots that the calls for a store give out.
use stwo_starknet_verifier.Common.{
  ℕ, ◌<◌, ◌≡◌, ◌≢◌, ◌⊎◌, inl, inr, refl, some, ok, arith, Result-cases,
}
use stwo_starknet_verifier.Felts.{Felt, Text, Crates, same_address}
use stwo_starknet_verifier.Tickets.Quota.{
  QuotaLog, QuotaFile, absent, unreadable, stored, current_log, take_slot, file_after,
}

module _ (k : Crates) (address : Felt) where
  -- The file's log is of the store at this address, and is past the slot of that epoch.
  abbrev pub IsPast : ℕ → ℕ → QuotaFile → Type 0
  IsPast epoch slot absent = ⊥
  IsPast epoch slot unreadable = ⊥
  IsPast epoch slot (stored log) =
      (k.from_hex log.store ≡ some address)
      × ((epoch < log.epoch) ⊎ ((log.epoch ≡ epoch) × (slot < log.used)))

  -- The file after any calls for the store, whatever their epochs and quotas, failed ones included.
  pub data Takes (file : QuotaFile) : QuotaFile → Type 0 where
    none_yet : Takes file file
    take_next :
        (mid : QuotaFile) (store : Text) (epoch quota : ℕ)
        → k.from_hex store ≡ some address
        → Takes file mid
        → Takes file (file_after mid (take_slot k mid store epoch quota))

  take_slot_keeps_IsPast :
      (log : QuotaLog) (store : Text) (epoch slot now quota : ℕ) (next : ℕ × QuotaLog)
      → k.from_hex store ≡ some address
      → IsPast epoch slot (stored log)
      → take_slot k (stored log) store now quota ≡ ok next
      → IsPast epoch slot (stored next.1) × (now ≡ epoch → slot < next.0)
  unfolding take_slot current_log same_address
  take_slot_keeps_IsPast log store epoch slot now quota next a h e = ground arith

  after-IsPast :
      (log : QuotaLog) (store : Text) (epoch slot now quota : ℕ)
      → k.from_hex store ≡ some address
      → IsPast epoch slot (stored log)
      → IsPast epoch slot (file_after (stored log) (take_slot k (stored log) store now quota))
  unfolding file_after
  after-IsPast log store epoch slot now quota a h =
      elim (Result-cases (take_slot k (stored log) store now quota)) [
        | inl (e, failed) ↦ rw (failed, file_after) h
        | inr (next, taken) ↦
            rw (taken, file_after)
              (take_slot_keeps_IsPast log store epoch slot now quota next a h taken).0
      ]

  Takes-IsPast :
      (epoch slot : ℕ) {file after : QuotaFile}
      → Takes file after
      → IsPast epoch slot file
      → IsPast epoch slot after
  Takes-IsPast epoch slot none_yet h = h
  Takes-IsPast epoch slot (take_next absent store now quota a r) h =
      absurd (Takes-IsPast epoch slot r h)
  Takes-IsPast epoch slot (take_next unreadable store now quota a r) h =
      absurd (Takes-IsPast epoch slot r h)
  Takes-IsPast epoch slot (take_next (stored log) store now quota a r) h =
      after-IsPast log store epoch slot now quota a (Takes-IsPast epoch slot r h)

  take_slot-IsPast :
      (file : QuotaFile) (store : Text) (epoch quota : ℕ) (first : ℕ × QuotaLog)
      → k.from_hex store ≡ some address
      → take_slot k file store epoch quota ≡ ok first
      → (first.0 < quota) × IsPast epoch first.0 (stored first.1)
  unfolding take_slot current_log same_address
  take_slot-IsPast absent store epoch quota first a e = ground arith
  take_slot-IsPast unreadable store epoch quota first a e = cc
  take_slot-IsPast (stored log) store epoch quota first a e = ground arith

  later-gt :
      (file : QuotaFile) (store : Text) (epoch slot quota : ℕ) (second : ℕ × QuotaLog)
      → k.from_hex store ≡ some address
      → IsPast epoch slot file
      → take_slot k file store epoch quota ≡ ok second
      → slot < second.0
  later-gt absent store epoch slot quota second a h e = absurd h
  later-gt unreadable store epoch slot quota second a h e = absurd h
  later-gt (stored log) store epoch slot quota second a h e =
      (take_slot_keeps_IsPast log store epoch slot epoch quota second a h e).1 refl

  -- While only one store is used: a slot is below its call's quota, and any later slot of the same
  -- epoch is larger, whatever calls lie between; so no slot is used twice.
  pub take_slot-rises :
      (file after : QuotaFile) (store store' : Text) (epoch quota quota' : ℕ)
      (first second : ℕ × QuotaLog)
      → k.from_hex store ≡ some address
      → k.from_hex store' ≡ some address
      → take_slot k file store epoch quota ≡ ok first
      → Takes (stored first.1) after
      → take_slot k after store' epoch quota' ≡ ok second
      → (first.0 < quota) × (first.0 < second.0) × (second.0 < quota')
  take_slot-rises file after store store' epoch quota quota' first second a a' e r e' =
      let (below, past) = take_slot-IsPast file store epoch quota first a e in
      (
        below,
        later-gt after store' epoch first.0 quota' second a' (Takes-IsPast epoch first.0 r past) e',
        (take_slot-IsPast after store' epoch quota' second a' e').0,
      )

module _ (k : Crates) where
  -- One call for another store in between forgets the slots: the same slot 0 of the same epoch of
  -- the first store is given out again.
  pub take_slot_forgets :
      (a b : Text) (x y epoch epoch' quota quota' : ℕ)
      → k.from_hex a ≡ some x
      → k.from_hex b ≡ some y
      → x ≢ y
      → 0 < quota
      → 0 < quota'
      → (one two three : QuotaLog) × (take_slot k absent a epoch quota ≡ ok (0, one))
        × (take_slot k (stored one) b epoch' quota' ≡ ok (0, two))
        × (take_slot k (stored two) a epoch quota ≡ ok (0, three))
  unfolding take_slot current_log same_address
  take_slot_forgets a b x y epoch epoch' quota quota' ha hb n p p' = (
    record { store = a; epoch = epoch; used = 1 },
    record { store = b; epoch = epoch'; used = 1 },
    record { store = a; epoch = epoch; used = 1 },
    ground arith,
    ground arith,
    ground arith,
  )
