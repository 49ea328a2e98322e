-- ===== src/Tickets/Quota.antt =====
-- tools/zkmsg/core/src/tickets.rs, `QuotaLog`: the slots that a profile took in an epoch.
pub mod Slots
use stwo_starknet_verifier.Common.{
  ℕ, ◌+◌, Bool, true, false, ◌&&◌, ltb, ◌==◌, if◌then◌else◌, Result, ok, err, ◌>>=◌, ◌>>◌, ensure,
}
use stwo_starknet_verifier.Felts.{Text, Crates, same_address}

pub record QuotaLog : Type 0 where
  pub store : Text
  pub epoch : ℕ
  -- slots taken this epoch: the next free one is `used`
  pub used : ℕ

-- `quota.json` as a load finds it.
pub data QuotaFile : Type 0 where
  absent : QuotaFile
  unreadable : QuotaFile
  stored : QuotaLog → QuotaFile

pub data Error : Type 0 where
  -- "reading quota.json"
  bad_file : Error
  -- "quota.json is at epoch …, ahead of this send's"
  epoch_passed : Error
  -- "all sends of epoch … are used"
  quota_used : Error

module _ (k : Crates) where
  -- The log that `take_slot` starts from: the stored one in its own epoch, an empty one in a later
  -- epoch or for another store, and none in an earlier epoch.
  unfoldable pub current_log : QuotaFile → Text → ℕ → Result Error QuotaLog
  current_log absent store epoch = ok (record { store = store; epoch = epoch; used = 0 })
  current_log unreadable store epoch = err bad_file
  current_log (stored log) store epoch =
      if same_address k log.store store && (log.epoch == epoch)
      then ok log
      else (if same_address k log.store store && ltb epoch log.epoch
          then err epoch_passed
          else ok (record { store = store; epoch = epoch; used = 0 }))

  -- `QuotaLog::take_slot`: the slot, and the log that was written before it is returned.
  unfoldable pub take_slot : QuotaFile → Text → ℕ → ℕ → Result Error (ℕ × QuotaLog)
  take_slot file store epoch quota = do
    log ← current_log file store epoch
    ensure (ltb log.used quota) quota_used
    ok (log.used, record log { used = log.used + 1 })

-- The file after a call: a failed one does not write.
unfoldable pub file_after : QuotaFile → Result Error (ℕ × QuotaLog) → QuotaFile
file_after file (ok (slot, log)) = stored log
file_after file (err e) = file
