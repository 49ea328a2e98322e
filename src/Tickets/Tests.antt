-- ===== src/Tickets/Tests.antt =====
-- A small wallet, tree and quota log for tools/zkmsg/core/src/tickets.rs, with the stand-ins of
-- `Serde.Digits` for the hash and the hex texts.
use mathlib.Core.List.Perm
use stwo_starknet_verifier.Common.{
  zero, suc, ℕ, ◌<◌, ◌≡◌, ◌≢◌, refl, none, some, List, [], ◌∷◌, ◌++◌, get_or, get_elem?, replicate,
  ok, err, arith,
}
use stwo_starknet_verifier.Felts.{Felt, Text, bytes, trim_0x, same_address}
use stwo_starknet_verifier.Serde.Digits.{crates, sum_mix}
use stwo_starknet_verifier.Serde.{be_value, le_value, any_nonzero}
use stwo_starknet_verifier.Common.Sort.{sort_by_key, insert_by_key}
use stwo_starknet_verifier.Crypto.{hash_pair, ticket_leaf, member_secret_felt}
use stwo_starknet_verifier.Merkle.{root, fold_path, new, insert, store_leaf}
use stwo_starknet_verifier.Merkle.Invariant.{Holds}
use stwo_starknet_verifier.Tickets.Tree.{
  TicketTree, from_bought, tree_path, by_index, rebuild, index_from,
}
use stwo_starknet_verifier.Tickets.Tree.Rebuild.{
  enumerate, from_bought-perm, from_bought-ok, tree_path-folds,
}
use stwo_starknet_verifier.Tickets.{
  Ticket, TicketCounts, Wallet, count_state, purchases_pending, leaf, secret_felt, settle_ticket,
  settle_tickets, pick_from, pending, unspent, spent, counts, settle, pick, is_usable,
}
use stwo_starknet_verifier.Tickets.Settle.{SettledBy, settle-counts}
use stwo_starknet_verifier.Tickets.Pick.{AllReadable, IsSpendable, Refuses, pick-ok, pick-err}
use stwo_starknet_verifier.Tickets.Spend.{HasSpent, settles, start, then_step, spent_forever}
use stwo_starknet_verifier.Tickets.Quota.{QuotaLog, absent, stored, take_slot, current_log}
use stwo_starknet_verifier.Tickets.Quota.Slots.{none_yet, take_slot-rises, take_slot_forgets}

from_bought-perm_example :
    (t : TicketTree) × (from_bought crates ((1, 70) ∷ (0, 60) ∷ []) ≡ ok t)
    × (t.leaves ≡ 60 ∷ 70 ∷ [])
    × Holds (hash_pair crates) (60 ∷ 70 ∷ []) t.tree
from_bought-perm_example =
    from_bought-perm crates (60 ∷ 70 ∷ []) ((1, 70) ∷ (0, 60) ∷ []) (omega arith)
      (Perm.swap (0, 60) (1, 70) [])

-- The secret 5 as a wallet file has it, and a tree that holds its leaf alone.
abbrev secret_five : Text
secret_five = replicate 31 0 ++ 5 ∷ []

abbrev five : Felt
five = sum_mix (be_value (bytes "zkmsg-ticket-v4") ∷ 5 ∷ [])

abbrev small_tree : TicketTree
unfolding be_value le_value
small_tree = record {
  leaves = five ∷ [];
  tree = store_leaf (hash_pair crates) (new (hash_pair crates)) five;
}

small_tree-built : from_bought crates ((0, five) ∷ []) ≡ ok small_tree
unfolding from_bought rebuild insert sort_by_key insert_by_key be_value le_value new
small_tree-built = refl

from_bought-ok_example :
    (sort_by_key by_index ((0, five) ∷ []) ≡ enumerate 0 small_tree.leaves)
    × Holds (hash_pair crates) small_tree.leaves small_tree.tree
from_bought-ok_example = from_bought-ok crates ((0, five) ∷ []) small_tree small_tree-built

tree_path-folds_example :
    (siblings : List Felt) × (tree_path small_tree 0 ≡ ok siblings)
    × (fold_path (hash_pair crates) (get_or small_tree.leaves 0 0) 0 siblings
        ≡ some (root small_tree.tree))
unfolding be_value le_value
tree_path-folds_example =
    tree_path-folds crates ((0, five) ∷ []) small_tree 0 small_tree-built (omega arith)
      (omega arith)

abbrev bought_wallet : Wallet
bought_wallet = record {
  store = bytes "0x5";
  tickets =
      record { secret = secret_five; index = none; buy_tx = none; state = pending }
      ∷ record { secret = secret_five; index = none; buy_tx = none; state = spent none }
      ∷ [];
}

abbrev settled_wallet : Wallet
settled_wallet = record bought_wallet {
  tickets =
      record { secret = secret_five; index = some 0; buy_tx = none; state = unspent }
      ∷ record { secret = secret_five; index = none; buy_tx = none; state = spent none }
      ∷ [];
}

settled : settle crates small_tree bought_wallet ≡ ok (settled_wallet, 1)
unfolding settle settle_tickets settle_ticket leaf secret_felt trim_0x member_secret_felt
    any_nonzero be_value le_value index_from ticket_leaf
settled = refl

settle-counts_example :
    SettledBy 1 (counts bought_wallet.tickets) (counts settled_wallet.tickets)
    × (settled_wallet.store ≡ bought_wallet.store)
    × (settle crates small_tree settled_wallet ≡ ok (settled_wallet, 0))
settle-counts_example = settle-counts crates small_tree bought_wallet settled_wallet 1 settled

picked : pick crates small_tree settled_wallet ≡ ok 0
unfolding pick pick_from is_usable leaf secret_felt trim_0x member_secret_felt any_nonzero be_value
    le_value ticket_leaf
picked = refl

pick-ok_example :
    (t : Ticket) × (get_elem? settled_wallet.tickets 0 ≡ some t) × IsSpendable crates small_tree t
pick-ok_example = pick-ok crates small_tree settled_wallet 0 picked

abbrev pending_counts : TicketCounts
pending_counts = record { n_unspent = 0; n_reserved = 0; n_spent = 1; n_pending = 1 }

not_picked : pick crates small_tree bought_wallet ≡ err (purchases_pending pending_counts)
unfolding pick pick_from is_usable counts count_state
not_picked = refl

same_state : {t u : Ticket} → some t ≡ some u → t.state ≡ u.state
same_state e = cc

none_to_read : AllReadable crates bought_wallet
none_to_read zero t index at free idx = absurd (let same = same_state at in cc)
none_to_read (suc zero) t index at free idx = absurd (let same = same_state at in cc)
none_to_read (suc (suc j)) t index at free idx = cc

pick-err_example :
    Refuses (counts bought_wallet.tickets) (purchases_pending pending_counts)
    × ((j : ℕ) (t : Ticket)
        → get_elem? bought_wallet.tickets j ≡ some t
        → IsSpendable crates small_tree t
        → ⊥)
pick-err_example =
    pick-err crates small_tree bought_wallet (purchases_pending pending_counts) none_to_read
      not_picked

spent_second : HasSpent 1 secret_five bought_wallet
spent_second = (
  record { secret = secret_five; index = none; buy_tx = none; state = spent none },
  refl,
  refl,
  refl,
)

spent_forever_example :
    HasSpent 1 secret_five settled_wallet × (pick crates small_tree settled_wallet ≢ ok 1)
spent_forever_example =
    spent_forever crates 1 secret_five small_tree spent_second
      (then_step start (settles small_tree 1 settled))

abbrev log_at : ℕ → QuotaLog
log_at n = record { store = 9 ∷ []; epoch = 7; used = n }

first_slot : take_slot crates absent (9 ∷ []) 7 2 ≡ ok (0, log_at 1)
unfolding take_slot current_log
first_slot = refl

second_slot : take_slot crates (stored (log_at 1)) (9 ∷ []) 7 2 ≡ ok (1, log_at 2)
unfolding take_slot current_log same_address
second_slot = refl

take_slot-rises_example : (0 < 2) × (0 < 1) × (1 < 2)
take_slot-rises_example =
    take_slot-rises crates 9 absent (stored (log_at 1)) (9 ∷ []) (9 ∷ []) 7 2 2 (0, log_at 1)
      (1, log_at 2) refl refl first_slot none_yet second_slot

take_slot_forgets_example :
    (one two three : QuotaLog) × (take_slot crates absent (8 ∷ []) 7 2 ≡ ok (0, one))
    × (take_slot crates (stored one) (9 ∷ []) 7 2 ≡ ok (0, two))
    × (take_slot crates (stored two) (8 ∷ []) 7 2 ≡ ok (0, three))
take_slot_forgets_example =
    take_slot_forgets crates (8 ∷ []) (9 ∷ []) 8 9 7 7 2 2 refl refl (omega arith) (omega arith)
      (omega arith)
