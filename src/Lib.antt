-- ===== src/Lib.antt =====
-- zkmsg, the private messenger of tools/zkmsg: the logic of its core library, as functions that
-- compute and theorems about them. Paths are from the repository's root; the modelled code is the
-- Rust of tools/zkmsg/core/src.
--
-- How the parts fit: a member buys tickets (tickets.rs), whose leaves the pool contract puts in a
-- Poseidon Merkle tree of depth 20 (tree.rs) that every client rebuilds from the events. A send
-- picks an unspent ticket whose leaf is in the tree, seals and pads the message (crypto.rs), lays
-- it out as felts (chain.rs) and publishes it within the shared transaction policy (txpolicy.rs).
-- The wallet's files are closed by the app PIN (applock.rs).
--
-- Which file models which part:
--   Common, Felts    shared helpers; felts (as the numbers they stand for), texts (as UTF-8 bytes)
--                    and `Crates`, the record of the third-party functions
--   Merkle           tree.rs: `MerkleTree`, `insert`, `path`, `fold_path`. The map of nodes is a
--                    function, the loops over the levels are recursions on the rounds left, and
--                    a panicking assertion is `none`
--   Serde            chain.rs and crypto.rs: byte arrays as felts (`bytearray_felts`,
--                    `bytearray_calldata`, `bytearray_decode`)
--   Crypto           crypto.rs: the Poseidon commitments, and the padding of version 4
--   Tickets          tickets.rs: the wallet (`mint`, `settle`, `pick`, `mark_spent`, `release`),
--                    Tickets.Tree the `TicketTree`, Tickets.Quota the `QuotaLog`
--   TxPolicy         txpolicy.rs: gas bounds, the fee cap and the publish schedule
--   Device           what applock.rs, vault.rs and wipe.rs share: the Keychain's items, the keys
--                    that the process holds, directories and accounts, and `Act`, operations on them;
--                    each call of the Keychain may be refused by itself
--   Folders          wipe.rs: `all_profile_dirs` and `owned_entries`, on directories that may not be
--                    readable
--   Vault            vault.rs: the profile keys (`key_get`, `key_put`, `rewrap`, `shred_all`)
--   Sends            state.rs: `SendState`, the checkpoint of a send
--   Gateway          sequencer.rs: what a rejection says, and the publishing transaction; Gateway.Wire
--                    `submit`, `status` and `await_acceptance`, with the servers as a parameter
--   VirtualSend      virtual_send.rs: the encodings; VirtualSend.World what a send reads and changes,
--                    VirtualSend.Finish and VirtualSend.Publish `publish` and `resume`,
--                    VirtualSend.Witness and VirtualSend.Prepare `prepare`, VirtualSend.Send `send`
--   Wipe             wipe.rs: `panic_wipe`, and Wipe.Moves `classify_tickets` and `move_tickets`
--   AppLock          applock.rs: the PIN and its attempts (`unlock`, `set_pin`, `change_pin`) and
--                    `panic_wipe_with_pin` of wipe.rs
--   Invoke           invoke_v3.rs: `execute_calldata` and the hash of a transaction
--   Registry         registry.rs: the registrations from their events, and the lookup by handle
-- The child modules are named for what they prove, or Tests where they have concrete runs.
--
-- Numbers are unbounded naturals; where the code's width matters it is written out: u32 leaf
-- indices through the assertion on 2 ^ 20, u64 lengths through `felt_to_u64`, saturating u128
-- arithmetic through its bound, and an arithmetic panic as an error. Recursion is structural;
-- the loops of txpolicy.rs have fuel, which a lemma shows to be enough.
-- A file is its content or the value that it was parsed to, and a store of the program is passed on
-- explicitly. `anyhow::Result` is `Result` with the messages as constructors.
--
-- Poseidon, the conversions of felts, hex, Argon2 and AES-GCM are parameters. What a theorem needs
-- of them is a hypothesis (`IsBytesApi`), and the tests give functions that satisfy it.
--
-- A send talks to servers that answer what they like: a reply is a function of the number of the
-- request. A write to a file may fail, each by itself. The log of a send's world is no part of the
-- program; it keeps what was asked and answered, so that theorems can speak of the order. The
-- polling of a transaction has fuel from its timeout, and the wait for the schedule an argument;
-- theorems show both to be enough. `prepare` takes the events of the store, the keys as felts and the
-- sealed message as parameters; `send` the proof that the prover's process returned, and the jitter.
--
-- Not modelled: the network (chain.rs, net.rs), processes and the file system itself, the
-- contracts in Cairo, the graphical interface, the command line, and the prover.
pub mod AppLock
pub mod Common
pub mod Crypto
pub mod Device
pub mod Felts
pub mod Folders
pub mod Gateway
pub mod Invoke
pub mod Merkle
pub mod Registry
pub mod Sends
pub mod Serde
pub mod Tickets
pub mod TxPolicy
pub mod Vault
pub mod VirtualSend
pub mod Wipe
