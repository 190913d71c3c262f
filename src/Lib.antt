-- ===== src/Lib.antt =====
-- Kolme: the rules by which a chain of packages/kolme executes a transaction, the blocks that a node
-- adds, the tree of packages/merkle-map in which it keeps its state, and the contract at the other end
-- of a bridge.
--
-- A transaction carries messages. `execute_transaction` (packages/kolme/src/core/execute.rs) checks
-- its signature and version, uses the nonce of its key, and runs the messages one after the other on
-- a copy of the framework state, which is the validator set, the state of each bridge, the accounts
-- and the pending proposals of the administrators. A message moves assets between accounts, changes
-- the keys of an account, reports or approves what happens at a bridge, or changes the validators.
--
-- - Prelude: Boolean tests, results, state passing with errors (`Action`), integers, machine words.
-- - BTreeMap: the maps and sets of the source as sorted association lists. Keys that the source
--   only compares (public keys, wallets, texts) are numbers in the order of the source.
-- - Types: packages/kolme/src/core/types.rs and common.rs: chains, asset configurations, the state
--   of a bridge, signed JSON, errors. `Types.Decimal` is the interface of the `rust_decimal` crate,
--   a parameter; `IsDecimal` is what the proofs suppose of it (comparison is by value; a sum or
--   difference that the 96 bits of a mantissa can hold is exact, any other is rounded and keeps its
--   sign, or overflows), and Tests/Decimals fills it.
-- - Accounts: packages/kolme/src/core/types/accounts.rs.
-- - Validators: `ValidatorSet` of packages/shared/src/types.rs, and `set_helper` of execute.rs.
-- - Proposals, State: packages/kolme/src/core/state.rs.
-- - Context: the handlers of execute.rs on `ExecutionContext`; `Context.Payload` is
--   `ExecAction::to_payload` of types.rs. `Host` has what the code does not implement: the
--   recovery of a key from a signature, serialization, and the application.
-- - Execute: `validate_tx` and `execute_transaction`.
-- - MerkleMap: the base16 tree of packages/merkle-map/src/impls and types/key_bytes.rs: a leaf of at
--   most 16 entries or a tree of 16 branches by the next nibble of the key. `Map` has the methods of
--   `MerkleMap`; `Insert` and `Remove` have `insert` and `remove` of `LeafContents`, `TreeContents` and
--   `Node`. `ToMerkleKey` is the trait of that name.
-- - MerkleBytes: `MerkleSerializer` and `MerkleDeserializer` of packages/merkle-map/src.
-- - CosmosBridge: the contract of contracts/cosmos/src/lib.rs. `Signed` has the handler of that name:
--   `expected_signers` is its first match, with the arm of `SelfReplace` in `expect_replacement` and the
--   loop of `NewSet` in `tally`; `check_payload` its two tests of signatures, `finish` the rest. `Api`
--   has what the contract calls: SHA-256, the recovery of keys, the JSON parsers, versions.
-- - Chain: packages/kolme/src/core/kolme.rs and kolme/block_info.rs. `add_block_with` has its tests in
--   `check_block`; `save_results` and `set_current` are the parts of `add_executed_block` before and
--   under the lock. `Storing` is the interface to the stores and the mempool. `Latest` has the latest
--   block that is announced.
-- - Mempool: packages/kolme/src/core/kolme/mempool.rs; `LruCache` is the interface of the `lru` crate
--   and `IsCache` what is supposed of it, which Tests/Pool fills.
-- - Tests: runs, and the theorems applied to concrete states.
--
-- A method on `&mut self` is an `Action`: what it wrote before it failed is kept, as in the
-- source; `execute_transaction` drops the state of a failed transaction. `unwrap`, `assert!` and
-- an overflow of a decimal are the error `panic`. Ids and nonces are `u64` and wrap around as in a
-- release build; the counters of `fulfills_groups` and the depth in the tree are `u16` and wrap
-- around, too. The loop of `process_ready_events` runs on fuel: each round removes a pending
-- event, so their number is enough. Insertion into the tree runs on fuel, one unit for each nibble
-- of a key and one more, which is enough since a key ends there, if it has fewer than 2^16
-- nibbles; `load_usize` on one unit for each byte of the payload and one more, since a round takes
-- a byte.
--
-- Not modelled: `load_data` and the application, which are asynchronous; the hashes, the cached
-- contents, the iterators and the format of the tree of packages/merkle-map; the stores, gossip and the
-- loops of the processor, the listeners, the approvers and the submitter; the API server, and the
-- bridge contracts on Solana and Ethereum.
pub mod Prelude
pub mod BTreeMap
pub mod Types
pub mod Accounts
pub mod Validators
pub mod Proposals
pub mod State
pub mod Context
pub mod Execute
mod Tests
pub mod MerkleMap
pub mod MerkleBytes
pub mod CosmosBridge
pub mod Chain
pub mod Mempool
