-- ===== src/Chain.antt =====
-- packages/kolme/src/core/kolme.rs and kolme/block_info.rs: the block that a node is at, and how it
-- adds the next one; `Block` of packages/kolme/src/core/types.rs. A hash is a number.
pub mod Saving
pub mod Adding
pub mod Linked
pub mod Latest
use kolme.Prelude.{
  ℕ, Bool, true, false, Option, none, some, List, [], ◌∷◌, ◌&&◌, Result, ok, err, Action, lift,
  ensure, ◌>>=◌, ◌>>◌, ◌==◌, ltb, leb, not, if◌then◌else◌, next,
}
use kolme.Types.{Error}
use kolme.Types.Decimal.{DecimalOps}
use kolme.Types.Signed.{SignedTaggedJson, verify_signature}
use kolme.State.{FrameworkState}
use kolme.Context.{
  BlockDataLoad, DataLoadValidation, Host, LogEvent, prior_data, validate_data_loads,
}
use kolme.Execute.{SignedTransaction, KolmeRead, ExecutionResults, execute_transaction}

pub record Block (D M : Type 0) : Type 0 where
  pub tx : SignedTransaction D M
  pub timestamp : ℕ
  pub processor : ℕ
  pub height : ℕ
  pub parent : ℕ
  -- the hashes of the states and of the logs after the execution
  pub framework_state : ℕ
  pub app_state : ℕ
  pub logs : ℕ
  pub loads : List BlockDataLoad

abbrev pub SignedBlock : Type 0 → Type 0 → Type 0
SignedBlock D M = SignedTaggedJson (Block D M)

pub record BlockState (D S : Type 0) : Type 0 where
  pub blockhash : ℕ
  pub framework_state : FrameworkState D
  pub app_state : S

pub data MaybeBlockInfo (D S M : Type 0) : Type 0 where
  before_genesis : BlockState D S → MaybeBlockInfo D S M
  at_block : SignedBlock D M → BlockState D S → MaybeBlockInfo D S M

pub data ChainError (D : Type 0) : Type 0 where
  -- height, next expected height
  unexpected_height : ℕ → ℕ → ChainError D
  wrong_parent wrong_processor : ℕ → ℕ → ChainError D
  -- max height, proposed height
  past_max_height : ℕ → ℕ → ChainError D
  invalid_block_signature : ChainError D
  execution_failed : Error D → ChainError D
  results_differ : ChainError D
  store_failed : ℕ → ChainError D

-- What a node calls of its store and its mempool: `KolmeStore::save` for the states and the logs,
-- which gives their hash, `KolmeStore::add_block`, the archive, and `Mempool::add_signed_block`; `T`
-- is the state of both. `message_hash` hashes the text of a block.
pub record Storing (D S M T : Type 0) : Type 0 where
  pub message_hash : ℕ → ℕ
  pub save_framework_state : FrameworkState D → Action T (ChainError D) ℕ
  pub save_app_state : S → Action T (ChainError D) ℕ
  pub save_logs : List (List LogEvent) → Action T (ChainError D) ℕ
  pub add_block : SignedBlock D M → Action T (ChainError D) (Unit {0})
  pub add_signed_block : SignedBlock D M → T → T
  pub get_next_to_archive : Action T (ChainError D) ℕ
  -- a failure is only logged
  pub archive_block : ℕ → T → T

pub record Kolme (D S M T : Type 0) : Type 0 where
  pub current_block : MaybeBlockInfo D S M
  pub code_version : ℕ
  pub stores : T

module _ {D S M : Type 0} where
  abbrev get_state : MaybeBlockInfo D S M → BlockState D S
  get_state (before_genesis state) = state
  get_state (at_block block state) = state

  abbrev pub get_next_height : MaybeBlockInfo D S M → ℕ
  get_next_height (before_genesis state) = 0
  get_next_height (at_block block state) = next block.message.value.height

  abbrev pub get_block_hash : MaybeBlockInfo D S M → ℕ
  get_block_hash info = (get_state info).blockhash

-- `SignedBlock::validate_signature`
unfoldable is_signed : {D M : Type 0} → (ℕ → ℕ → Option ℕ) → SignedBlock D M → Bool
is_signed recover signed = elim (verify_signature recover signed) [
  | none ↦ false
  | some pubkey ↦ pubkey == signed.message.value.processor
]

-- The derived `PartialEq` of the loads.
abbrev loads_eq : List BlockDataLoad → List BlockDataLoad → Bool
loads_eq [] [] = true
loads_eq (x ∷ xs) (y ∷ ys) = x.request == y.request && x.response == y.response && loads_eq xs ys
loads_eq _ _ = false

-- The maximal height of a transaction, if it has one.
unfoldable check_max_height : {D : Type 0} → Option ℕ → ℕ → Result (ChainError D) (Unit {0})
check_max_height none height = ok tt
check_max_height (some max_height) height =
    if ltb max_height height then err (past_max_height max_height height) else ok tt

module _ {D S M T : Type 0} (storing : Storing D S M T) where
  -- A call of the stores.
  abbrev on_stores :
      {A : Type 0} → Action T (ChainError D) A → Action (Kolme D S M T) (ChainError D) A
  on_stores call self = let (r, stores) = call self.stores in (r, record self { stores = stores })

  -- The block becomes the current one, and the archive follows if it is due.
  unfoldable set_current :
      SignedBlock D M → ExecutionResults D S → Action (Kolme D S M T) (ChainError D) (Unit {0})
  set_current signed results self =
      let moved : Kolme D S M T = record self {
        current_block = at_block signed (record {
          blockhash = storing.message_hash signed.message.serialized;
          framework_state = results.framework_state;
          app_state = results.app_state;
        });
      } in
      let height = signed.message.value.height in
      (on_stores storing.get_next_to_archive >>= λ due s. (
        ok tt,
        if due == height then record s { stores = storing.archive_block height s.stores } else s,
      ))
        moved

  -- The part of `add_executed_block` on the stores: each hash has to be the one of the block.
  unfoldable save_results :
      SignedBlock D M → ExecutionResults D S → Action T (ChainError D) (Unit {0})
  save_results signed results = do
    framework_state_hash ← storing.save_framework_state results.framework_state
    ensure (framework_state_hash == signed.message.value.framework_state) results_differ
    app_state_hash ← storing.save_app_state results.app_state
    ensure (app_state_hash == signed.message.value.app_state) results_differ
    logs_hash ← storing.save_logs results.logs
    ensure (logs_hash == signed.message.value.logs) results_differ
    storing.add_block signed
    λ t. (ok tt, storing.add_signed_block signed t)

  -- `add_executed_block`; another task may have added the block before the lock is taken.
  unfoldable add_executed_block :
      SignedBlock D M → ExecutionResults D S → Action (Kolme D S M T) (ChainError D) (Unit {0})
  unfolding set_current save_results
  add_executed_block signed results = on_stores (save_results signed results) >>= λ _ self.
      if ltb signed.message.value.height (get_next_height self.current_block)
      then (ok tt, self)
      else set_current signed results self

module _ {D S M T : Type 0} ⦃ops : DecimalOps D⦄ (host : Host D S M) where
  abbrev read_of : Kolme D S M T → KolmeRead D S
  read_of self = record {
    framework_state = (get_state self.current_block).framework_state;
    app_state = (get_state self.current_block).app_state;
    next_height = get_next_height self.current_block;
    code_version = self.code_version;
  }

  -- The tests of `add_block_with`, and the execution.
  unfoldable check_block :
      SignedBlock D M
      → DataLoadValidation
      → Kolme D S M T
      → Result (ChainError D) (ExecutionResults D S)
  unfolding is_signed check_max_height execute_transaction
  check_block signed validation self =
      let block = signed.message.value in
      let current = self.current_block in
      let expected = (get_state current).framework_state.validator_set.processor in
      if not (get_next_height current == block.height)
      then err (unexpected_height block.height (get_next_height current))
      else if not (get_block_hash current == block.parent)
      then err (wrong_parent (get_block_hash current) block.parent)
      else if not (expected == block.processor)
      then err (wrong_processor block.processor expected)
      else elim (check_max_height block.tx.message.value.max_height block.height) [
        | err e ↦ err e
        | ok _ ↦
            if is_signed host.recover signed
            then elim (execute_transaction host (read_of self) block.tx block.timestamp
                (prior_data block.loads validation)) [
                  | err e ↦ err (execution_failed e)
                  | ok results ↦
                      if results.height == block.height && loads_eq results.loads block.loads
                      then ok results
                      else err results_differ
                ]
            else err invalid_block_signature
      ]

  unfoldable pub add_block_with :
      Storing D S M T
      → SignedBlock D M
      → DataLoadValidation
      → Action (Kolme D S M T) (ChainError D) (Unit {0})
  unfolding check_block add_executed_block
  add_block_with storing signed validation self = elim (check_block signed validation self) [
    | err e ↦ (err e, self)
    | ok results ↦ add_executed_block storing signed results self
  ]
