-- ===== src/Context.antt =====
-- packages/kolme/src/core/execute.rs: `ExecutionContext`, the state that the messages of one
-- transaction change, and the actions on its parts. `Host` is what the code does not implement.
pub mod Payload
pub mod Actions
pub mod Bank
pub mod Events
pub mod Ready
pub mod Approvals
pub mod Admin
pub mod Message
pub mod Ensures
pub mod Validity
pub mod Transfers
pub mod Rounds
pub mod Finality
pub mod Settled
use kolme.Prelude.{ℕ, Bool, Option, none, some, List, [], ◌∷◌, ◌++◌, Result, ok, err, Action}
use kolme.BTreeMap.{BTreeMap, get, insert}
use kolme.Types.{Error, panic, chain_not_supported}
use kolme.Types.Chain.{ExternalChain, to_merkle_key}
use kolme.Types.Signed.{TaggedJson, SignedTaggedJson}
use kolme.Types.Bridge.{ChainState, ChainConfig}
use kolme.Accounts.{Accounts}
use kolme.Validators.{ValidatorSet, SelfReplace}
use kolme.Proposals.{MigrateContract}
use kolme.State.{FrameworkState, GenesisInfo}

-- What a transaction logs: the events of the framework, or a text of the application.
pub data LogEvent : Type 0 where
  -- bridge event id and account
  processed_bridge_event : ℕ → ℕ → LogEvent
  new_admin_proposal admin_proposal_approved : ℕ → LogEvent
  new_bridge_action : ExternalChain → ℕ → LogEvent
  text : ℕ → LogEvent

pub record BlockDataLoad : Type 0 where
  pub request : ℕ
  pub response : ℕ

pub data DataLoadValidation : Type 0 where
  validate_data_loads trust_data_loads : DataLoadValidation

pub data BlockDataHandling : Type 0 where
  no_prior_data : BlockDataHandling
  prior_data : List BlockDataLoad → DataLoadValidation → BlockDataHandling

-- `App::State` is `S`.
pub record ExecutionContext (D S : Type 0) : Type 0 where
  pub framework_state : FrameworkState D
  pub app_state : S
  -- one list for each message so far
  pub logs : List (List LogEvent)
  pub loads : List BlockDataLoad
  pub block_data_handling : BlockDataHandling
  pub pubkey : ℕ
  pub sender : ℕ
  pub signing_key : ℕ
  pub timestamp : ℕ
  pub height : ℕ

-- asset and amount
pub record AssetAmount : Type 0 where
  pub id : ℕ
  pub amount : ℕ

pub data ExecAction : Type 0 where
  -- chain, recipient, funds
  transfer : ExternalChain → ℕ → List AssetAmount → ExecAction
  self_replace : SignedTaggedJson SelfReplace → ExecAction
  new_set : TaggedJson ValidatorSet → List ℕ → ExecAction
  migrate_contract : TaggedJson MigrateContract → ExecAction

-- The application and the third-party code, for messages `M` of the application.
pub record Host (D S M : Type 0) : Type 0 where
  -- `PublicKey::recover_from_msg`: message and signature to the key that signed
  pub recover : ℕ → ℕ → Option ℕ
  -- the base64 decoding of a payload
  pub decode_base64 : ℕ → Option ℕ
  -- the serialization of an action for a chain (JSON, borsh or ABI), addresses and denominations
  -- parsed; `None` where that fails
  pub render : ExecAction → ExternalChain → ChainConfig → ℕ → Option ℕ
  pub genesis_info : GenesisInfo
  -- the derived `PartialEq` of `GenesisInfo`
  pub genesis_eq : GenesisInfo → GenesisInfo → Bool
  -- `App::execute`
  pub execute : M → Action (ExecutionContext D S) (Error D) (Unit {0})

-- `self.logs.last_mut().unwrap().push(..)`
unfoldable push_last : LogEvent → List (List LogEvent) → Option (List (List LogEvent))
push_last event [] = none
push_last event (log ∷ []) = some ((log ++ event ∷ []) ∷ [])
push_last event (log ∷ next ∷ logs) = elim (push_last event (next ∷ logs)) [
  | none ↦ none
  | some logs' ↦ some (log ∷ logs')
]

module _ {D S : Type 0} where
  abbrev with_framework : FrameworkState D → ExecutionContext D S → ExecutionContext D S
  with_framework state ctx = record ctx { framework_state = state }

  abbrev with_accounts : Accounts D → ExecutionContext D S → ExecutionContext D S
  with_accounts accounts ctx =
      with_framework (record ctx.framework_state { accounts = accounts }) ctx

  -- `chains.get_mut(chain)` and a write through it.
  abbrev with_chain : ExternalChain → ChainState D → ExecutionContext D S → ExecutionContext D S
  with_chain chain state ctx =
      with_framework
        (record ctx.framework_state {
          chains = insert (to_merkle_key chain) (chain, state) ctx.framework_state.chains;
        })
        ctx

  -- A method of `Accounts` on the accounts of the context.
  abbrev on_accounts :
      {A : Type 0} → Action (Accounts D) (Error D) A → Action (ExecutionContext D S) (Error D) A
  on_accounts m ctx =
      let (r, accounts) = m ctx.framework_state.accounts in (r, with_accounts accounts ctx)

  -- A method of `ChainState` on the state of a chain; `get_mut(chain)?` fails without one.
  abbrev on_chain :
      {A : Type 0}
      → ExternalChain
      → Action (ChainState D) (Error D) A
      → Action (ExecutionContext D S) (Error D) A
  on_chain chain m ctx = elim (get (to_merkle_key chain) ctx.framework_state.chains) [
    | none ↦ (err (chain_not_supported chain), ctx)
    | some entry ↦ let (r, state) = m entry.1 in (r, with_chain chain state ctx)
  ]

  unfoldable log_event : LogEvent → Action (ExecutionContext D S) (Error D) (Unit {0})
  unfolding push_last
  log_event event ctx = elim (push_last event ctx.logs) [
    | none ↦ (err panic, ctx)
    | some logs ↦ (ok tt, record ctx { logs = logs })
  ]
