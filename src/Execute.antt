-- ===== src/Execute.antt =====
-- packages/kolme/src/core/execute.rs: `validate_tx` and `execute_transaction`; `Transaction` of
-- packages/kolme/src/core/types.rs. A transaction runs on a copy of the state, which is dropped
-- when it fails.
pub mod Validity
pub mod Authority
use kolme.Prelude.{
  ℕ, Bool, true, false, Option, none, some, List, [], ◌∷◌, ◌++◌, Result, ok, err, Action, ◌==◌,
  if◌then◌else◌,
}
use kolme.Types.{
  Error, version_mismatch, invalid_signature, signer_mismatch, not_genesis, unexpected_genesis,
  wrong_genesis_signer, data_loads_left,
}
use kolme.Types.Decimal.{DecimalOps}
use kolme.Types.Signed.{SignedTaggedJson, verify_signature}
use kolme.Accounts.Keys.{use_nonce}
use kolme.State.{FrameworkState}
use kolme.Context.{
  BlockDataHandling, BlockDataLoad, ExecutionContext, Host, LogEvent, no_prior_data, prior_data,
}
use kolme.Context.Message.{Message, genesis, execute_message}

pub record Transaction (D M : Type 0) : Type 0 where
  pub pubkey : ℕ
  pub nonce : ℕ
  pub created : ℕ
  pub messages : List (Message D M)
  pub max_height : Option ℕ

abbrev pub SignedTransaction : Type 0 → Type 0 → Type 0
SignedTransaction D M = SignedTaggedJson (Transaction D M)

-- What `KolmeRead` gives a transaction: the current state and the next height.
pub record KolmeRead (D S : Type 0) : Type 0 where
  pub framework_state : FrameworkState D
  pub app_state : S
  pub next_height : ℕ
  pub code_version : ℕ

pub record ExecutionResults (D S : Type 0) : Type 0 where
  pub framework_state : FrameworkState D
  pub app_state : S
  pub logs : List (List LogEvent)
  pub loads : List BlockDataLoad
  pub height : ℕ

module _ {D M : Type 0} where
  abbrev is_genesis : Message D M → Bool
  is_genesis (genesis _) = true
  is_genesis _ = false

  unfoldable ensure_is_genesis : Transaction D M → Result (Error D) (Unit {0})
  ensure_is_genesis tx = elim tx.messages [
    | [] ↦ err not_genesis
    | message ∷ rest ↦ elim rest [
      | [] ↦ if is_genesis message then ok tt else err not_genesis
      | _ ∷ _ ↦ err not_genesis
    ]
  ]

  -- The loop of `ensure_no_genesis`.
  unfoldable no_genesis_in : List (Message D M) → Result (Error D) (Unit {0})
  no_genesis_in [] = ok tt
  no_genesis_in (message ∷ messages) =
      if is_genesis message then err unexpected_genesis else no_genesis_in messages

module _ {D S M : Type 0} (host : Host D S M) where
  unfoldable validate_tx : KolmeRead D S → SignedTransaction D M → Result (Error D) (Unit {0})
  unfolding ensure_is_genesis no_genesis_in
  validate_tx read signed =
      let tx = signed.message.value in
      elim (verify_signature host.recover signed) [
        | none ↦ err invalid_signature
        | some pubkey ↦
            if pubkey == tx.pubkey
            then if read.next_height == 0
              then elim (ensure_is_genesis tx) [
                | err e ↦ err e
                | ok _ ↦
                    if tx.pubkey == read.framework_state.validator_set.processor
                    then ok tt
                    else err wrong_genesis_signer
              ]
              else no_genesis_in tx.messages
            else err signer_mismatch
      ]

-- Every prior data load has to be used.
abbrev loads_used : BlockDataHandling → Bool
loads_used no_prior_data = true
loads_used (prior_data [] validation) = true
loads_used (prior_data (load ∷ loads) validation) = false

module _ {D S M : Type 0} where
  -- The context in which the messages run, once the nonce is used.
  abbrev start_context :
      KolmeRead D S
      → Transaction D M
      → ℕ
      → BlockDataHandling
      → FrameworkState D
      → ℕ
      → ExecutionContext D S
  start_context read tx timestamp handling state sender = record {
    framework_state = state;
    app_state = read.app_state;
    logs = [];
    loads = [];
    block_data_handling = handling;
    pubkey = tx.pubkey;
    sender = sender;
    signing_key = tx.pubkey;
    timestamp = timestamp;
    height = read.next_height;
  }

module _ {D S M : Type 0} ⦃ops : DecimalOps D⦄ (host : Host D S M) where
  -- `for message in &tx.messages { logs.push(vec![]); execute_message(..)?; }`
  unfoldable execute_messages :
      List (Message D M) → Action (ExecutionContext D S) (Error D) (Unit {0})
  unfolding execute_message
  execute_messages [] ctx = (ok tt, ctx)
  execute_messages (message ∷ messages) ctx =
      let (r, ctx') = execute_message host message (record ctx { logs = ctx.logs ++ [] ∷ [] }) in
      let rest = execute_messages messages ctx' in elim r [ err e ↦ (err e, ctx') | ok _ ↦ rest ]

  unfoldable pub execute_transaction :
      KolmeRead D S
      → SignedTransaction D M
      → ℕ
      → BlockDataHandling
      → Result (Error D) (ExecutionResults D S)
  unfolding validate_tx use_nonce execute_messages
  execute_transaction read signed timestamp handling =
      let tx = signed.message.value in
      let state = read.framework_state in
      if state.version == read.code_version
      then elim (validate_tx host read signed) [
        | err e ↦ err e
        | ok _ ↦
            let (used, accounts) = use_nonce tx.pubkey tx.nonce state.accounts in
            elim used [
              | err e ↦ err e
              | ok sender ↦
                  let (r, ctx) = execute_messages tx.messages (
                    start_context read tx timestamp handling (record state { accounts = accounts })
                      sender) in
                  elim r [
                    | err e ↦ err e
                    | ok _ ↦
                        if loads_used ctx.block_data_handling
                        then ok (record {
                          framework_state = ctx.framework_state;
                          app_state = ctx.app_state;
                          logs = ctx.logs;
                          loads = ctx.loads;
                          height = ctx.height;
                        })
                        else err data_loads_left
                  ]
            ]
      ]
      else err (version_mismatch read.code_version state.version)
