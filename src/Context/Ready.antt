-- ===== src/Context/Ready.antt =====
-- packages/kolme/src/core/execute.rs: the loop of `process_ready_events`, and `listener`. The loop
-- takes one pending event away in each round, so their number is enough fuel.
use kolme.Prelude.{
  ℕ, zero, suc, none, some, List, [], ◌∷◌, ok, err, Action, ensure, ◌>>=◌, ◌>>◌, length,
}
use kolme.BTreeMap.{get, contains_key}
use kolme.Types.{Error, not_a_listener}
use kolme.Types.Chain.{ExternalChain, to_merkle_key}
use kolme.Types.Decimal.{DecimalOps}
use kolme.Types.Asset.{to_decimal}
use kolme.Types.Bridge
use kolme.Types.Bridge.{BridgeEvent, BridgedAssetAmount, instantiated, regular, signed}
use kolme.Accounts.{mint}
use kolme.Accounts.Keys.{add_pubkey_to_account_ignore_overlap, get_or_add_account_for_wallet}
use kolme.State.{get_chain}
use kolme.Context.{ExecutionContext, on_accounts, on_chain, log_event, processed_bridge_event}
use kolme.Context.Events.{get_next_ready_event, set_contract, confirm_action, take_event, attest}

module _ {D S : Type 0} where
  -- `for key in keys { .. }`
  unfoldable pub add_keys : ℕ → List ℕ → Action (ExecutionContext D S) (Error D) (Unit {0})
  add_keys id [] ctx = (ok tt, ctx)
  add_keys id (key ∷ keys) ctx =
      let (r, ctx') = on_accounts (add_pubkey_to_account_ignore_overlap id key) ctx in
      let rest = add_keys id keys ctx' in elim r [ err e ↦ (err e, ctx') | ok _ ↦ rest ]

module _ {D S : Type 0} ⦃ops : DecimalOps D⦄ where
  -- The body of `for BridgedAssetAmount { denom, amount } in funds`: an unknown asset is skipped.
  unfoldable pub credit_fund :
      ExternalChain → ℕ → BridgedAssetAmount → Action (ExecutionContext D S) (Error D) (Unit {0})
  unfolding get_chain to_decimal
  credit_fund chain id fund ctx = elim (get_chain chain ctx.framework_state.chains) [
    | err e ↦ (err e, ctx)
    | ok state ↦ elim (get fund.denom state.config.assets) [
      | none ↦ (ok tt, ctx)
      | some config ↦ elim (to_decimal config fund.amount) [
        | err e ↦ (err e, ctx)
        | ok amount ↦
            (on_accounts (mint id config.asset_id amount)
                >> on_chain chain (Bridge.deposit config.asset_id amount))
              ctx
      ]
    ]
  ]

  unfoldable pub credit_funds :
      ExternalChain
      → ℕ
      → List BridgedAssetAmount
      → Action (ExecutionContext D S) (Error D) (Unit {0})
  unfolding credit_fund
  credit_funds chain id [] ctx = (ok tt, ctx)
  credit_funds chain id (fund ∷ funds) ctx =
      let (r, ctx') = credit_fund chain id fund ctx in
      let rest = credit_funds chain id funds ctx' in elim r [ err e ↦ (err e, ctx') | ok _ ↦ rest ]

  -- The match on `&pending.event`.
  unfoldable pub process_event :
      ExternalChain → ℕ → BridgeEvent → Action (ExecutionContext D S) (Error D) (Unit {0})
  unfolding credit_funds add_keys set_contract confirm_action log_event
  process_event chain event_id (instantiated contract) =
      on_chain chain (set_contract chain contract)
  process_event chain event_id (regular wallet funds keys) = do
    account_id ← on_accounts (get_or_add_account_for_wallet wallet)
    add_keys account_id keys
    credit_funds chain account_id funds
    log_event (processed_bridge_event event_id account_id)
  process_event chain event_id (signed wallet action_id) = on_chain chain (confirm_action action_id)

  unfoldable pub process_ready_events :
      ℕ → ExternalChain → Action (ExecutionContext D S) (Error D) (Unit {0})
  unfolding get_next_ready_event process_event take_event
  process_ready_events zero chain ctx = (ok tt, ctx)
  process_ready_events (suc fuel) chain ctx =
      elim (get_next_ready_event ctx.framework_state chain) [
        | err e ↦ (err e, ctx)
        | ok none ↦ (ok tt, ctx)
        | ok (some id) ↦
            (do
              event ← on_chain chain (take_event id)
              process_event chain id event
              process_ready_events fuel chain)
              ctx
      ]

  -- How many events are pending: no round is left without one.
  abbrev pub pending_count : ExternalChain → ExecutionContext D S → ℕ
  pending_count chain ctx = elim (get (to_merkle_key chain) ctx.framework_state.chains) [
    | none ↦ 0
    | some entry ↦ length entry.1.pending_events
  ]

  unfoldable pub listener :
      ExternalChain → BridgeEvent → ℕ → Action (ExecutionContext D S) (Error D) (Unit {0})
  unfolding attest process_ready_events
  listener chain event event_id ctx =
      (do
        ensure (contains_key ctx.pubkey ctx.framework_state.validator_set.listeners)
            (not_a_listener ctx.pubkey)
        on_chain chain (attest event event_id ctx.pubkey)
        λ c. process_ready_events (pending_count chain c) chain c)
        ctx
