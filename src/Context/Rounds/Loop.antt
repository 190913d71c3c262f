-- ===== src/Context/Rounds/Loop.antt =====
-- The loop of `process_ready_events` comes to its end within its fuel.
use kolme.Prelude.{
  ℕ, zero, suc, ◌≡◌, refl, arith, Option, none, some, List, [], ◌∷◌, Result, ok, err, ◌>>=◌, ◌>>◌,
  ensure,
}
use kolme.BTreeMap.{get, contains_key}
use kolme.BTreeMap.Laws.{get-insert}
use kolme.Types.{Error, not_a_listener}
use kolme.Types.Chain.{ExternalChain, to_merkle_key}
use kolme.Types.Decimal.{DecimalOps}
use kolme.Types.Asset.{to_decimal}
use kolme.Types.Bridge
use kolme.Types.Bridge.{
  BridgeEvent, BridgedAssetAmount, ChainState, PendingBridgeEvent, instantiated, regular, signed,
}
use kolme.Accounts.{mint}
use kolme.Accounts.Keys.{get_or_add_account_for_wallet}
use kolme.State.{get_chain}
use kolme.Context.{
  ExecutionContext, on_accounts, on_chain, log_event, processed_bridge_event, with_chain,
}
use kolme.Context.Events.{get_next_ready_event, set_contract, confirm_action, take_event, attest}
use kolme.Context.Ready.{
  add_keys, credit_fund, credit_funds, process_event, process_ready_events, pending_count, listener,
}
use kolme.Context.Ensures.{
  Ensures, bind-Ensures, ok-Ensures, some-Ensures, log_event-Ensures, ensure-Ensures,
  on_chain-Ensures,
}
use kolme.Context.Rounds.{
  HasAtMost, on_chain-HasAtMost, kept, on_accounts-HasAtMost, add_keys-HasAtMost,
  set_contract_pending, confirm_action_pending, deposit_pending, taken,
}

module _ {D S : Type 0} ⦃ops : DecimalOps D⦄ (chain : ExternalChain) where
  credit_fund-HasAtMost :
      (n id : ℕ) (fund : BridgedAssetAmount) (ctx : ExecutionContext D S)
      → HasAtMost chain n ctx
      → Ensures (HasAtMost chain n) (credit_fund chain id fund ctx)
  unfolding credit_fund
  credit_fund-HasAtMost n id fund ctx h =
      let P : ExecutionContext D S → Type 0 = HasAtMost chain n in
      ok-Ensures P (get_chain chain ctx.framework_state.chains) _ ctx (λ state.
        some-Ensures P (get fund.denom state.config.assets) (ok tt, ctx) _ h
          (λ config. ok-Ensures P (to_decimal config fund.amount) _ ctx (λ amount.
            bind-Ensures P P (on_accounts (mint id config.asset_id amount))
              (λ _. on_chain chain (Bridge.deposit config.asset_id amount)) ctx
              (on_accounts-HasAtMost chain n (mint id config.asset_id amount) ctx h)
              (λ _ t w.
                kept chain n (Bridge.deposit config.asset_id amount) t
                  (deposit_pending config.asset_id amount) w))))

  credit_funds-HasAtMost :
      (n id : ℕ) (funds : List BridgedAssetAmount) (ctx : ExecutionContext D S)
      → HasAtMost chain n ctx
      → Ensures (HasAtMost chain n) (credit_funds chain id funds ctx)
  unfolding credit_funds
  credit_funds-HasAtMost n id [] ctx h = h
  credit_funds-HasAtMost n id (fund ∷ funds) ctx h =
      bind-Ensures (HasAtMost chain n) (HasAtMost chain n) (credit_fund chain id fund)
        (λ _. credit_funds chain id funds) ctx (credit_fund-HasAtMost n id fund ctx h)
        (λ _ t w. credit_funds-HasAtMost n id funds t w)

  process_event-HasAtMost :
      (n event_id : ℕ) (event : BridgeEvent) (ctx : ExecutionContext D S)
      → HasAtMost chain n ctx
      → Ensures (HasAtMost chain n) (process_event chain event_id event ctx)
  unfolding process_event
  process_event-HasAtMost n event_id (instantiated contract) ctx h =
      kept chain n (set_contract chain contract) ctx (set_contract_pending chain contract) h
  process_event-HasAtMost n event_id (regular wallet funds keys) ctx h =
      let P : ExecutionContext D S → Type 0 = HasAtMost chain n in
      bind-Ensures P P (on_accounts (get_or_add_account_for_wallet wallet))
        (λ id. do
          add_keys id keys
          credit_funds chain id funds
          log_event (processed_bridge_event event_id id))
        ctx (on_accounts-HasAtMost chain n (get_or_add_account_for_wallet wallet) ctx h)
        (λ id t w.
          bind-Ensures P P (add_keys id keys)
            (λ _. do credit_funds chain id funds; log_event (processed_bridge_event event_id id)) t
            (add_keys-HasAtMost chain n id keys t w)
            (λ _ t' w'.
              bind-Ensures P P (credit_funds chain id funds)
                (λ _. log_event (processed_bridge_event event_id id)) t'
                (credit_funds-HasAtMost n id funds t' w')
                (λ _ t'' w''.
                  log_event-Ensures P (processed_bridge_event event_id id) t'' (λ logs. w''))))
  process_event-HasAtMost n event_id (signed wallet action_id) ctx h =
      kept chain n (confirm_action action_id) ctx (confirm_action_pending action_id) h

  -- The loop has nothing left to do: the next event is not ready, or there is none.
  abbrev pub IsDone : ExecutionContext D S → Type 0
  IsDone ctx = get_next_ready_event ctx.framework_state chain ≡ ok none

  IsDone-of_empty : (ctx : ExecutionContext D S) → HasAtMost chain 0 ctx → IsDone ctx
  unfolding get_next_ready_event get_chain
  IsDone-of_empty ctx (entry, e, l) = ground arith

  -- With fuel for as many rounds as the chain has pending events, `process_ready_events` fails with
  -- an error of the code or comes to its end: the next event is not ready, or there is none.
  pub process_ready_events-IsDone :
      (fuel : ℕ) (ctx : ExecutionContext D S)
      → HasAtMost chain fuel ctx
      → Ensures IsDone (process_ready_events fuel chain ctx)
  unfolding process_ready_events
  process_ready_events-IsDone zero ctx h = IsDone-of_empty ctx h
  process_ready_events-IsDone (suc fuel) ctx h =
      go (λ t w. process_ready_events-IsDone fuel t w)
        (get_next_ready_event ctx.framework_state chain) refl
    where
      go :
          ((t : ExecutionContext D S)
            → HasAtMost chain fuel t
            → Ensures IsDone (process_ready_events fuel chain t))
          → (ready : Result (Error D) (Option ℕ))
          → get_next_ready_event ctx.framework_state chain ≡ ready
          → Ensures {S = ExecutionContext D S} {E = Error D} {A = Unit {0}} IsDone (elim ready [
            | err e ↦ (err e, ctx)
            | ok none ↦ (ok tt, ctx)
            | ok (some id) ↦
                (do
                  event ← on_chain chain (take_event id)
                  process_event chain id event
                  process_ready_events fuel chain)
                  ctx
          ])
      go rest (err e) r = tt
      go rest (ok none) r = r
      go rest (ok (some id)) r =
          bind-Ensures (HasAtMost chain fuel) IsDone (on_chain chain (take_event id))
            (λ event. do process_event chain id event; process_ready_events fuel chain) ctx
            (on_chain-HasAtMost chain (suc fuel) fuel (take_event id) ctx h
              (λ entry e l. taken chain id fuel ctx entry r e l))
            (λ event t w.
              bind-Ensures (HasAtMost chain fuel) IsDone (process_event chain id event)
                (λ _. process_ready_events fuel chain) t (process_event-HasAtMost fuel id event t w)
                (λ _ t' w'. rest t' w'))

  -- As many rounds as there are pending events are enough.
  has_pending_count :
      (state : ChainState D) (ctx : ExecutionContext D S)
      → HasAtMost chain
          (pending_count chain (with_chain chain state ctx))
          (with_chain chain state ctx)
  has_pending_count state ctx =
      let stored : get (to_merkle_key chain) (with_chain chain state ctx).framework_state.chains
          ≡ some (chain, state) =
        ground (
          arith,
          get-insert (to_merkle_key chain) (to_merkle_key chain) (chain, state)
              ctx.framework_state.chains,
        ) in
      ((chain, state), stored, ground (arith, stored))

  pub listener-Ensures :
      (event : BridgeEvent) (event_id : ℕ) (ctx : ExecutionContext D S)
      → Ensures IsDone (listener chain event event_id ctx)
  unfolding listener
  listener-Ensures event event_id ctx =
      let Enough : ExecutionContext D S → Type 0 = λ c. HasAtMost chain (pending_count chain c) c in
      bind-Ensures (λ _. Unit {0}) IsDone
        (ensure (contains_key ctx.pubkey ctx.framework_state.validator_set.listeners)
          (not_a_listener ctx.pubkey))
        (λ _. do
          on_chain chain (attest event event_id ctx.pubkey)
          λ c. process_ready_events (pending_count chain c) chain c)
        ctx
        (ensure-Ensures (λ _. Unit {0})
          (contains_key ctx.pubkey ctx.framework_state.validator_set.listeners)
          (not_a_listener ctx.pubkey) ctx tt)
        (λ _ t w.
          bind-Ensures Enough IsDone (on_chain chain (attest event event_id ctx.pubkey))
            (λ _ c. process_ready_events (pending_count chain c) chain c) t
            (on_chain-Ensures Enough chain (attest event event_id ctx.pubkey) t
              (λ state. has_pending_count state t))
            (λ _ t' w'. process_ready_events-IsDone (pending_count chain t') t' w'))
