-- ===== src/Context/Validity/Bridge.antt =====
-- The messages of the listeners and approvers, and the actions of a bridge, keep the accounts well
-- formed.
use kolme.Prelude.{ℕ, zero, suc, List, [], ◌∷◌, ok, err, Action, ensure, ◌>>◌, ltb, length}
use kolme.BTreeMap.{get, contains_key}
use kolme.Types.{Error, chain_not_supported, not_a_listener, too_few_approvers}
use kolme.Types.Chain.{ExternalChain, to_merkle_key}
use kolme.Types.Decimal.{DecimalOps, IsDecimal}
use kolme.Types.Asset.{to_decimal, to_u128}
use kolme.Types.Bridge
use kolme.Types.Bridge.{BridgeEvent, BridgedAssetAmount, ChainState, instantiated, regular, signed}
use kolme.Accounts.{mint, burn}
use kolme.Accounts.Keys.{get_or_add_account_for_wallet}
use kolme.Accounts.Methods.{get_or_add_account_for_wallet-IsSound}
use kolme.Accounts.Balances.{mint-IsValid}
use kolme.Accounts.Burns.{burn-IsValid}
use kolme.State.{get_chain, get_asset_config, ChainStates}
use kolme.Context.{
  ExecutionContext, ExecAction, LogEvent, Host, on_accounts, on_chain, log_event,
  processed_bridge_event, new_bridge_action,
}
use kolme.Context.Payload.{to_payload}
use kolme.Context.Actions.{emit, add_action, add_action_to, add_action_all_chains}
use kolme.Context.Events.{get_next_ready_event, set_contract, confirm_action, take_event, attest}
use kolme.Context.Approvals.{approve, approve_action, processor_approve, finalize_action}
use kolme.Context.Bank.{withdraw_asset}
use kolme.Context.Ready.{
  add_keys, credit_fund, credit_funds, process_event, process_ready_events, pending_count, listener,
}
use kolme.Context.Ensures.{
  Ensures, bind-Ensures, ok-Ensures, some-Ensures, if-Ensures, ensure-Ensures, on_chain-Ensures,
  log_event-Ensures,
}
use kolme.Context.Validity.{AccountsValid, on_accounts-Sound, on_accounts-Valid, add_keys-Valid}

module _ {D S : Type 0} ⦃ops : DecimalOps D⦄ where
  -- What changes a chain or the logs does not touch the accounts.
  on_chain-Valid :
      {A : Type 0} (chain : ExternalChain) (m : Action (ChainState D) (Error D) A)
      (ctx : ExecutionContext D S)
      → AccountsValid ctx
      → Ensures AccountsValid (on_chain chain m ctx)
  on_chain-Valid chain m ctx v = on_chain-Ensures AccountsValid chain m ctx (λ state. v)

  pub log_event-Valid :
      (event : LogEvent) (ctx : ExecutionContext D S)
      → AccountsValid ctx
      → Ensures AccountsValid (log_event event ctx)
  log_event-Valid event ctx v = log_event-Ensures AccountsValid event ctx (λ logs. v)

  module _ {M : Type 0} (host : Host D S M) where
    pub add_action-Valid :
        (chain : ExternalChain) (action : ExecAction) (ctx : ExecutionContext D S)
        → AccountsValid ctx
        → Ensures AccountsValid (add_action host chain action ctx)
    unfolding add_action
    add_action-Valid chain action ctx v =
        some-Ensures AccountsValid (get (to_merkle_key chain) ctx.framework_state.chains)
          (err (chain_not_supported chain), ctx) _ tt
          (λ entry.
            ok-Ensures AccountsValid
              (to_payload host action chain entry.1.config entry.1.next_action_id) _ ctx
              (λ payload.
                bind-Ensures AccountsValid AccountsValid
                  (log_event (new_bridge_action chain entry.1.next_action_id))
                  (λ _ t. (ok entry.1.next_action_id, t)) (emit host chain entry.1 payload ctx)
                  (log_event-Valid (new_bridge_action chain entry.1.next_action_id)
                    (emit host chain entry.1 payload ctx) v)
                  (λ _ t w. w)))

    add_action_to-Valid :
        (action : ExecAction) (chains : ChainStates D) (ctx : ExecutionContext D S)
        → AccountsValid ctx
        → Ensures AccountsValid (add_action_to host action chains ctx)
    unfolding add_action_to
    add_action_to-Valid action [] ctx v = v
    add_action_to-Valid action ((key, (chain, state)) ∷ chains) ctx v =
        bind-Ensures AccountsValid AccountsValid (add_action host chain action)
          (λ _. add_action_to host action chains) ctx (add_action-Valid chain action ctx v)
          (λ _ t w. add_action_to-Valid action chains t w)

    pub add_action_all_chains-Valid :
        (action : ExecAction) (ctx : ExecutionContext D S)
        → AccountsValid ctx
        → Ensures AccountsValid (add_action_all_chains host action ctx)
    unfolding add_action_all_chains
    add_action_all_chains-Valid action ctx v =
        add_action_to-Valid action ctx.framework_state.chains ctx v

    pub approve-Valid :
        (chain : ExternalChain) (id signature : ℕ) (ctx : ExecutionContext D S)
        → AccountsValid ctx
        → Ensures AccountsValid (approve host chain id signature ctx)
    unfolding approve
    approve-Valid chain id signature ctx v =
        on_chain-Valid chain
          (approve_action host chain ctx.framework_state.validator_set id signature) ctx v

    pub processor_approve-Valid :
        (chain : ExternalChain) (id processor : ℕ) (approvers : List ℕ) (ctx : ExecutionContext D S)
        → AccountsValid ctx
        → Ensures AccountsValid (processor_approve host chain id processor approvers ctx)
    unfolding processor_approve
    processor_approve-Valid chain id processor approvers ctx v =
        let validators = ctx.framework_state.validator_set in
        if-Ensures AccountsValid (ltb (length approvers) validators.needed_approvers)
          (err too_few_approvers, ctx) _ tt
          (on_chain-Valid chain (finalize_action host chain validators id processor approvers) ctx
            v)

module _ {D S : Type 0} ⦃ops : DecimalOps D⦄ (laws : IsDecimal D) where
  credit_fund-Valid :
      (chain : ExternalChain) (id : ℕ) (fund : BridgedAssetAmount) (ctx : ExecutionContext D S)
      → AccountsValid ctx
      → Ensures AccountsValid (credit_fund chain id fund ctx)
  unfolding credit_fund
  credit_fund-Valid chain id fund ctx v =
      ok-Ensures AccountsValid (get_chain chain ctx.framework_state.chains) _ ctx (λ state.
        some-Ensures AccountsValid (get fund.denom state.config.assets) (ok tt, ctx) _ v
          (λ config. ok-Ensures AccountsValid (to_decimal config fund.amount) _ ctx (λ amount.
            bind-Ensures AccountsValid AccountsValid (on_accounts (mint id config.asset_id amount))
              (λ _. on_chain chain (Bridge.deposit config.asset_id amount)) ctx
              (on_accounts-Valid (mint id config.asset_id amount) ctx
                (mint-IsValid laws _ v id config.asset_id amount))
              (λ _ t w. on_chain-Valid chain (Bridge.deposit config.asset_id amount) t w))))

  credit_funds-Valid :
      (chain : ExternalChain) (id : ℕ) (funds : List BridgedAssetAmount)
      (ctx : ExecutionContext D S)
      → AccountsValid ctx
      → Ensures AccountsValid (credit_funds chain id funds ctx)
  unfolding credit_funds
  credit_funds-Valid chain id [] ctx v = v
  credit_funds-Valid chain id (fund ∷ funds) ctx v =
      bind-Ensures AccountsValid AccountsValid (credit_fund chain id fund)
        (λ _. credit_funds chain id funds) ctx (credit_fund-Valid chain id fund ctx v)
        (λ _ t w. credit_funds-Valid chain id funds t w)

  process_event-Valid :
      (chain : ExternalChain) (event_id : ℕ) (event : BridgeEvent) (ctx : ExecutionContext D S)
      → AccountsValid ctx
      → Ensures AccountsValid (process_event chain event_id event ctx)
  unfolding process_event
  process_event-Valid chain event_id (instantiated contract) ctx v =
      on_chain-Valid chain (set_contract chain contract) ctx v
  process_event-Valid chain event_id (regular wallet funds keys) ctx v =
      bind-Ensures AccountsValid AccountsValid (on_accounts (get_or_add_account_for_wallet wallet))
        (λ id. do
          add_keys id keys
          credit_funds chain id funds
          log_event (processed_bridge_event event_id id))
        ctx
        (on_accounts-Sound (get_or_add_account_for_wallet wallet) ctx
          (get_or_add_account_for_wallet-IsSound _ v wallet))
        (λ id t w.
          bind-Ensures AccountsValid AccountsValid (add_keys id keys)
            (λ _. do credit_funds chain id funds; log_event (processed_bridge_event event_id id)) t
            (add_keys-Valid id keys t w)
            (λ _ t' w'.
              bind-Ensures AccountsValid AccountsValid (credit_funds chain id funds)
                (λ _. log_event (processed_bridge_event event_id id)) t'
                (credit_funds-Valid chain id funds t' w')
                (λ _ t'' w''. log_event-Valid (processed_bridge_event event_id id) t'' w'')))
  process_event-Valid chain event_id (signed wallet action_id) ctx v =
      on_chain-Valid chain (confirm_action action_id) ctx v

  process_ready_events-Valid :
      (fuel : ℕ) (chain : ExternalChain) (ctx : ExecutionContext D S)
      → AccountsValid ctx
      → Ensures AccountsValid (process_ready_events fuel chain ctx)
  unfolding process_ready_events
  process_ready_events-Valid zero chain ctx v = v
  process_ready_events-Valid (suc fuel) chain ctx v =
      ok-Ensures AccountsValid (get_next_ready_event ctx.framework_state chain) _ ctx (λ next.
        some-Ensures AccountsValid next (ok tt, ctx) _ v
          (λ id.
            bind-Ensures AccountsValid AccountsValid (on_chain chain (take_event id))
              (λ event. do process_event chain id event; process_ready_events fuel chain) ctx
              (on_chain-Valid chain (take_event id) ctx v)
              (λ event t w.
                bind-Ensures AccountsValid AccountsValid (process_event chain id event)
                  (λ _. process_ready_events fuel chain) t (process_event-Valid chain id event t w)
                  (λ _ t' w'. process_ready_events-Valid fuel chain t' w'))))

  pub listener-Valid :
      (chain : ExternalChain) (event : BridgeEvent) (event_id : ℕ) (ctx : ExecutionContext D S)
      → AccountsValid ctx
      → Ensures AccountsValid (listener chain event event_id ctx)
  unfolding listener
  listener-Valid chain event event_id ctx v =
      bind-Ensures AccountsValid AccountsValid
        (ensure (contains_key ctx.pubkey ctx.framework_state.validator_set.listeners)
          (not_a_listener ctx.pubkey))
        (λ _. do
          on_chain chain (attest event event_id ctx.pubkey)
          λ c. process_ready_events (pending_count chain c) chain c)
        ctx
        (ensure-Ensures AccountsValid
          (contains_key ctx.pubkey ctx.framework_state.validator_set.listeners)
          (not_a_listener ctx.pubkey) ctx v)
        (λ _ t w.
          bind-Ensures AccountsValid AccountsValid
            (on_chain chain (attest event event_id ctx.pubkey))
            (λ _ c. process_ready_events (pending_count chain c) chain c) t
            (on_chain-Valid chain (attest event event_id ctx.pubkey) t w)
            (λ _ t' w'. process_ready_events-Valid (pending_count chain t') chain t' w'))

  pub withdraw_asset-Valid :
      {M : Type 0} (host : Host D S M) (asset : ℕ) (chain : ExternalChain) (source wallet : ℕ)
      (amount : D) (ctx : ExecutionContext D S)
      → AccountsValid ctx
      → Ensures AccountsValid (withdraw_asset host asset chain source wallet amount ctx)
  unfolding withdraw_asset
  withdraw_asset-Valid host asset chain source wallet amount ctx v =
      let action : ℕ → ExecAction =
        λ n. ExecAction.transfer chain wallet (record { id = asset; amount = n } ∷ []) in
      ok-Ensures AccountsValid (get_asset_config chain asset ctx.framework_state) _ ctx (λ config.
        ok-Ensures AccountsValid (to_u128 config amount) _ ctx (λ amounts.
          bind-Ensures AccountsValid AccountsValid (on_accounts (burn source asset amounts.0))
            (λ _. do
              on_chain chain (Bridge.withdraw asset amount)
              add_action host chain (action amounts.1))
            ctx
            (on_accounts-Valid (burn source asset amounts.0) ctx
              (burn-IsValid laws _ v source asset amounts.0))
            (λ _ t w.
              bind-Ensures AccountsValid AccountsValid
                (on_chain chain (Bridge.withdraw asset amount))
                (λ _. add_action host chain (action amounts.1)) t
                (on_chain-Valid chain (Bridge.withdraw asset amount) t w)
                (λ _ t' w'. add_action-Valid host chain (action amounts.1) t' w'))))
