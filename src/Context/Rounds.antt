-- ===== src/Context/Rounds.antt =====
-- A round of `process_ready_events` takes a pending event away, and what it processes adds none.
pub mod Loop
pub mod Quiet
use kolme.Prelude.{
  ℕ, zero, suc, ◌≡◌, ◌≤◌, ◌<◌, refl, ap, sym, ◌∙◌, ==_refl, arith, Option, none, some, inl, inr,
  List, [], ◌∷◌, Result, ok, err, Action, length, ◌>>=◌, ◌>>◌, Option-cases, Result-cases, ensure,
  subst,
}
use kolme.BTreeMap.{get, insert, remove, contains_key}
use kolme.BTreeMap.Laws.{get-insert}
use kolme.Types.{Error, chain_not_supported, not_a_listener}
use kolme.Types.Chain.{ExternalChain, to_merkle_key}
use kolme.Types.Decimal.{DecimalOps}
use kolme.Types.Asset.{to_decimal}
use kolme.Types.Bridge
use kolme.Types.Bridge.{
  BridgeEvent, BridgedAssetAmount, ChainState, PendingBridgeEvent, instantiated, regular, signed,
}
use kolme.Accounts.{Accounts, mint}
use kolme.Accounts.Keys.{get_or_add_account_for_wallet, add_pubkey_to_account_ignore_overlap}
use kolme.State.{get_chain}
use kolme.Context.{
  ExecutionContext, on_accounts, on_chain, log_event, processed_bridge_event, with_chain,
}
use kolme.Context.Events.{get_next_ready_event, set_contract, confirm_action, take_event, attest}
use kolme.Context.Ready.{
  add_keys, credit_fund, credit_funds, process_event, process_ready_events, pending_count, listener,
}
use kolme.Context.Ensures.{
  Ensures, bind-Ensures, ok-Ensures, some-Ensures, on_accounts-Ensures, log_event-Ensures,
  ensure-Ensures, on_chain-Ensures,
}

module _ {D S : Type 0} (chain : ExternalChain) where
  -- The chain is there, and has at most `n` pending events.
  abbrev pub HasAtMost : ℕ → ExecutionContext D S → Type 0
  HasAtMost n ctx =
      (entry : ExternalChain × ChainState D) × (get (to_merkle_key chain) ctx.framework_state.chains
        ≡ some entry)
      × (length entry.1.pending_events ≤ n)

  written :
      {A : Type 0} (n : ℕ) (ctx : ExecutionContext D S) (r : Result (Error D) A × ChainState D)
      → length r.1.pending_events ≤ n
      → Ensures {S = ExecutionContext D S} {E = Error D} {A = A}
          (HasAtMost n)
          (r.0, with_chain chain r.1 ctx)
  written n ctx (err e, state) l = tt
  written n ctx (ok a, state) l = (
    (chain, state),
    ground (
      arith,
      get-insert (to_merkle_key chain) (to_merkle_key chain) (chain, state)
          ctx.framework_state.chains,
    ),
    l,
  )

  on_chain-HasAtMost :
      {A : Type 0} (k n : ℕ) (m : Action (ChainState D) (Error D) A) (ctx : ExecutionContext D S)
      → HasAtMost k ctx
      → ((entry : ExternalChain × ChainState D)
          → get (to_merkle_key chain) ctx.framework_state.chains ≡ some entry
          → length entry.1.pending_events ≤ k
          → length (m entry.1).1.pending_events ≤ n)
      → Ensures (HasAtMost n) (on_chain chain m ctx)
  on_chain-HasAtMost {A = A} k n m ctx (entry, e, l) h =
      go (get (to_merkle_key chain) ctx.framework_state.chains) e
        (written n ctx (m entry.1) (h entry e l))
    where
      go :
          (found : Option (ExternalChain × ChainState D))
          → found ≡ some entry
          → Ensures {S = ExecutionContext D S} {E = Error D} {A = A}
              (HasAtMost n)
              ((m entry.1).0, with_chain chain (m entry.1).1 ctx)
          → Ensures {S = ExecutionContext D S} {E = Error D} {A = A} (HasAtMost n) (elim found [
            | none ↦ (err (chain_not_supported chain), ctx)
            | some x ↦ let (r, state) = m x.1 in (r, with_chain chain state ctx)
          ])
      go found f w = rw f w

  -- A call that leaves the pending events alone.
  kept :
      {A : Type 0} (n : ℕ) (m : Action (ChainState D) (Error D) A) (ctx : ExecutionContext D S)
      → ((state : ChainState D) → (m state).1.pending_events ≡ state.pending_events)
      → HasAtMost n ctx
      → Ensures (HasAtMost n) (on_chain chain m ctx)
  kept n m ctx same h = on_chain-HasAtMost n n m ctx h (λ entry e l. rw (same entry.1) l)

  on_accounts-HasAtMost :
      {A : Type 0} (n : ℕ) (m : Action (Accounts D) (Error D) A) (ctx : ExecutionContext D S)
      → HasAtMost n ctx
      → Ensures (HasAtMost n) (on_accounts m ctx)
  on_accounts-HasAtMost n m ctx h =
      on_accounts-Ensures (λ _. Unit {0}) (HasAtMost n) m ctx (go (m ctx.framework_state.accounts))
        (λ a _. h)
    where
      go : {A : Type 0} (r : Result (Error D) A × Accounts D) → Ensures (λ _. Unit {0}) r
      go (ok a, s) = tt
      go (err e, s) = tt

  add_keys-HasAtMost :
      (n id : ℕ) (keys : List ℕ) (ctx : ExecutionContext D S)
      → HasAtMost n ctx
      → Ensures (HasAtMost n) (add_keys id keys ctx)
  unfolding add_keys
  add_keys-HasAtMost n id [] ctx h = h
  add_keys-HasAtMost n id (key ∷ keys) ctx h =
      bind-Ensures (HasAtMost n) (HasAtMost n)
        (on_accounts (add_pubkey_to_account_ignore_overlap id key)) (λ _. add_keys id keys) ctx
        (on_accounts-HasAtMost n (add_pubkey_to_account_ignore_overlap id key) ctx h)
        (λ _ t w. add_keys-HasAtMost n id keys t w)

set_contract_pending :
    {D : Type 0} (chain : ExternalChain) (contract : ℕ) (state : ChainState D)
    → (set_contract chain contract state).1.pending_events ≡ state.pending_events
unfolding set_contract
set_contract_pending chain contract state = ground arith

confirm_action_pending :
    {D : Type 0} (id : ℕ) (state : ChainState D)
    → (confirm_action id state).1.pending_events ≡ state.pending_events
unfolding confirm_action
confirm_action_pending id state = ground arith

module _ {D : Type 0} ⦃ops : DecimalOps D⦄ where
  deposit_pending :
      (asset : ℕ) (amount : D) (state : ChainState D)
      → (Bridge.deposit asset amount state).1.pending_events ≡ state.pending_events
  unfolding Bridge.deposit
  deposit_pending asset amount state = ground arith

-- The ready event is the first of the pending ones, which is taken away.
taken :
    {D S : Type 0} (chain : ExternalChain) (id n : ℕ) (ctx : ExecutionContext D S)
    (entry : ExternalChain × ChainState D)
    → get_next_ready_event ctx.framework_state chain ≡ ok (some id)
    → get (to_merkle_key chain) ctx.framework_state.chains ≡ some entry
    → length entry.1.pending_events ≤ suc n
    → length (take_event id entry.1).1.pending_events ≤ n
unfolding get_next_ready_event get_chain take_event get remove
taken chain id n ctx entry r e l = ground arith
