-- ===== src/Context/Actions.antt =====
-- packages/kolme/src/core/execute.rs: `add_action` and `add_action_all_chains`.
use kolme.Prelude.{ℕ, none, some, [], ◌∷◌, ok, err, Action, next}
use kolme.BTreeMap.{get, insert}
use kolme.Types.{Error, chain_not_supported}
use kolme.Types.Chain.{ExternalChain, to_merkle_key}
use kolme.Types.Bridge.{ChainState}
use kolme.State.{ChainStates}
use kolme.Context.{ExecutionContext, ExecAction, Host, with_chain, log_event, new_bridge_action}
use kolme.Context.Payload.{to_payload}

module _ {D S M : Type 0} (host : Host D S M) where
  -- The action is stored before it is logged, and the counter of the chain is raised.
  abbrev pub emit : ExternalChain → ChainState D → ℕ → ExecutionContext D S → ExecutionContext D S
  emit chain state payload ctx =
      with_chain chain
        (record state {
          pending_actions =
              insert state.next_action_id
                (record { payload = payload; approvals = []; processor = none })
                state.pending_actions;
          next_action_id = next state.next_action_id;
        })
        ctx

  unfoldable pub add_action : ExternalChain → ExecAction → Action (ExecutionContext D S) (Error D) ℕ
  unfolding to_payload log_event to_merkle_key
  add_action chain action ctx = elim (get (to_merkle_key chain) ctx.framework_state.chains) [
    | none ↦ (err (chain_not_supported chain), ctx)
    | some entry ↦
        let state = entry.1 in
        let id = state.next_action_id in
        elim (to_payload host action chain state.config id) [
          | err e ↦ (err e, ctx)
          | ok payload ↦
              let (r, ctx') =
                log_event (new_bridge_action chain id) (emit chain state payload ctx) in
              elim r [ err e ↦ (err e, ctx') | ok _ ↦ (ok id, ctx') ]
        ]
  ]

  -- The loop over the chains that `keys()` gave, in order.
  unfoldable pub add_action_to :
      ExecAction → ChainStates D → Action (ExecutionContext D S) (Error D) (Unit {0})
  unfolding add_action
  add_action_to action [] ctx = (ok tt, ctx)
  add_action_to action ((key, (chain, state)) ∷ chains) ctx =
      let (r, ctx') = add_action chain action ctx in
      let rest = add_action_to action chains ctx' in elim r [ err e ↦ (err e, ctx') | ok _ ↦ rest ]

  unfoldable pub add_action_all_chains :
      ExecAction → Action (ExecutionContext D S) (Error D) (Unit {0})
  unfolding add_action_to
  add_action_all_chains action ctx = add_action_to action ctx.framework_state.chains ctx
