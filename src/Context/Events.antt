-- ===== src/Context/Events.antt =====
-- packages/kolme/src/core/execute.rs: `listener` and `process_ready_events`.
use kolme.Prelude.{
  ℕ, suc, Option, none, some, [], ◌∷◌, Result, ok, err, Action, ◌==◌, leb, if◌then◌else◌, next,
  u16_mod,
}
use kolme.BTreeMap.{BTreeSet, get, contains_key, insert, remove}
use kolme.Types.{
  Error, panic, event_mismatch, unexpected_event_id, already_attested, already_deployed,
  no_pending_actions, unexpected_action_id,
}
use kolme.Types.Chain.{ExternalChain}
use kolme.Types.Bridge.{BridgeContract, BridgeEvent, ChainState, event_eq}
use kolme.State.{FrameworkState, get_chain}

-- `attestations.iter().filter(|key| listeners.contains(key)).count()`
unfoldable pub count_attestations : BTreeSet → BTreeSet → ℕ
count_attestations listeners [] = 0
count_attestations listeners ((key, _) ∷ attestations) =
    let rest = count_attestations listeners attestations in
    if contains_key key listeners then suc rest else rest

module _ {D : Type 0} where
  -- The first pending event, if the current listeners among its attestations make the quorum;
  -- `u16::try_from(..).expect(..)` panics from 2 ^ 16 on.
  unfoldable pub get_next_ready_event :
      FrameworkState D → ExternalChain → Result (Error D) (Option ℕ)
  unfolding count_attestations get_chain
  get_next_ready_event state chain = elim (get_chain chain state.chains) [
    | err _ ↦ err panic
    | ok chain_state ↦ elim chain_state.pending_events [
      | [] ↦ ok none
      | entry ∷ _ ↦
          let existing = count_attestations state.validator_set.listeners entry.1.attestations in
          if leb u16_mod existing
          then err panic
          else if leb state.validator_set.needed_listeners existing
          then ok (some entry.0)
          else ok none
    ]
  ]

  -- `let config = &mut ..; match config.bridge { .. }; config.bridge = Deployed(contract)`
  unfoldable pub set_contract : ExternalChain → ℕ → Action (ChainState D) (Error D) (Unit {0})
  set_contract chain contract state = elim state.config.bridge [
    | BridgeContract.deployed _ ↦ (err (already_deployed chain), state)
    | _ ↦ (
      ok tt,
      record state {
        config = record { assets = state.config.assets; bridge = BridgeContract.deployed contract };
      },
    )
  ]

  -- The lowest pending action must be the one reported, and is removed.
  unfoldable pub confirm_action : ℕ → Action (ChainState D) (Error D) (Unit {0})
  confirm_action id state = elim state.pending_actions [
    | [] ↦ (err no_pending_actions, state)
    | entry ∷ actions ↦
        if entry.0 == id
        then (ok tt, record state { pending_actions = remove id (entry ∷ actions) })
        else (err (unexpected_action_id entry.0 id), state)
  ]

  -- `pending_events.remove(&event_id).unwrap()`
  unfoldable pub take_event : ℕ → Action (ChainState D) (Error D) BridgeEvent
  take_event id state = elim (get id state.pending_events) [
    | none ↦ (err panic, state)
    | some pending ↦
        (ok pending.event, record state { pending_events = remove id state.pending_events })
  ]

  -- The match on `pending_events.get_mut(&event_id)` and the insertion of the attestation.
  unfoldable pub attest : BridgeEvent → ℕ → ℕ → Action (ChainState D) (Error D) (Unit {0})
  unfolding event_eq
  attest event id pubkey state = elim (get id state.pending_events) [
    | some pending ↦
        if event_eq pending.event event
        then (
          if contains_key pubkey pending.attestations
              then err (already_attested id pubkey)
              else ok tt,
          record state {
            pending_events =
                insert id (record pending { attestations = insert pubkey tt pending.attestations })
                  state.pending_events;
          },
        )
        else (err (event_mismatch id), state)
    | none ↦
        if id == state.next_event_id
        then (
          ok tt,
          record state {
            next_event_id = next id;
            pending_events =
                insert id (record { event = event; attestations = insert pubkey tt [] })
                  state.pending_events;
          },
        )
        else (err (unexpected_event_id id state.next_event_id), state)
  ]
