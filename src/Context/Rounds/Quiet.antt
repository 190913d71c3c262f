-- ===== src/Context/Rounds/Quiet.antt =====
-- What a listener message leaves at the head of the queue, said without the counting of the code.
use kolme.Prelude.{
  ℕ, ◌<◌, ◌≡◌, refl, arith, List, [], ◌∷◌, Result, ok, err, length, if◌then◌else◌, subst,
}
use kolme.BTreeMap.{BTreeMap, BTreeSet, contains_key}
use kolme.Types.Chain.{ExternalChain}
use kolme.Types.Decimal.{DecimalOps}
use kolme.Types.Bridge.{BridgeEvent, ChainState, PendingBridgeEvent}
use kolme.Types.{Error}
use kolme.State.{get_chain}
use kolme.Context.{ExecutionContext}
use kolme.Context.Events.{get_next_ready_event, count_attestations}
use kolme.Context.Ready.{listener}
use kolme.Context.Ensures.{Ensures}
use kolme.Context.Rounds.Loop.{IsDone, listener-Ensures}

-- The keys among the attestations that are listeners.
abbrev attesting : BTreeSet → BTreeSet → List ℕ
attesting listeners [] = []
attesting listeners ((key, _) ∷ attestations) =
    if contains_key key listeners
    then key ∷ attesting listeners attestations
    else attesting listeners attestations

count_attestations-length :
    (listeners attestations : BTreeSet)
    → count_attestations listeners attestations ≡ length (attesting listeners attestations)
unfolding count_attestations
count_attestations-length listeners [] = refl
count_attestations-length listeners ((key, u) ∷ attestations) =
    ground (arith, count_attestations-length listeners attestations)

module _ {D S : Type 0} ⦃ops : DecimalOps D⦄ (chain : ExternalChain) where
  -- No event is pending, or too few of the listeners attest the first one.
  abbrev AtHead : ExecutionContext D S → BTreeMap PendingBridgeEvent → Type 0
  AtHead ctx [] = Unit
  AtHead ctx (event ∷ events) =
      length (attesting ctx.framework_state.validator_set.listeners event.1.attestations)
      < ctx.framework_state.validator_set.needed_listeners

  -- The chain is there, with such a queue.
  abbrev pub IsQuiet : ExecutionContext D S → Type 0
  IsQuiet ctx =
      (state : ChainState D) × (get_chain chain ctx.framework_state.chains ≡ ok state)
      × AtHead ctx state.pending_events

  IsDone-IsQuiet : (ctx : ExecutionContext D S) → IsDone chain ctx → IsQuiet ctx
  unfolding get_next_ready_event
  IsDone-IsQuiet ctx e = by_chain (get_chain chain ctx.framework_state.chains) refl
    where
      by_queue :
          (state : ChainState D)
          → get_chain chain ctx.framework_state.chains ≡ ok state
          → (events : BTreeMap PendingBridgeEvent) → state.pending_events ≡ events
          → AtHead ctx events
      by_queue state f [] g = tt
      by_queue state f (event ∷ events) g = ground (
        arith,
        e,
        f,
        g,
        count_attestations-length ctx.framework_state.validator_set.listeners event.1.attestations,
      )

      by_chain :
          (r : Result (Error D) (ChainState D))
          → get_chain chain ctx.framework_state.chains ≡ r
          → IsQuiet ctx
      by_chain (err x) f = absurd (ground (arith, e, f))
      by_chain (ok state) f = (state, f, by_queue state f state.pending_events refl)

  -- When `listener` succeeds, no event is left pending at the chain, or fewer of the present listeners
  -- attest the first one than the quorum needs.
  pub listener-IsQuiet :
      (event : BridgeEvent) (event_id : ℕ) (ctx ctx' : ExecutionContext D S)
      → listener chain event event_id ctx ≡ (ok tt, ctx')
      → IsQuiet ctx'
  listener-IsQuiet event event_id ctx ctx' e =
      IsDone-IsQuiet ctx'
        (subst (Ensures (IsDone chain)) e (listener-Ensures chain event event_id ctx))
