-- ===== src/Context/Approvals.antt =====
-- packages/kolme/src/core/execute.rs: `approve` and `processor_approve`, the signatures that a
-- pending bridge action collects.
use kolme.Prelude.{
  ℕ, none, some, List, [], ◌∷◌, Result, ok, err, Action, ◌==◌, ltb, if◌then◌else◌, length,
}
use kolme.BTreeMap.{BTreeSet, get, contains_key, insert}
use kolme.Types.{
  Error, unknown_action, invalid_signature, payload_not_decoded, not_an_approver, already_approved,
  too_few_approvers, duplicate_approvers, already_finalized, not_the_processor,
}
use kolme.Types.Chain.{ExternalChain, ChainName, name}
use kolme.Types.Bridge.{ChainState, PendingBridgeAction}
use kolme.Validators.{ValidatorSet}
use kolme.Context.{ExecutionContext, Host, on_chain}

module _ {D S M : Type 0} (host : Host D S M) where
  -- `PendingBridgeAction::payload_bytes_to_sign`
  unfoldable pub payload_bytes_to_sign : PendingBridgeAction → ExternalChain → Result (Error D) ℕ
  unfolding name
  payload_bytes_to_sign action chain = elim (name chain) [
    | ChainName.ethereum ↦ elim (host.decode_base64 action.payload) [
      | none ↦ err payload_not_decoded
      | some bytes ↦ ok bytes
    ]
    | _ ↦ ok action.payload
  ]

  -- The payload of the action, and the key that signed it.
  unfoldable pub signer_of : ExternalChain → PendingBridgeAction → ℕ → Result (Error D) ℕ
  unfolding payload_bytes_to_sign
  signer_of chain action signature = elim (payload_bytes_to_sign action chain) [
    | err e ↦ err e
    | ok payload ↦ elim (host.recover payload signature) [
      | none ↦ err invalid_signature
      | some key ↦ ok key
    ]
  ]

  -- `approve` on the state of its chain: the approval is written before it is known to be new.
  unfoldable pub approve_action :
      ExternalChain → ValidatorSet → ℕ → ℕ → Action (ChainState D) (Error D) (Unit {0})
  unfolding signer_of
  approve_action chain validators id signature state = elim (get id state.pending_actions) [
    | none ↦ (err (unknown_action id), state)
    | some action ↦ elim (signer_of chain action signature) [
      | err e ↦ (err e, state)
      | ok key ↦
          if contains_key key validators.approvers
          then (
            if contains_key key action.approvals then err (already_approved key) else ok tt,
            record state {
              pending_actions =
                  insert id (record action { approvals = insert key signature action.approvals })
                    state.pending_actions;
            },
          )
          else (err (not_an_approver key), state)
    ]
  ]

  unfoldable pub approve :
      ExternalChain → ℕ → ℕ → Action (ExecutionContext D S) (Error D) (Unit {0})
  unfolding approve_action
  approve chain id signature ctx =
      on_chain chain (approve_action chain ctx.framework_state.validator_set id signature) ctx

  -- The keys behind the signatures, as a set: each has to be an approver's.
  unfoldable pub check_approvers : ℕ → BTreeSet → List ℕ → BTreeSet → Result (Error D) BTreeSet
  check_approvers payload approvers [] checked = ok checked
  check_approvers payload approvers (signature ∷ signatures) checked =
      elim (host.recover payload signature) [
        | none ↦ err invalid_signature
        | some key ↦
            let rest = check_approvers payload approvers signatures (insert key tt checked) in
            if contains_key key approvers then rest else err (not_an_approver key)
      ]

  -- `processor_approve` on the state of its chain, after the test of the number of signatures.
  unfoldable pub finalize_action :
      ExternalChain → ValidatorSet → ℕ → ℕ → List ℕ → Action (ChainState D) (Error D) (Unit {0})
  unfolding payload_bytes_to_sign check_approvers
  finalize_action chain validators id processor approvers state =
      elim (get id state.pending_actions) [
        | none ↦ (err (unknown_action id), state)
        | some action ↦ elim action.processor [
          | some _ ↦ (err already_finalized, state)
          | none ↦ elim (payload_bytes_to_sign action chain) [
            | err e ↦ (err e, state)
            | ok payload ↦ elim (host.recover payload processor) [
              | none ↦ (err invalid_signature, state)
              | some key ↦
                  if key == validators.processor
                  then elim (check_approvers payload validators.approvers approvers []) [
                    | err e ↦ (err e, state)
                    | ok checked ↦
                        if length approvers == length checked
                        then (
                          ok tt,
                          record state {
                            pending_actions =
                                insert id (record action { processor = some processor })
                                  state.pending_actions;
                          },
                        )
                        else (err duplicate_approvers, state)
                  ]
                  else (err not_the_processor, state)
            ]
          ]
        ]
      ]

  unfoldable pub processor_approve :
      ExternalChain → ℕ → ℕ → List ℕ → Action (ExecutionContext D S) (Error D) (Unit {0})
  unfolding finalize_action
  processor_approve chain id processor approvers ctx =
      let validators = ctx.framework_state.validator_set in
      if ltb (length approvers) validators.needed_approvers
      then (err too_few_approvers, ctx)
      else on_chain chain (finalize_action chain validators id processor approvers) ctx
