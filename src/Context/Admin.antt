-- ===== src/Context/Admin.antt =====
-- packages/kolme/src/core/execute.rs and state.rs: the administration messages, and the proposals
-- that they make, approve and carry out.
use kolme.Prelude.{
  ℕ, Option, none, some, List, [], ◌∷◌, ok, err, Action, lift, ensure, ◌>>◌, ◌==◌, if◌then◌else◌,
  next,
}
use kolme.BTreeMap.{BTreeMap, get, contains_key, insert}
use kolme.Types.{
  Error, invalid_signature, signer_mismatch, identical_proposal, unknown_proposal, already_approved,
}
use kolme.Types.Signed.{SignedTaggedJson, verify_signature}
use kolme.Validators
use kolme.Validators.{ValidatorSet, SelfReplace, validate, ensure_is_validator}
use kolme.Proposals
use kolme.Proposals.{
  AdminProposalState, MigrateContract, PendingProposal, ProposalPayload, Upgrade, as_bytes,
  payload_eq, has_sufficient_approvals,
}
use kolme.Context.{
  ExecutionContext, ExecAction, Host, log_event, new_admin_proposal, admin_proposal_approved,
  with_framework,
}
use kolme.Context.Actions.{add_action, add_action_all_chains}

-- `AdminMessage` of packages/kolme/src/core/types.rs
pub data AdminMessage : Type 0 where
  self_replace : SignedTaggedJson SelfReplace → AdminMessage
  new_set : SignedTaggedJson ValidatorSet → AdminMessage
  migrate_contract : SignedTaggedJson MigrateContract → AdminMessage
  upgrade : SignedTaggedJson Upgrade → AdminMessage
  -- proposal id, signature
  approve : ℕ → ℕ → AdminMessage

-- `for (id, existing) in &proposals { ensure!(existing.payload != payload) }`
unfoldable pub find_identical : ProposalPayload → BTreeMap PendingProposal → Option ℕ
unfolding payload_eq
find_identical payload [] = none
find_identical payload ((id, existing) ∷ proposals) =
    if payload_eq existing.payload payload then some id else find_identical payload proposals

-- `find_approved_proposal`: the first, by id, that has sufficient approvals.
unfoldable pub find_approved_proposal :
    ValidatorSet → BTreeMap PendingProposal → Option (ℕ × PendingProposal)
unfolding has_sufficient_approvals
find_approved_proposal validators [] = none
find_approved_proposal validators ((id, pending) ∷ proposals) =
    if has_sufficient_approvals pending validators
    then some (id, pending)
    else find_approved_proposal validators proposals

-- `values()`
unfoldable pub values {ℓ} : {V : Type ℓ} → BTreeMap V → List V
values [] = []
values ((k, v) ∷ m) = v ∷ values m

module _ {D S : Type 0} where
  abbrev pub with_proposals : AdminProposalState → ExecutionContext D S → ExecutionContext D S
  with_proposals state ctx =
      with_framework (record ctx.framework_state { admin_proposal_state = state }) ctx

  abbrev pub with_validators : ValidatorSet → ExecutionContext D S → ExecutionContext D S
  with_validators validators ctx =
      with_framework (record ctx.framework_state { validator_set = validators }) ctx

  unfoldable pub add_admin_proposal :
      ProposalPayload → ℕ → ℕ → Action (ExecutionContext D S) (Error D) (Unit {0})
  unfolding find_identical log_event
  add_admin_proposal payload pubkey signature ctx =
      let state = ctx.framework_state.admin_proposal_state in
      let id = state.next_admin_proposal_id in
      elim (find_identical payload state.proposals) [
        | some existing ↦ (err (identical_proposal existing), ctx)
        | none ↦ log_event (new_admin_proposal id) (
            with_proposals
              (record {
                next_admin_proposal_id = next id;
                proposals =
                    insert id (record { payload = payload; approvals = insert pubkey signature [] })
                      state.proposals;
              })
              ctx)
      ]

  -- `proposals.clear()`
  abbrev pub clear_proposals : ExecutionContext D S → ExecutionContext D S
  clear_proposals ctx =
      with_proposals (record ctx.framework_state.admin_proposal_state { proposals = [] }) ctx

module _ {D S M : Type 0} (host : Host D S M) where
  -- The match on the payload of an approved proposal.
  unfoldable pub carry_out : PendingProposal → Action (ExecutionContext D S) (Error D) (Unit {0})
  unfolding add_action add_action_all_chains values
  carry_out pending ctx = elim pending.payload [
    | ProposalPayload.new_set validators ↦
        add_action_all_chains host (ExecAction.new_set validators (values pending.approvals))
          (with_validators validators.value ctx)
    | ProposalPayload.migrate_contract migrate ↦
        (add_action host (Proposals.chain migrate.value) (ExecAction.migrate_contract migrate)
            >> lift (ok tt))
          ctx
    | ProposalPayload.upgrade request ↦ (
      ok tt,
      with_framework (record ctx.framework_state { version = request.value.desired_version }) ctx,
    )
  ]

  unfoldable pub check_pending_proposals : Action (ExecutionContext D S) (Error D) (Unit {0})
  unfolding find_approved_proposal carry_out log_event
  check_pending_proposals ctx =
      let state = ctx.framework_state in
      elim (find_approved_proposal state.validator_set state.admin_proposal_state.proposals) [
        | none ↦ (ok tt, ctx)
        | some found ↦
            (do
              log_event (admin_proposal_approved found.0)
              carry_out found.1
              λ c. (ok tt, clear_proposals c))
              ctx
      ]

  -- `let signer = signed.verify_signature()?; ensure!(signer == self.pubkey)`
  unfoldable pub check_signer :
      {T : Type 0} → SignedTaggedJson T → Action (ExecutionContext D S) (Error D) (Unit {0})
  check_signer signed ctx = elim (verify_signature host.recover signed) [
    | none ↦ (err invalid_signature, ctx)
    | some signer ↦ ensure (signer == ctx.pubkey) signer_mismatch ctx
  ]

  -- `validator_set.ensure_is_validator(self.pubkey)`
  unfoldable pub check_validator : Action (ExecutionContext D S) (Error D) (Unit {0})
  unfolding ensure_is_validator
  check_validator ctx = (ensure_is_validator ctx.pubkey ctx.framework_state.validator_set, ctx)

  -- The part that the three proposing messages share.
  unfoldable pub propose : ProposalPayload → ℕ → Action (ExecutionContext D S) (Error D) (Unit {0})
  unfolding add_admin_proposal check_pending_proposals
  propose payload signature ctx =
      (add_admin_proposal payload ctx.pubkey signature >> check_pending_proposals) ctx

  unfoldable pub approve_proposal : ℕ → ℕ → Action (ExecutionContext D S) (Error D) (Unit {0})
  unfolding check_pending_proposals as_bytes
  approve_proposal id signature ctx =
      let state = ctx.framework_state.admin_proposal_state in
      elim (get id state.proposals) [
        | none ↦ (err (unknown_proposal id), ctx)
        | some pending ↦ elim (host.recover (as_bytes pending.payload) signature) [
          | none ↦ (err invalid_signature, ctx)
          | some pubkey ↦
              let ctx' =
                with_proposals
                  (record state {
                    proposals =
                        insert id
                          (record pending { approvals = insert pubkey signature pending.approvals })
                          state.proposals;
                  })
                  ctx in
              if pubkey == ctx.pubkey
              then if contains_key pubkey pending.approvals
                then (err (already_approved pubkey), ctx')
                else check_pending_proposals ctx'
              else (err signer_mismatch, ctx)
        ]
      ]

  -- The `SelfReplace` arm; no part of it validates the new set.
  unfoldable pub replace_self :
      SignedTaggedJson SelfReplace → Action (ExecutionContext D S) (Error D) (Unit {0})
  unfolding Validators.self_replace add_action_all_chains
  replace_self signed ctx =
      elim (Validators.self_replace ctx.pubkey signed.message.value
        ctx.framework_state.validator_set) [
          | err e ↦ (err e, ctx)
          | ok validators ↦
              add_action_all_chains host (ExecAction.self_replace signed)
                (with_validators validators ctx)
        ]

  unfoldable pub admin : AdminMessage → Action (ExecutionContext D S) (Error D) (Unit {0})
  unfolding check_signer check_validator propose approve_proposal replace_self validate
  admin (self_replace signed) = do check_signer signed; replace_self signed
  admin (new_set signed) = do
    check_signer signed
    check_validator
    lift (validate signed.message.value)
    propose (ProposalPayload.new_set signed.message) signed.signature
  admin (migrate_contract signed) = do
    check_signer signed
    check_validator
    propose (ProposalPayload.migrate_contract signed.message) signed.signature
  admin (upgrade signed) = do
    check_signer signed
    check_validator
    propose (ProposalPayload.upgrade signed.message) signed.signature
  admin (approve id signature) = do check_validator; approve_proposal id signature
