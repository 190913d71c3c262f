-- ===== src/Context/Validity/Admin.antt =====
-- The messages of the administrators do not touch the accounts.
use kolme.Prelude.{ℕ, [], next, ok, err, Action, lift, ◌>>◌, ◌==◌}
use kolme.BTreeMap.{get, contains_key, insert}
use kolme.Types.{Error, identical_proposal, invalid_signature, unknown_proposal, signer_mismatch}
use kolme.Types.Decimal.{DecimalOps}
use kolme.Types.Signed.{SignedTaggedJson, verify_signature}
use kolme.Validators
use kolme.Validators.{SelfReplace, validate, ensure_is_validator}
use kolme.Proposals
use kolme.Proposals.{PendingProposal, ProposalPayload, as_bytes}
use kolme.Context.{
  ExecutionContext, ExecAction, Host, log_event, new_admin_proposal, admin_proposal_approved,
}
use kolme.Context.Actions.{add_action}
use kolme.Context.Admin
use kolme.Context.Admin.{
  AdminMessage, find_identical, find_approved_proposal, with_proposals, with_validators,
  add_admin_proposal, clear_proposals, carry_out, check_pending_proposals, check_signer,
  check_validator, propose, approve_proposal, replace_self, admin, values,
}
use kolme.Context.Ensures.{
  Ensures, bind-Ensures, ok-Ensures, some-Ensures, if-Ensures, ensure-Ensures, lift-Ensures,
}
use kolme.Context.Validity.{AccountsValid}
use kolme.Context.Validity.Bridge.{log_event-Valid, add_action-Valid, add_action_all_chains-Valid}

module _ {D S M : Type 0} ⦃ops : DecimalOps D⦄ (host : Host D S M) where
  carry_out-Valid :
      (pending : PendingProposal) (ctx : ExecutionContext D S)
      → AccountsValid ctx
      → Ensures AccountsValid (carry_out host pending ctx)
  unfolding carry_out
  carry_out-Valid pending ctx v = go pending.payload
    where
      go :
          (payload : ProposalPayload)
          → Ensures AccountsValid (carry_out host (record pending { payload = payload }) ctx)
      go (Proposals.new_set validators) =
          add_action_all_chains-Valid host
            (ExecAction.new_set validators (values pending.approvals))
            (with_validators validators.value ctx) v
      go (Proposals.migrate_contract migrate) =
          bind-Ensures AccountsValid AccountsValid
            (add_action host (Proposals.chain migrate.value) (ExecAction.migrate_contract migrate))
            (λ _. lift (ok tt)) ctx
            (add_action-Valid host (Proposals.chain migrate.value)
              (ExecAction.migrate_contract migrate) ctx v)
            (λ _ t w. w)
      go (Proposals.upgrade request) = v

  check_pending_proposals-Valid :
      (ctx : ExecutionContext D S)
      → AccountsValid ctx
      → Ensures AccountsValid (check_pending_proposals host ctx)
  unfolding check_pending_proposals
  check_pending_proposals-Valid ctx v =
      let state = ctx.framework_state in
      some-Ensures AccountsValid
        (find_approved_proposal state.validator_set state.admin_proposal_state.proposals)
        (ok tt, ctx) _ v
        (λ found.
          bind-Ensures AccountsValid AccountsValid (log_event (admin_proposal_approved found.0))
            (λ _. do carry_out host found.1; λ c. (ok tt, clear_proposals c)) ctx
            (log_event-Valid (admin_proposal_approved found.0) ctx v)
            (λ _ t w.
              bind-Ensures AccountsValid AccountsValid (carry_out host found.1)
                (λ _ c. (ok tt, clear_proposals c)) t (carry_out-Valid found.1 t w)
                (λ _ t' w'. w')))

  check_signer-Valid :
      {T : Type 0} (signed : SignedTaggedJson T) (ctx : ExecutionContext D S)
      → AccountsValid ctx
      → Ensures AccountsValid (check_signer host signed ctx)
  unfolding check_signer
  check_signer-Valid signed ctx v =
      some-Ensures AccountsValid (verify_signature host.recover signed) (err invalid_signature, ctx)
        _ tt (λ signer. ensure-Ensures AccountsValid (signer == ctx.pubkey) signer_mismatch ctx v)

  check_validator-Valid :
      (ctx : ExecutionContext D S)
      → AccountsValid ctx
      → Ensures AccountsValid (check_validator host ctx)
  unfolding check_validator
  check_validator-Valid ctx v =
      lift-Ensures AccountsValid (ensure_is_validator ctx.pubkey ctx.framework_state.validator_set)
        ctx v

  propose-Valid :
      (payload : ProposalPayload) (signature : ℕ) (ctx : ExecutionContext D S)
      → AccountsValid ctx
      → Ensures AccountsValid (propose host payload signature ctx)
  unfolding propose add_admin_proposal
  propose-Valid payload signature ctx v =
      let state = ctx.framework_state.admin_proposal_state in
      bind-Ensures AccountsValid AccountsValid (add_admin_proposal payload ctx.pubkey signature)
        (λ _. check_pending_proposals host) ctx
        (some-Ensures AccountsValid (find_identical payload state.proposals) _
          (λ existing. (err (identical_proposal existing), ctx))
          (log_event-Valid (new_admin_proposal state.next_admin_proposal_id)
            (with_proposals
              (record {
                next_admin_proposal_id = next state.next_admin_proposal_id;
                proposals =
                    insert state.next_admin_proposal_id
                      (record { payload = payload; approvals = insert ctx.pubkey signature [] })
                      state.proposals;
              })
              ctx)
            v)
          (λ existing. tt))
        (λ _ t w. check_pending_proposals-Valid t w)

  approve_proposal-Valid :
      (id signature : ℕ) (ctx : ExecutionContext D S)
      → AccountsValid ctx
      → Ensures AccountsValid (approve_proposal host id signature ctx)
  unfolding approve_proposal
  approve_proposal-Valid id signature ctx v =
      some-Ensures AccountsValid (get id ctx.framework_state.admin_proposal_state.proposals)
        (err (unknown_proposal id), ctx) _ tt
        (λ pending.
          some-Ensures AccountsValid (host.recover (as_bytes pending.payload) signature)
            (err invalid_signature, ctx) _ tt
            (λ pubkey.
              if-Ensures AccountsValid (pubkey == ctx.pubkey) _ _
                (if-Ensures AccountsValid (contains_key pubkey pending.approvals) _ _ tt (
                  check_pending_proposals-Valid
                    (with_proposals
                      (record ctx.framework_state.admin_proposal_state {
                        proposals =
                            insert id
                              (record pending {
                                approvals = insert pubkey signature pending.approvals;
                              })
                              ctx.framework_state.admin_proposal_state.proposals;
                      })
                      ctx)
                    v))
                tt))

  replace_self-Valid :
      (signed : SignedTaggedJson SelfReplace) (ctx : ExecutionContext D S)
      → AccountsValid ctx
      → Ensures AccountsValid (replace_self host signed ctx)
  unfolding replace_self
  replace_self-Valid signed ctx v =
      ok-Ensures AccountsValid
        (Validators.self_replace ctx.pubkey signed.message.value ctx.framework_state.validator_set)
        _ ctx
        (λ validators.
          add_action_all_chains-Valid host (ExecAction.self_replace signed)
            (with_validators validators ctx) v)

  -- The two checks of a proposing message, and what follows them.
  signed_proposal-Valid :
      {T : Type 0} (signed : SignedTaggedJson T)
      (rest : Action (ExecutionContext D S) (Error D) (Unit {0}))
      → ((t : ExecutionContext D S) → AccountsValid t → Ensures AccountsValid (rest t))
      → (ctx : ExecutionContext D S) → AccountsValid ctx
      → Ensures AccountsValid ((do check_signer host signed; check_validator host; rest) ctx)
  signed_proposal-Valid signed rest h ctx v =
      bind-Ensures AccountsValid AccountsValid (check_signer host signed)
        (λ _. do check_validator host; rest) ctx (check_signer-Valid signed ctx v)
        (λ _ t w.
          bind-Ensures AccountsValid AccountsValid (check_validator host) (λ _. rest) t
            (check_validator-Valid t w) (λ _ t' w'. h t' w'))

  pub admin-Valid :
      (message : AdminMessage) (ctx : ExecutionContext D S)
      → AccountsValid ctx
      → Ensures AccountsValid (admin host message ctx)
  unfolding admin
  admin-Valid (Admin.self_replace signed) ctx v =
      bind-Ensures AccountsValid AccountsValid (check_signer host signed)
        (λ _. replace_self host signed) ctx (check_signer-Valid signed ctx v)
        (λ _ t w. replace_self-Valid signed t w)
  admin-Valid (Admin.new_set signed) ctx v =
      signed_proposal-Valid signed
        (do
          lift (validate signed.message.value)
          propose host (Proposals.new_set signed.message) signed.signature)
        (λ t w.
          bind-Ensures AccountsValid AccountsValid (lift (validate signed.message.value))
            (λ _. propose host (Proposals.new_set signed.message) signed.signature) t
            (lift-Ensures AccountsValid (validate signed.message.value) t w)
            (λ _ t' w'. propose-Valid (Proposals.new_set signed.message) signed.signature t' w'))
        ctx v
  admin-Valid (Admin.migrate_contract signed) ctx v =
      signed_proposal-Valid signed
        (propose host (Proposals.migrate_contract signed.message) signed.signature)
        (propose-Valid (Proposals.migrate_contract signed.message) signed.signature) ctx v
  admin-Valid (Admin.upgrade signed) ctx v =
      signed_proposal-Valid signed
        (propose host (Proposals.upgrade signed.message) signed.signature)
        (propose-Valid (Proposals.upgrade signed.message) signed.signature) ctx v
  admin-Valid (Admin.approve id signature) ctx v =
      bind-Ensures AccountsValid AccountsValid (check_validator host)
        (λ _. approve_proposal host id signature) ctx (check_validator-Valid ctx v)
        (λ _ t w. approve_proposal-Valid id signature t w)
