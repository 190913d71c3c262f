-- ===== src/Context/Finality.antt =====
-- What stands behind an action of a bridge that the processor has finalized.
use kolme.Prelude.{
  ℕ, ◌≡◌, ◌≤◌, ◌⊎◌, true, none, some, List, [], ◌∷◌, ok, arith, inl, inr, length, ltb, Option-cases,
  Result-cases, Bool-cases,
}
use kolme.BTreeMap.{BTreeSet, get, contains_key, insert}
use kolme.BTreeMap.Laws.{contains_key-insert, contains_key-nil}
use kolme.BTreeMap.Order.{IsSorted, insert-IsSorted}
use kolme.Types.Chain.{ExternalChain, to_merkle_key}
use kolme.Types.Bridge.{ChainState, PendingBridgeAction}
use kolme.Validators.{ValidatorSet}
use kolme.Context.{ExecutionContext, Host}
use kolme.Context.Approvals.{
  payload_bytes_to_sign, check_approvers, finalize_action, processor_approve,
}

module _ {D S M : Type 0} (host : Host D S M) where
  -- One of the signatures of the payload is the key's.
  abbrev SignedBy : ℕ → ℕ → List ℕ → Type 0
  SignedBy payload key [] = ⊥
  SignedBy payload key (signature ∷ signatures) =
      (host.recover payload signature ≡ some key) ⊎ SignedBy payload key signatures

  module _ (payload : ℕ) (approvers : BTreeSet) where
    -- Every key of the set is in `seen`, or is an approver's that signed.
    abbrev AreApprovers : List ℕ → BTreeSet → BTreeSet → Type 0
    AreApprovers signatures seen checked =
        (key : ℕ)
        → contains_key key checked ≡ true
        → (contains_key key seen ≡ true)
          ⊎ (contains_key key approvers ≡ true) × SignedBy payload key signatures

    check_approvers-AreApprovers :
        (signatures : List ℕ) (seen checked : BTreeSet)
        → IsSorted seen
        → check_approvers host payload approvers signatures seen ≡ ok checked
        → IsSorted checked × AreApprovers signatures seen checked
    unfolding check_approvers
    check_approvers-AreApprovers [] seen checked s e = ground arith
    check_approvers-AreApprovers (signature ∷ signatures) seen checked s e =
        elim (Option-cases (host.recover payload signature)) [
          | inl r ↦ absurd (ground (arith, r))
          | inr (k, r) ↦
              let later =
                check_approvers-AreApprovers signatures (insert k tt seen) checked
                  (insert-IsSorted k tt seen s) (ground (arith, r)) in
              let approver : contains_key k approvers ≡ true = ground (arith, r) in
              (
                later.0,
                λ key h.
                    ground (arith, later.1 key h, contains_key-insert key k tt seen, r, approver),
              )
        ]

  module _ (chain : ExternalChain) (validators : ValidatorSet) (id processor : ℕ)
      (signatures : List ℕ) where
    -- The action waits at the chain, the processor signed its payload, and a quorum of different
    -- approvers did.
    pub record HasQuorum (state : ChainState D) : Type 0 where
      pub action : PendingBridgeAction
      pub payload : ℕ
      pub signers : BTreeSet
      pub is_pending : get id state.pending_actions ≡ some action
      pub not_final : action.processor ≡ none
      pub signed_payload : payload_bytes_to_sign {D = D} host action chain ≡ ok payload
      pub by_processor : host.recover payload processor ≡ some validators.processor
      pub signers_sorted : IsSorted signers
      pub quorum : validators.needed_approvers ≤ length signers
      pub are_approvers :
          (key : ℕ)
          → contains_key key signers ≡ true
          → (contains_key key validators.approvers ≡ true) × SignedBy payload key signatures

    module _ (state : ChainState D) where
      -- What the tests of `finalize_action` found, if it succeeds.
      inspected :
          (finalize_action host chain validators id processor signatures state).0 ≡ ok tt
          → (action : PendingBridgeAction) × (payload : ℕ) × (signers : BTreeSet) × (get id
                state.pending_actions
              ≡ some action)
            × (action.processor ≡ none)
            × (payload_bytes_to_sign {D = D} host action chain ≡ ok payload)
            × (host.recover payload processor ≡ some validators.processor)
            × (check_approvers {D = D} host payload validators.approvers signatures [] ≡ ok signers)
            × (length signatures ≡ length signers)
      unfolding finalize_action
      inspected e = elim (Option-cases (get id state.pending_actions)) [
        | inl f ↦ absurd (ground (arith, f))
        | inr (action, f) ↦ elim (Result-cases (payload_bytes_to_sign {D = D} host action chain)) [
          | inr (x, g) ↦ absurd (ground (arith, f, g))
          | inl (payload, g) ↦
              elim (Result-cases
                (check_approvers {D = D} host payload validators.approvers signatures [])) [
                  | inr (x, h) ↦ absurd (ground (arith, f, g, h))
                  | inl (signers, h) ↦ (
                    action,
                    payload,
                    signers,
                    f,
                    ground (arith, f, g, h),
                    g,
                    ground (arith, f, g, h),
                    h,
                    ground (arith, f, g, h),
                  )
                ]
        ]
      ]

      finalize_action-HasQuorum :
          validators.needed_approvers ≤ length signatures
          → (finalize_action host chain validators id processor signatures state).0 ≡ ok tt
          → HasQuorum state
      finalize_action-HasQuorum n e =
          let (action, payload, signers, pending, open_action, bytes, by_key, checked, same) =
            inspected e in
          let (sorted, good) =
            check_approvers-AreApprovers payload validators.approvers signatures [] signers tt
              checked in
          record {
            action = action;
            payload = payload;
            signers = signers;
            is_pending = pending;
            not_final = open_action;
            signed_payload = bytes;
            by_processor = by_key;
            signers_sorted = sorted;
            quorum = omega (arith, n, same);
            are_approvers = λ key h. ground (arith, good key h, contains_key-nil (Unit {0}) key);
          }

  -- When `processor_approve` succeeds, the action was pending at the chain and not yet finalized, the
  -- processor of the validator set signed its payload, and so did as many different approvers of the
  -- set as it needs, each by one of the signatures given.
  pub processor_approve-HasQuorum :
      (chain : ExternalChain) (id processor : ℕ) (signatures : List ℕ)
      (ctx ctx' : ExecutionContext D S)
      → processor_approve host chain id processor signatures ctx ≡ (ok tt, ctx')
      → (entry : ExternalChain × ChainState D) × (get
            (to_merkle_key chain)
            ctx.framework_state.chains
          ≡ some entry)
        × HasQuorum chain ctx.framework_state.validator_set id processor signatures entry.1
  unfolding processor_approve
  processor_approve-HasQuorum chain id processor signatures ctx ctx' e =
      let validators = ctx.framework_state.validator_set in
      elim (Bool-cases (ltb (length signatures) validators.needed_approvers)) [
        | inl few ↦ absurd (ground (arith, few))
        | inr enough ↦ elim (Option-cases (get (to_merkle_key chain) ctx.framework_state.chains)) [
          | inl f ↦ absurd (ground (arith, enough, f))
          | inr (entry, f) ↦ (
            entry,
            f,
            finalize_action-HasQuorum chain validators id processor signatures entry.1
                (ground (arith, enough)) (ground (arith, enough, f)),
          )
        ]
      ]
