-- ===== src/Execute/Authority.antt =====
-- Who may have a transaction executed.
use kolme.Prelude.{
  ℕ, ◌≡◌, false, some, Result, ok, err, arith, inl, inr, subst, ◌==◌, Bool-cases, Result-cases,
}
use kolme.Types.{Error}
use kolme.Types.Decimal.{DecimalOps}
use kolme.Types.Signed.{verify_signature}
use kolme.Accounts.{Accounts}
use kolme.Accounts.Keys.{use_nonce}
use kolme.Accounts.Invariant.{IsValid}
use kolme.Accounts.Nonces.{NonceUsed, expected_nonce, use_nonce-NonceUsed}
use kolme.Context.{BlockDataHandling, Host}
use kolme.Execute.{
  KolmeRead, SignedTransaction, ExecutionResults, execute_transaction, validate_tx,
  ensure_is_genesis, no_genesis_in,
}

module _ {D S M : Type 0} ⦃ops : DecimalOps D⦄ (host : Host D S M) (read : KolmeRead D S)
    (signed : SignedTransaction D M) where
  -- The running code is of the version of the chain, the key of the transaction signed it and is
  -- due to use its nonce; the first transaction is a genesis message of the processor, and no later
  -- one has a genesis message.
  pub record IsAuthorized : Type 0 where
    pub same_version : read.framework_state.version ≡ read.code_version
    pub signed_by : verify_signature host.recover signed ≡ some signed.message.value.pubkey
    pub nonce_due :
        signed.message.value.nonce
        ≡ expected_nonce signed.message.value.pubkey read.framework_state.accounts
    pub genesis_first :
        read.next_height ≡ 0
        → (ensure_is_genesis signed.message.value ≡ ok tt)
          × (signed.message.value.pubkey ≡ read.framework_state.validator_set.processor)
    pub no_genesis_later :
        (read.next_height == 0) ≡ false → no_genesis_in signed.message.value.messages ≡ ok tt

  nonce_of_ok :
      (valid : IsValid read.framework_state.accounts) (key nonce id : ℕ)
      (r : Result (Error D) ℕ × Accounts D)
      → NonceUsed read.framework_state.accounts valid key nonce r
      → r.0 ≡ ok id
      → nonce ≡ expected_nonce key read.framework_state.accounts
  nonce_of_ok valid key nonce id (ok i, a) used e = used.0
  nonce_of_ok valid key nonce id (err x, a) used e = absurd (ground arith)

  signer_of_validate :
      validate_tx host read signed ≡ ok tt
      → verify_signature host.recover signed ≡ some signed.message.value.pubkey
  unfolding validate_tx
  signer_of_validate e = ground arith

  genesis_of_validate :
      validate_tx host read signed ≡ ok tt
      → read.next_height ≡ 0
      → (ensure_is_genesis signed.message.value ≡ ok tt)
        × (signed.message.value.pubkey ≡ read.framework_state.validator_set.processor)
  unfolding validate_tx
  genesis_of_validate e z = ground arith

  no_genesis_of_validate :
      validate_tx host read signed ≡ ok tt
      → (read.next_height == 0) ≡ false
      → no_genesis_in signed.message.value.messages ≡ ok tt
  unfolding validate_tx
  no_genesis_of_validate e z = ground arith

  module _ (timestamp : ℕ) (handling : BlockDataHandling) where
    abbrev IfAccepted : Result (Error D) (ExecutionResults D S) → Type 0
    IfAccepted (ok results) = IsAuthorized
    IfAccepted (err e) = Unit

    always : IsAuthorized → (r : Result (Error D) (ExecutionResults D S)) → IfAccepted r
    always h (ok results) = h
    always h (err e) = tt

    execute_transaction-IfAccepted :
        IsValid read.framework_state.accounts
        → IfAccepted (execute_transaction host read signed timestamp handling)
    unfolding execute_transaction
    execute_transaction-IfAccepted valid =
        let state = read.framework_state in
        let tx = signed.message.value in
        elim (Bool-cases (state.version == read.code_version)) [
          | inr e ↦ rw e tt
          | inl e ↦ elim (Result-cases (validate_tx host read signed)) [
            | inr (_, f) ↦ rw (e, f) tt
            | inl (_, f) ↦ elim (Result-cases (use_nonce tx.pubkey tx.nonce state.accounts).0) [
              | inr (_, g) ↦ rw (e, f, g) tt
              | inl (id, g) ↦
                  rw (e, f)
                    (always
                      (record {
                        same_version = ground (arith, e);
                        signed_by = signer_of_validate f;
                        nonce_due =
                            nonce_of_ok valid tx.pubkey tx.nonce id
                              (use_nonce tx.pubkey tx.nonce state.accounts)
                              (use_nonce-NonceUsed state.accounts valid tx.pubkey tx.nonce) g;
                        genesis_first = genesis_of_validate f;
                        no_genesis_later = no_genesis_of_validate f;
                      })
                      _)
            ]
          ]
        ]

    -- With valid accounts, a transaction succeeds only if the running code is of the version of the
    -- chain, the key of the transaction signed it, the nonce is the one that the key is due to use,
    -- the first transaction is a genesis message of the processor, and a later one has none.
    pub execute_transaction-IsAuthorized :
        (results : ExecutionResults D S)
        → IsValid read.framework_state.accounts
        → execute_transaction host read signed timestamp handling ≡ ok results
        → IsAuthorized
    execute_transaction-IsAuthorized results valid e =
        subst IfAccepted e (execute_transaction-IfAccepted valid)
