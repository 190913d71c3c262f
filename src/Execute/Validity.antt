-- ===== src/Execute/Validity.antt =====
-- A transaction keeps the accounts well formed.
use kolme.Prelude.{
  ℕ, ◌≡◌, subst, List, [], ◌∷◌, ◌++◌, Result, ok, err, lift, Result-cases, ◌==◌, Bool-cases, inl,
  inr, if◌then◌else◌,
}
use kolme.Types.{Error, genesis_mismatch, data_loads_left}
use kolme.Accounts.{Accounts}
use kolme.Types.Decimal.{DecimalOps, IsDecimal}
use kolme.Accounts.Keys.{use_nonce}
use kolme.Accounts.Invariant.{IsValid}
use kolme.Accounts.Methods.{IsSound, use_nonce-IsSound}
use kolme.Context.{BlockDataHandling, ExecutionContext, Host}
use kolme.Context.Bank.{BankMessage, transfer, withdraw, bank, withdraw_asset}
use kolme.Context.Message.{Message, execute_message}
use kolme.Context.Ensures.{Ensures, bind-Ensures, ensure-Ensures}
use kolme.Context.Validity.{AccountsValid, auth-Valid, transfer_asset-Valid}
use kolme.Context.Validity.Bridge.{
  listener-Valid, approve-Valid, processor_approve-Valid, withdraw_asset-Valid,
}
use kolme.Context.Validity.Admin.{admin-Valid}
use kolme.Execute.{
  KolmeRead, SignedTransaction, ExecutionResults, execute_messages, execute_transaction,
  start_context, loads_used, validate_tx,
}

module _ {D S M : Type 0} ⦃ops : DecimalOps D⦄ (host : Host D S M) where
  -- The application changes the accounts by the methods of the context only, which keep them well
  -- formed.
  abbrev pub AppKeepsAccounts : Type 0
  AppKeepsAccounts =
      (message : M) (ctx : ExecutionContext D S)
      → AccountsValid ctx
      → Ensures AccountsValid (host.execute message ctx)

  module _ (laws : IsDecimal D) (app : AppKeepsAccounts) where
    bank-Valid :
        (message : BankMessage D) (ctx : ExecutionContext D S)
        → AccountsValid ctx
        → Ensures AccountsValid (bank host message ctx)
    unfolding bank
    bank-Valid (withdraw asset chain dest amount) ctx v =
        bind-Ensures AccountsValid AccountsValid
          (withdraw_asset host asset chain ctx.sender dest amount) (λ _. lift (ok tt)) ctx
          (withdraw_asset-Valid laws host asset chain ctx.sender dest amount ctx v) (λ _ t w. w)
    bank-Valid (transfer asset dest amount) ctx v =
        transfer_asset-Valid laws asset ctx.sender dest amount ctx v

    execute_message-Valid :
        (message : Message D M) (ctx : ExecutionContext D S)
        → AccountsValid ctx
        → Ensures AccountsValid (execute_message host message ctx)
    unfolding execute_message
    execute_message-Valid (Message.genesis info) ctx v =
        ensure-Ensures AccountsValid (host.genesis_eq host.genesis_info info) genesis_mismatch ctx v
    execute_message-Valid (Message.app message) ctx v = app message ctx v
    execute_message-Valid (Message.listener chain event id) ctx v =
        listener-Valid laws chain event id ctx v
    execute_message-Valid (Message.approve chain id signature) ctx v =
        approve-Valid host chain id signature ctx v
    execute_message-Valid (Message.processor_approve chain id processor approvers) ctx v =
        processor_approve-Valid host chain id processor approvers ctx v
    execute_message-Valid (Message.bank message) ctx v = bank-Valid message ctx v
    execute_message-Valid (Message.auth message) ctx v = auth-Valid message ctx v
    execute_message-Valid (Message.admin message) ctx v = admin-Valid host message ctx v

    execute_messages-Valid :
        (messages : List (Message D M)) (ctx : ExecutionContext D S)
        → AccountsValid ctx
        → Ensures AccountsValid (execute_messages host messages ctx)
    unfolding execute_messages
    execute_messages-Valid [] ctx v = v
    execute_messages-Valid (message ∷ messages) ctx v =
        bind-Ensures AccountsValid AccountsValid (execute_message host message)
          (λ _. execute_messages host messages) (record ctx { logs = ctx.logs ++ [] ∷ [] })
          (execute_message-Valid message (record ctx { logs = ctx.logs ++ [] ∷ [] }) v)
          (λ _ t w. execute_messages-Valid messages t w)

    -- What holds of the results of a transaction.
    abbrev Accepted : Result (Error D) (ExecutionResults D S) → Type 0
    Accepted (ok results) = IsValid results.framework_state.accounts
    Accepted (err e) = Unit

    -- The end of the transaction: the results are there if the data loads were used up.
    abbrev finish :
        Result (Error D) (Unit {0}) × ExecutionContext D S → Result (Error D) (ExecutionResults D S)
    finish r = elim r.0 [
      | err e ↦ err e
      | ok _ ↦
          if loads_used r.1.block_data_handling
          then ok (record {
            framework_state = r.1.framework_state;
            app_state = r.1.app_state;
            logs = r.1.logs;
            loads = r.1.loads;
            height = r.1.height;
          })
          else err data_loads_left
    ]

    finish-Accepted :
        (r : Result (Error D) (Unit {0}) × ExecutionContext D S)
        → Ensures AccountsValid r
        → Accepted (finish r)
    finish-Accepted (err e, ctx) v = tt
    finish-Accepted (ok _, ctx) v = elim (Bool-cases (loads_used ctx.block_data_handling)) [
      | inl e ↦ rw e v
      | inr e ↦ rw e tt
    ]

    module _ (read : KolmeRead D S) (signed : SignedTransaction D M) (timestamp : ℕ)
        (handling : BlockDataHandling) where
      -- The messages, after the nonce was used.
      abbrev run : Result (Error D) ℕ × Accounts D → Result (Error D) (ExecutionResults D S)
      run used = elim used.0 [
        | err e ↦ err e
        | ok sender ↦ finish (
            execute_messages host signed.message.value.messages (
              start_context read signed.message.value timestamp handling
                (record read.framework_state { accounts = used.1 }) sender))
      ]

      run-Accepted : (used : Result (Error D) ℕ × Accounts D) → IsSound used → Accepted (run used)
      run-Accepted (err e, accounts) v = tt
      run-Accepted (ok sender, accounts) v =
          let ctx =
            start_context read signed.message.value timestamp handling
              (record read.framework_state { accounts = accounts }) sender in
          finish-Accepted (execute_messages host signed.message.value.messages ctx)
            (execute_messages-Valid signed.message.value.messages ctx v)

      execute_transaction-Accepted :
          IsValid read.framework_state.accounts
          → Accepted (execute_transaction host read signed timestamp handling)
      unfolding execute_transaction
      execute_transaction-Accepted v =
          let state = read.framework_state in
          let tx = signed.message.value in
          elim (Bool-cases (state.version == read.code_version)) [
            | inr e ↦ rw e tt
            | inl e ↦ elim (Result-cases (validate_tx host read signed)) [
              | inr (_, f) ↦ rw (e, f) tt
              | inl (_, f) ↦
                  rw (e, f)
                    (run-Accepted (use_nonce tx.pubkey tx.nonce state.accounts)
                      (use_nonce-IsSound state.accounts v tx.pubkey tx.nonce))
            ]
          ]

      -- With the laws of `IsDecimal` and an application that keeps the accounts well formed, a
      -- transaction that succeeds on valid accounts, whatever its messages, leaves valid accounts: reverse
      -- lookups that agree with the accounts, and positive balances.
      pub execute_transaction-IsValid :
          (results : ExecutionResults D S)
          → IsValid read.framework_state.accounts
          → execute_transaction host read signed timestamp handling ≡ ok results
          → IsValid results.framework_state.accounts
      execute_transaction-IsValid results v e = subst Accepted e (execute_transaction-Accepted v)
