-- ===== src/Tests/Transactions.antt =====
-- A run of a transaction: a transfer of 120 from account 0 to account 3.
use kolme.Prelude.{arith, ℕ, ◌≡◌, refl, [], ◌∷◌, some, none, true, Result, ok, Action}
use kolme.Prelude.Int.{ℤ, pos}
use kolme.Accounts.{Accounts}
use kolme.Accounts.Invariant.{IsValid}
use kolme.Validators.{ValidatorSet}
use kolme.State.{FrameworkState}
use kolme.Context.{Host, no_prior_data}
use kolme.Context.Bank.{transfer}
use kolme.Context.Message.{Message}
use kolme.Execute.{KolmeRead, SignedTransaction, ExecutionResults, execute_transaction}
use kolme.Execute.Validity.{AppKeepsAccounts, execute_transaction-IsValid}
use kolme.Execute.Authority.{IsAuthorized, execute_transaction-IsAuthorized}
use kolme.BTreeMap.{get}
use kolme.Tests.Decimals.{whole_ops, whole-IsDecimal}
use kolme.Tests.Sample.{ledger, owner, ledger-IsValid}

abbrev validators : ValidatorSet
validators = record {
  processor = 1;
  listeners = (2, tt) ∷ [];
  needed_listeners = 1;
  approvers = (4, tt) ∷ [];
  needed_approvers = 1;
}

-- An application that only counts its messages; a signature is the key that made it.
abbrev pub host : Host ℤ ℕ ℕ
host = record {
  recover = λ payload signature. some signature;
  decode_base64 = λ payload. some payload;
  render = λ action chain config id. some id;
  genesis_info = record { kolme_ident = 0; validator_set = validators; chains = []; version = 1 };
  genesis_eq = λ info actual. true;
  execute = λ message ctx. (ok tt, record ctx { app_state = message });
}

host-AppKeepsAccounts : AppKeepsAccounts host
host-AppKeepsAccounts message ctx v = v

abbrev pub state : FrameworkState ℤ
state = record {
  validator_set = validators;
  chains = [];
  accounts = ledger;
  admin_proposal_state = record { next_admin_proposal_id = 0; proposals = [] };
  version = 1;
}

abbrev read : KolmeRead ℤ ℕ
read = record { framework_state = state; app_state = 0; next_height = 5; code_version = 1 }

-- Key 100 signs with its nonce, 1.
abbrev pub signed : SignedTransaction ℤ ℕ
signed = record {
  message = record {
    serialized = 77;
    value = record {
      pubkey = 100;
      nonce = 1;
      created = 9;
      messages = Message.bank (transfer 7 3 (pos 120)) ∷ Message.app 8 ∷ [];
      max_height = none;
    };
  };
  signature = 100;
}

abbrev pub results : ExecutionResults ℤ ℕ
results = record {
  framework_state = record state {
    accounts = record ledger {
      accounts =
          (0, record owner { assets = (7, pos 380) ∷ []; next_nonce = 2 })
          ∷ (3, record { assets = (7, pos 120) ∷ []; wallets = []; pubkeys = []; next_nonce = 0 })
          ∷ [];
    };
  };
  app_state = 8;
  logs = [] ∷ [] ∷ [];
  loads = [];
  height = 5;
}

transfer_run : execute_transaction host read signed 10 no_prior_data ≡ ok results
unfolding execute_transaction kolme.BTreeMap.get kolme.Accounts.burn kolme.BTreeMap.insert
    kolme.Accounts.mint kolme.Prelude.Int.◌-ℤ◌ kolme.Prelude.Int.◌+ℤ◌
transfer_run = refl

execute_transaction-IsValid_example : IsValid results.framework_state.accounts
execute_transaction-IsValid_example =
    execute_transaction-IsValid host whole-IsDecimal host-AppKeepsAccounts read signed 10
      no_prior_data results ledger-IsValid transfer_run

execute_transaction-IsAuthorized_example : IsAuthorized host read signed
execute_transaction-IsAuthorized_example =
    execute_transaction-IsAuthorized host read signed 10 no_prior_data results ledger-IsValid
      transfer_run
