-- ===== src/Tests/Sample.antt =====
-- The state of the runs: account 0 with a key, a wallet and a balance.
use kolme.Prelude.{[], ◌∷◌}
use kolme.Prelude.Int.{ℤ, pos}
use kolme.BTreeMap.{get, contains_key, insert, last_key}
use kolme.Accounts.{Accounts, Account, default, mint, get_next_account_id}
use kolme.Accounts.Keys.{use_nonce, add_wallet_to_account}
use kolme.Accounts.Invariant.{IsValid, default-IsValid}
use kolme.Accounts.Methods.{use_nonce-IsSound, add_wallet_to_account-IsSound}
use kolme.Accounts.Balances.{mint-IsValid}
use kolme.Tests.Decimals.{whole_ops, whole-IsDecimal}

-- Key 100 signs the first transaction, which makes account 0.
abbrev keyed : Accounts ℤ
keyed = record {
  accounts =
      (0, record { assets = []; wallets = []; pubkeys = (100, tt) ∷ []; next_nonce = 1 }) ∷ [];
  wallets = [];
  pubkeys = (100, 0) ∷ [];
}

-- The account then gets wallet 55 and 500 of asset 7.
abbrev with_wallet : Accounts ℤ
with_wallet = record {
  accounts =
      (0, record { assets = []; wallets = (55, tt) ∷ []; pubkeys = (100, tt) ∷ []; next_nonce = 1 })
      ∷ [];
  wallets = (55, 0) ∷ [];
  pubkeys = (100, 0) ∷ [];
}

abbrev pub owner : Account ℤ
owner = record {
  assets = (7, pos 500) ∷ [];
  wallets = (55, tt) ∷ [];
  pubkeys = (100, tt) ∷ [];
  next_nonce = 1;
}

abbrev pub ledger : Accounts ℤ
ledger = record { accounts = (0, owner) ∷ []; wallets = (55, 0) ∷ []; pubkeys = (100, 0) ∷ [] }

keyed-IsValid : IsValid keyed
unfolding use_nonce get_next_account_id last_key get insert
keyed-IsValid = use_nonce-IsSound default default-IsValid 100 0

with_wallet-IsValid : IsValid with_wallet
unfolding add_wallet_to_account contains_key get insert
with_wallet-IsValid = add_wallet_to_account-IsSound keyed keyed-IsValid 0 55

pub ledger-IsValid : IsValid ledger
unfolding mint get insert kolme.Prelude.Int.◌+ℤ◌
ledger-IsValid = mint-IsValid whole-IsDecimal with_wallet with_wallet-IsValid 0 7 (pos 500)
