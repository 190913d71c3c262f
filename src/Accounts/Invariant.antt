-- ===== src/Accounts/Invariant.antt =====
-- The well-formedness of `Accounts`: the order of the maps, the agreement of the reverse lookups
-- with the accounts, and positive balances.
use kolme.Prelude.{ℕ, ◌≡◌, refl, Bool, false, none, some, arith, ◌==◌, inl, inr, Option-cases}
use kolme.Prelude.Int.{pos, ◌<ℤ◌}
use kolme.BTreeMap.{get, contains_key}
use kolme.BTreeMap.Laws.{get-insert, contains_key-nil}
use kolme.BTreeMap.Order.{IsSorted, insert-IsSorted}
use kolme.BTreeMap.All.{All, All-get, All-insert}
use kolme.Types.Decimal.{DecimalOps, value}
use kolme.Accounts.{Account, Accounts, store, default_account, default, get_or_default}

module _ {D : Type 0} where
  -- Does the account `id` hold the key, and does the reverse lookup lead from the key to `id`?
  abbrev holds_pubkey : ℕ → ℕ → Accounts D → Bool
  holds_pubkey id key a = elim (get id a.accounts) [
    | none ↦ false
    | some account ↦ contains_key key account.pubkeys
  ]

  abbrev maps_pubkey : ℕ → ℕ → Accounts D → Bool
  maps_pubkey id key a = elim (get key a.pubkeys) [ none ↦ false | some owner ↦ owner == id ]

  abbrev holds_wallet : ℕ → ℕ → Accounts D → Bool
  holds_wallet id wallet a = elim (get id a.accounts) [
    | none ↦ false
    | some account ↦ contains_key wallet account.wallets
  ]

  abbrev maps_wallet : ℕ → ℕ → Accounts D → Bool
  maps_wallet id wallet a = elim (get wallet a.wallets) [ none ↦ false | some owner ↦ owner == id ]

module _ {D : Type 0} ⦃ops : DecimalOps D⦄ where
  abbrev pub IsPositive : D → Type 0
  IsPositive d = pos 0 <ℤ value d

  pub record IsValidAccount (account : Account D) : Type 0 where
    pub assets_sorted : IsSorted account.assets
    pub wallets_sorted : IsSorted account.wallets
    pub pubkeys_sorted : IsSorted account.pubkeys
    pub balances_positive : All IsPositive account.assets

  pub record IsValid (a : Accounts D) : Type 0 where
    pub accounts_sorted : IsSorted a.accounts
    pub wallets_sorted : IsSorted a.wallets
    pub pubkeys_sorted : IsSorted a.pubkeys
    pub accounts_valid : All IsValidAccount a.accounts
    pub pubkeys_linked : (id key : ℕ) → holds_pubkey id key a ≡ maps_pubkey id key a
    pub wallets_linked : (id wallet : ℕ) → holds_wallet id wallet a ≡ maps_wallet id wallet a

  default_account-IsValidAccount : IsValidAccount default_account
  default_account-IsValidAccount = record {
    assets_sorted = tt;
    wallets_sorted = tt;
    pubkeys_sorted = tt;
    balances_positive = tt;
  }

  -- The empty state is valid.
  pub default-IsValid : IsValid default
  unfolding get
  default-IsValid = record {
    accounts_sorted = tt;
    wallets_sorted = tt;
    pubkeys_sorted = tt;
    accounts_valid = tt;
    pubkeys_linked = λ id key. refl;
    wallets_linked = λ id wallet. refl;
  }

  module _ (a : Accounts D) (valid : IsValid a) (id : ℕ) where
    pub get_or_default-IsValidAccount : IsValidAccount (get_or_default id a.accounts)
    get_or_default-IsValidAccount = elim (Option-cases (get id a.accounts)) [
      | inl e ↦ rw (e, get_or_default) default_account-IsValidAccount
      | inr (account, e) ↦
          rw (e, get_or_default)
            (All-get IsValidAccount id account a.accounts valid.accounts_valid e)
    ]

    -- What an account of a valid state holds, the reverse lookup has.
    pub get_or_default_pubkeys :
        (key : ℕ) → contains_key key (get_or_default id a.accounts).pubkeys ≡ maps_pubkey id key a
    get_or_default_pubkeys key =
        ground (arith, valid.pubkeys_linked id key, contains_key-nil (Unit {0}) key)

    pub get_or_default_wallets :
        (wallet : ℕ)
        → contains_key wallet (get_or_default id a.accounts).wallets ≡ maps_wallet id wallet a
    get_or_default_wallets wallet =
        ground (arith, valid.wallets_linked id wallet, contains_key-nil (Unit {0}) wallet)

    -- A write to an account that keeps its public keys and wallets keeps the invariant.
    pub store-IsValid :
        (account : Account D)
        → IsValidAccount account
        → account.pubkeys ≡ (get_or_default id a.accounts).pubkeys
        → account.wallets ≡ (get_or_default id a.accounts).wallets
        → IsValid (store id account a)
    store-IsValid account valid_account same_pubkeys same_wallets = record {
      accounts_sorted = insert-IsSorted id account a.accounts valid.accounts_sorted;
      wallets_sorted = valid.wallets_sorted;
      pubkeys_sorted = valid.pubkeys_sorted;
      accounts_valid =
          All-insert IsValidAccount id account a.accounts valid_account valid.accounts_valid;
      pubkeys_linked = λ j key. ground (
        arith,
        get-insert j id account a.accounts,
        valid.pubkeys_linked j key,
        get_or_default_pubkeys key,
        same_pubkeys,
      );
      wallets_linked = λ j wallet. ground (
        arith,
        get-insert j id account a.accounts,
        valid.wallets_linked j wallet,
        get_or_default_wallets wallet,
        same_wallets,
      );
    }
