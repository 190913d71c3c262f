-- ===== src/Accounts/Methods.antt =====
-- Every method of `Accounts` keeps the invariant, and in a valid state no `unwrap` or `assert!` of
-- the methods on keys, wallets and nonces fails.
use kolme.Prelude.{
  ℕ, ◌≡◌, ◌≢◌, refl, true, none, some, arith, inl, inr, ap, sym, Result, ok, err, Option-cases,
}
use kolme.BTreeMap.{get, contains_key}
use kolme.Types.{Error, panic}
use kolme.Types.Decimal.{DecimalOps}
use kolme.Accounts.{Account, Accounts, store, add_account, get_or_default, get_next_account_id}
use kolme.Accounts.Keys.{
  add_pubkey_to_account_error_overlap, add_pubkey_to_account_ignore_overlap,
  get_or_add_account_for_key, get_or_add_account_for_wallet, remove_pubkey_from_account,
  add_wallet_to_account, remove_wallet_from_account, use_nonce, bump_nonce, link_pubkey,
  link_wallet,
}
use kolme.Accounts.Invariant.{IsValid, IsValidAccount, get_or_default-IsValidAccount, store-IsValid}
use kolme.Accounts.Links.{
  link_pubkey-IsValid, link_wallet-IsValid, unlink_pubkey-IsValid, unlink_wallet-IsValid,
}

module _ {D : Type 0} ⦃ops : DecimalOps D⦄ where
  -- A call that succeeds ends in a valid state, and one that fails has not panicked.
  abbrev pub IsSound : {A : Type 0} → Result (Error D) A × Accounts D → Type 0
  IsSound (ok _, a) = IsValid a
  IsSound (err e, a) = e ≢ panic

  module _ (a : Accounts D) (valid : IsValid a) where
    -- The account that a public key leads to is there.
    pub owner_of_pubkey :
        (key id : ℕ)
        → get key a.pubkeys ≡ some id
        → (account : Account D) × (get id a.accounts ≡ some account)
          × (contains_key key account.pubkeys ≡ true)
    owner_of_pubkey key id e = ground (arith, valid.pubkeys_linked id key)

    owner_of_wallet :
        (wallet id : ℕ)
        → get wallet a.wallets ≡ some id
        → (account : Account D) × (get id a.accounts ≡ some account)
          × (contains_key wallet account.wallets ≡ true)
    owner_of_wallet wallet id e = ground (arith, valid.wallets_linked id wallet)

    add_account-IsValid : (id : ℕ) → IsValid (add_account id a)
    unfolding add_account
    add_account-IsValid id =
        store-IsValid a valid id _ (get_or_default-IsValidAccount a valid id) refl refl

    -- A found account is valid, and is what `get_or_default` returns.
    found_account :
        (id : ℕ) (account : Account D)
        → get id a.accounts ≡ some account
        → (get_or_default id a.accounts ≡ account) × IsValidAccount account
    found_account id account e = (
      rw (e, get_or_default) refl,
      rw (e, get_or_default) at (get_or_default-IsValidAccount a valid id),
    )

    -- With its nonce raised an account stays valid.
    bump_nonce-IsValidAccount :
        (account : Account D) → IsValidAccount account → IsValidAccount (bump_nonce account)
    bump_nonce-IsValidAccount account v = ground arith

    link_pubkey_found :
        (id key : ℕ) (account : Account D)
        → get key a.pubkeys ≡ none
        → get id a.accounts ≡ some account
        → IsValid (link_pubkey id key account a)
    link_pubkey_found id key account unused e =
        let (same, valid_account) = found_account id account e in
        link_pubkey-IsValid a valid id key account unused valid_account
          (ap (λ (x : Account D). x.pubkeys) (sym same))
          (ap (λ (x : Account D). x.wallets) (sym same))

    link_wallet_found :
        (id wallet : ℕ) (account : Account D)
        → get wallet a.wallets ≡ none
        → get id a.accounts ≡ some account
        → IsValid (link_wallet id wallet account a)
    link_wallet_found id wallet account unused e =
        let (same, valid_account) = found_account id account e in
        link_wallet-IsValid a valid id wallet account unused valid_account
          (ap (λ (x : Account D). x.wallets) (sym same))
          (ap (λ (x : Account D). x.pubkeys) (sym same))

    -- A new key or wallet with whatever account `get_or_default` returns.
    link_pubkey_default :
        (id key : ℕ)
        → get key a.pubkeys ≡ none
        → IsValid (link_pubkey id key (get_or_default id a.accounts) a)
    link_pubkey_default id key unused =
        link_pubkey-IsValid a valid id key _ unused (get_or_default-IsValidAccount a valid id) refl
          refl

    link_wallet_default :
        (id wallet : ℕ)
        → get wallet a.wallets ≡ none
        → IsValid (link_wallet id wallet (get_or_default id a.accounts) a)
    link_wallet_default id wallet unused =
        link_wallet-IsValid a valid id wallet _ unused (get_or_default-IsValidAccount a valid id)
          refl refl

    store_bumped :
        (id : ℕ) (account : Account D)
        → get id a.accounts ≡ some account
        → IsValid (store id (bump_nonce account) a)
    store_bumped id account e =
        let (same, valid_account) = found_account id account e in
        store-IsValid a valid id (bump_nonce account)
          (bump_nonce-IsValidAccount account valid_account)
          (ap (λ (x : Account D). x.pubkeys) (sym same))
          (ap (λ (x : Account D). x.wallets) (sym same))

    link_pubkey_bumped :
        (id key : ℕ)
        → get key a.pubkeys ≡ none
        → IsValid (link_pubkey id key (bump_nonce (get_or_default id a.accounts)) a)
    link_pubkey_bumped id key unused =
        link_pubkey-IsValid a valid id key _ unused
          (bump_nonce-IsValidAccount _ (get_or_default-IsValidAccount a valid id)) refl refl

    -- In a valid state `add_pubkey_to_account_error_overlap` ends in a valid state if it
    -- succeeds, and does not panic if it fails.
    pub add_pubkey_to_account_error_overlap-IsSound :
        (id key : ℕ) → IsSound (add_pubkey_to_account_error_overlap id key a)
    unfolding add_pubkey_to_account_error_overlap contains_key
    add_pubkey_to_account_error_overlap-IsSound id key = grind (arith, link_pubkey_found id key)

    -- It may panic, but only if the account is missing.
    pub add_pubkey_to_account_ignore_overlap-IsValid :
        (id key : ℕ) → IsValid (add_pubkey_to_account_ignore_overlap id key a).1
    unfolding add_pubkey_to_account_ignore_overlap contains_key
    add_pubkey_to_account_ignore_overlap-IsValid id key = grind (arith, link_pubkey_found id key)

    get_or_add_account_for_key-IsValid : (key : ℕ) → IsValid (get_or_add_account_for_key key a).1
    unfolding get_or_add_account_for_key
    get_or_add_account_for_key-IsValid key =
        ground (arith, link_pubkey_default (get_next_account_id a) key)

    -- In a valid state `get_or_add_account_for_wallet` ends in a valid state if it
    -- succeeds, and does not panic if it fails.
    pub get_or_add_account_for_wallet-IsSound :
        (wallet : ℕ) → IsSound (get_or_add_account_for_wallet wallet a)
    unfolding get_or_add_account_for_wallet
    get_or_add_account_for_wallet-IsSound wallet = elim (Option-cases (get wallet a.wallets)) [
      | inl e ↦ ground (arith, link_wallet_default (get_next_account_id a) wallet e)
      | inr (owner, e) ↦
          let (account, found, holds) = owner_of_wallet wallet owner e in ground arith
    ]

    -- In a valid state `add_wallet_to_account` ends in a valid state if it
    -- succeeds, and does not panic if it fails.
    pub add_wallet_to_account-IsSound :
        (id wallet : ℕ) → IsSound (add_wallet_to_account id wallet a)
    unfolding add_wallet_to_account contains_key
    add_wallet_to_account-IsSound id wallet = grind (arith, link_wallet_found id wallet)

    -- In a valid state `use_nonce` ends in a valid state if it
    -- succeeds, and does not panic if it fails.
    pub use_nonce-IsSound : (key nonce : ℕ) → IsSound (use_nonce key nonce a)
    unfolding use_nonce
    use_nonce-IsSound key nonce = elim (Option-cases (get key a.pubkeys)) [
      | inl e ↦ ground (arith, link_pubkey_bumped (get_next_account_id a) key e)
      | inr (owner, e) ↦
          let (account, found, holds) = owner_of_pubkey key owner e in
          ground (arith, store_bumped owner account found)
    ]

    -- In a valid state `remove_pubkey_from_account` ends in a valid state if it
    -- succeeds, and does not panic if it fails.
    pub remove_pubkey_from_account-IsSound :
        (id key : ℕ) → IsSound (remove_pubkey_from_account id key a)
    unfolding remove_pubkey_from_account
    remove_pubkey_from_account-IsSound id key = elim (Option-cases (get key a.pubkeys)) [
      | inl e ↦ ground arith
      | inr (owner, e) ↦
          let (account, found, holds) = owner_of_pubkey key owner e in
          ground (arith, unlink_pubkey-IsValid a valid owner key account e found)
    ]

    -- In a valid state `remove_wallet_from_account` ends in a valid state if it
    -- succeeds, and does not panic if it fails.
    pub remove_wallet_from_account-IsSound :
        (id wallet : ℕ) → IsSound (remove_wallet_from_account id wallet a)
    unfolding remove_wallet_from_account
    remove_wallet_from_account-IsSound id wallet = elim (Option-cases (get wallet a.wallets)) [
      | inl e ↦ ground arith
      | inr (owner, e) ↦
          let (account, found, holds) = owner_of_wallet wallet owner e in
          ground (arith, unlink_wallet-IsValid a valid owner wallet account e found)
    ]
