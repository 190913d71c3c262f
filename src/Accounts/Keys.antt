-- ===== src/Accounts/Keys.antt =====
-- packages/kolme/src/core/types/accounts.rs: the methods of `Accounts` on public keys, wallets and
-- nonces.
use kolme.Prelude.{ℕ, Option, none, some, Result, ok, err, Action, ◌==◌, if◌then◌else◌, next}
use kolme.BTreeMap.{get, contains_key, insert, remove}
use kolme.Types.{
  Error, panic, invalid_nonce, invalid_initial_nonce, pubkey_in_use, wallet_in_use,
  account_not_found, unknown_pubkey, unknown_wallet, pubkey_of_other, wallet_of_other,
}
use kolme.Accounts.{Account, Accounts, store, get_or_default, get_next_account_id}

module _ {D : Type 0} where
  -- The two insertions that give an account a public key: `self.pubkeys.insert(key, account_id)`
  -- and `account.pubkeys.insert(key)`.
  abbrev pub link_pubkey : ℕ → ℕ → Account D → Accounts D → Accounts D
  link_pubkey id key account a = record a {
    accounts = insert id (record account { pubkeys = insert key tt account.pubkeys }) a.accounts;
    pubkeys = insert key id a.pubkeys;
  }

  abbrev pub link_wallet : ℕ → ℕ → Account D → Accounts D → Accounts D
  link_wallet id wallet account a = record a {
    accounts = insert id (record account { wallets = insert wallet tt account.wallets }) a.accounts;
    wallets = insert wallet id a.wallets;
  }

  unfoldable pub add_pubkey_to_account_error_overlap :
      ℕ → ℕ → Action (Accounts D) (Error D) (Unit {0})
  add_pubkey_to_account_error_overlap id key a =
      if contains_key key a.pubkeys
      then (err (pubkey_in_use key), a)
      else elim (get id a.accounts) [
        | none ↦ (err (account_not_found id), a)
        | some account ↦ (ok tt, link_pubkey id key account a)
      ]

  -- It panics if there is no such account.
  unfoldable pub add_pubkey_to_account_ignore_overlap :
      ℕ → ℕ → Action (Accounts D) (Error D) (Unit {0})
  add_pubkey_to_account_ignore_overlap id key a =
      if contains_key key a.pubkeys then (ok tt, a) else elim (get id a.accounts) [
        | none ↦ (err panic, a)
        | some account ↦ (ok tt, link_pubkey id key account a)
      ]

  unfoldable pub get_or_add_account_for_key : ℕ → Accounts D → ℕ × Accounts D
  unfolding get_next_account_id
  get_or_add_account_for_key key a = elim (get key a.pubkeys) [
    | some id ↦ (id, a)
    | none ↦
        let id = get_next_account_id a in (id, link_pubkey id key (get_or_default id a.accounts) a)
  ]

  -- It panics if the wallet belongs to an account that is not there.
  unfoldable pub get_or_add_account_for_wallet : ℕ → Action (Accounts D) (Error D) ℕ
  unfolding get_next_account_id
  get_or_add_account_for_wallet wallet a = elim (get wallet a.wallets) [
    | some id ↦ elim (get id a.accounts) [ none ↦ (err panic, a) | some account ↦ (ok id, a) ]
    | none ↦
        let id = get_next_account_id a in
        (ok id, link_wallet id wallet (get_or_default id a.accounts) a)
  ]

  -- `get_account_for_key` and `get_account_for_wallet`; `unwrap` panics if the account is missing.
  unfoldable get_account_for_key : ℕ → Accounts D → Result (Error D) (Option (ℕ × Account D))
  get_account_for_key key a = elim (get key a.pubkeys) [
    | none ↦ ok none
    | some id ↦ elim (get id a.accounts) [
      | none ↦ err panic
      | some account ↦ ok (some (id, account))
    ]
  ]

  unfoldable get_account_for_wallet : ℕ → Accounts D → Result (Error D) (Option (ℕ × Account D))
  get_account_for_wallet wallet a = elim (get wallet a.wallets) [
    | none ↦ ok none
    | some id ↦ elim (get id a.accounts) [
      | none ↦ err panic
      | some account ↦ ok (some (id, account))
    ]
  ]

  -- The reverse entry is gone also when the account is refused.
  unfoldable pub remove_pubkey_from_account : ℕ → ℕ → Action (Accounts D) (Error D) (Unit {0})
  remove_pubkey_from_account id key a =
      let removed : Accounts D = record a { pubkeys = remove key a.pubkeys } in
      elim (get key a.pubkeys) [
        | none ↦ (err (unknown_pubkey key), a)
        | some actual_id ↦
            if id == actual_id
            then elim (get id a.accounts) [
              | none ↦ (err panic, removed)
              | some account ↦
                  if contains_key key account.pubkeys
                  then (
                    ok tt,
                    store id (record account { pubkeys = remove key account.pubkeys }) removed,
                  )
                  else (err panic, removed)
            ]
            else (err (pubkey_of_other key id actual_id), removed)
      ]

  unfoldable pub add_wallet_to_account : ℕ → ℕ → Action (Accounts D) (Error D) (Unit {0})
  add_wallet_to_account id wallet a =
      if contains_key wallet a.wallets
      then (err (wallet_in_use wallet), a)
      else elim (get id a.accounts) [
        | none ↦ (err (account_not_found id), a)
        | some account ↦ (ok tt, link_wallet id wallet account a)
      ]

  unfoldable pub remove_wallet_from_account : ℕ → ℕ → Action (Accounts D) (Error D) (Unit {0})
  remove_wallet_from_account id wallet a =
      let removed : Accounts D = record a { wallets = remove wallet a.wallets } in
      elim (get wallet a.wallets) [
        | none ↦ (err (unknown_wallet wallet), a)
        | some actual_id ↦
            if id == actual_id
            then elim (get id a.accounts) [
              | none ↦ (err panic, removed)
              | some account ↦
                  if contains_key wallet account.wallets
                  then (
                    ok tt,
                    store id (record account { wallets = remove wallet account.wallets }) removed,
                  )
                  else (err panic, removed)
            ]
            else (err (wallet_of_other wallet id actual_id), removed)
      ]

  -- `account.next_nonce = account.next_nonce.next()`
  abbrev pub bump_nonce : Account D → Account D
  bump_nonce account = record account { next_nonce = next account.next_nonce }

  unfoldable pub use_nonce : ℕ → ℕ → Action (Accounts D) (Error D) ℕ
  unfolding get_next_account_id
  use_nonce pubkey nonce a = elim (get pubkey a.pubkeys) [
    | some id ↦ elim (get id a.accounts) [
      | none ↦ (err panic, a)
      | some account ↦
          if account.next_nonce == nonce
          then (ok id, store id (bump_nonce account) a)
          else (err (invalid_nonce pubkey id account.next_nonce nonce), a)
    ]
    | none ↦
        let id = get_next_account_id a in
        let account = get_or_default id a.accounts in
        if nonce == account.next_nonce
        then (ok id, link_pubkey id pubkey (bump_nonce account) a)
        else (
          err (invalid_initial_nonce pubkey account.next_nonce nonce),
          link_pubkey id pubkey account a,
        )
  ]
