-- ===== src/Accounts/Links.antt =====
-- Giving a key or a wallet to an account, and taking it away, keeps the reverse lookups in step.
use kolme.Prelude.{ℕ, ◌≡◌, none, some, arith}
use kolme.BTreeMap.{get, insert, remove}
use kolme.BTreeMap.Laws.{get-insert, contains_key-insert, contains_key-remove}
use kolme.BTreeMap.Order.{insert-IsSorted, remove-IsSorted, get-remove}
use kolme.BTreeMap.All.{All-get, All-insert}
use kolme.Types.Decimal.{DecimalOps}
use kolme.Accounts.{Account, Accounts, store, get_or_default}
use kolme.Accounts.Keys.{link_pubkey, link_wallet}
use kolme.Accounts.Invariant.{
  IsValidAccount, IsValid, get_or_default_pubkeys, get_or_default_wallets,
}

module _ {D : Type 0} ⦃ops : DecimalOps D⦄ where
  module _ (a : Accounts D) (valid : IsValid a) (id : ℕ) where
    -- A key that no account has may be given to any account.
    pub link_pubkey-IsValid :
        (key : ℕ) (account : Account D)
        → get key a.pubkeys ≡ none
        → IsValidAccount account
        → account.pubkeys ≡ (get_or_default id a.accounts).pubkeys
        → account.wallets ≡ (get_or_default id a.accounts).wallets
        → IsValid (link_pubkey id key account a)
    link_pubkey-IsValid key account unused valid_account same_pubkeys same_wallets = record {
      accounts_sorted = insert-IsSorted id _ a.accounts valid.accounts_sorted;
      wallets_sorted = valid.wallets_sorted;
      pubkeys_sorted = insert-IsSorted key id a.pubkeys valid.pubkeys_sorted;
      accounts_valid =
          All-insert IsValidAccount id _ a.accounts
            (record {
              assets_sorted = valid_account.assets_sorted;
              wallets_sorted = valid_account.wallets_sorted;
              pubkeys_sorted = insert-IsSorted key tt account.pubkeys valid_account.pubkeys_sorted;
              balances_positive = valid_account.balances_positive;
            })
            valid.accounts_valid;
      pubkeys_linked = λ j k. ground (
        arith,
        get-insert j id (record account { pubkeys = insert key tt account.pubkeys }) a.accounts,
        get-insert k key id a.pubkeys,
        contains_key-insert k key tt account.pubkeys,
        valid.pubkeys_linked j k,
        get_or_default_pubkeys a valid id k,
        same_pubkeys,
      );
      wallets_linked = λ j wallet. ground (
        arith,
        get-insert j id (record account { pubkeys = insert key tt account.pubkeys }) a.accounts,
        valid.wallets_linked j wallet,
        get_or_default_wallets a valid id wallet,
        same_wallets,
      );
    }

    -- A key that no account has may be given to any account.
    pub link_wallet-IsValid :
        (key : ℕ) (account : Account D)
        → get key a.wallets ≡ none
        → IsValidAccount account
        → account.wallets ≡ (get_or_default id a.accounts).wallets
        → account.pubkeys ≡ (get_or_default id a.accounts).pubkeys
        → IsValid (link_wallet id key account a)
    link_wallet-IsValid key account unused valid_account same_wallets same_pubkeys = record {
      accounts_sorted = insert-IsSorted id _ a.accounts valid.accounts_sorted;
      pubkeys_sorted = valid.pubkeys_sorted;
      wallets_sorted = insert-IsSorted key id a.wallets valid.wallets_sorted;
      accounts_valid =
          All-insert IsValidAccount id _ a.accounts
            (record {
              assets_sorted = valid_account.assets_sorted;
              pubkeys_sorted = valid_account.pubkeys_sorted;
              wallets_sorted = insert-IsSorted key tt account.wallets valid_account.wallets_sorted;
              balances_positive = valid_account.balances_positive;
            })
            valid.accounts_valid;
      wallets_linked = λ j k. ground (
        arith,
        get-insert j id (record account { wallets = insert key tt account.wallets }) a.accounts,
        get-insert k key id a.wallets,
        contains_key-insert k key tt account.wallets,
        valid.wallets_linked j k,
        get_or_default_wallets a valid id k,
        same_wallets,
      );
      pubkeys_linked = λ j pubkey. ground (
        arith,
        get-insert j id (record account { wallets = insert key tt account.wallets }) a.accounts,
        valid.pubkeys_linked j pubkey,
        get_or_default_pubkeys a valid id pubkey,
        same_pubkeys,
      );
    }

    -- A key is taken from the account that has it, and from the reverse lookup.
    pub unlink_pubkey-IsValid :
        (key : ℕ) (account : Account D)
        → get key a.pubkeys ≡ some id
        → get id a.accounts ≡ some account
        → IsValid (
            store id
              (record account { pubkeys = remove key account.pubkeys })
              (record a { pubkeys = remove key a.pubkeys }))
    unlink_pubkey-IsValid key account owned found =
        let valid_account =
          All-get IsValidAccount id account a.accounts valid.accounts_valid found in
        record {
          accounts_sorted = insert-IsSorted id _ a.accounts valid.accounts_sorted;
          wallets_sorted = valid.wallets_sorted;
          pubkeys_sorted = remove-IsSorted key a.pubkeys valid.pubkeys_sorted;
          accounts_valid =
              All-insert IsValidAccount id _ a.accounts
                (record {
                  assets_sorted = valid_account.assets_sorted;
                  wallets_sorted = valid_account.wallets_sorted;
                  pubkeys_sorted = remove-IsSorted key account.pubkeys valid_account.pubkeys_sorted;
                  balances_positive = valid_account.balances_positive;
                })
                valid.accounts_valid;
          pubkeys_linked = λ j k. ground (
            arith,
            get-insert j id (record account { pubkeys = remove key account.pubkeys }) a.accounts,
            get-remove k key a.pubkeys valid.pubkeys_sorted,
            contains_key-remove k key account.pubkeys valid_account.pubkeys_sorted,
            valid.pubkeys_linked j k,
            valid.pubkeys_linked id k,
          );
          wallets_linked = λ j wallet. ground (
            arith,
            get-insert j id (record account { pubkeys = remove key account.pubkeys }) a.accounts,
            valid.wallets_linked j wallet,
            valid.wallets_linked id wallet,
          );
        }

    -- A key is taken from the account that has it, and from the reverse lookup.
    pub unlink_wallet-IsValid :
        (key : ℕ) (account : Account D)
        → get key a.wallets ≡ some id
        → get id a.accounts ≡ some account
        → IsValid (
            store id
              (record account { wallets = remove key account.wallets })
              (record a { wallets = remove key a.wallets }))
    unlink_wallet-IsValid key account owned found =
        let valid_account =
          All-get IsValidAccount id account a.accounts valid.accounts_valid found in
        record {
          accounts_sorted = insert-IsSorted id _ a.accounts valid.accounts_sorted;
          pubkeys_sorted = valid.pubkeys_sorted;
          wallets_sorted = remove-IsSorted key a.wallets valid.wallets_sorted;
          accounts_valid =
              All-insert IsValidAccount id _ a.accounts
                (record {
                  assets_sorted = valid_account.assets_sorted;
                  pubkeys_sorted = valid_account.pubkeys_sorted;
                  wallets_sorted = remove-IsSorted key account.wallets valid_account.wallets_sorted;
                  balances_positive = valid_account.balances_positive;
                })
                valid.accounts_valid;
          wallets_linked = λ j k. ground (
            arith,
            get-insert j id (record account { wallets = remove key account.wallets }) a.accounts,
            get-remove k key a.wallets valid.wallets_sorted,
            contains_key-remove k key account.wallets valid_account.wallets_sorted,
            valid.wallets_linked j k,
            valid.wallets_linked id k,
          );
          pubkeys_linked = λ j pubkey. ground (
            arith,
            get-insert j id (record account { wallets = remove key account.wallets }) a.accounts,
            valid.pubkeys_linked j pubkey,
            valid.pubkeys_linked id pubkey,
          );
        }
