-- ===== src/Accounts/RoundTrip.antt =====
-- Deserialization rebuilds the reverse lookups that serialization leaves out.
use kolme.Prelude.{ℕ, ◌≡◌, some, [], arith, inl, inr, ok, Option-cases}
use kolme.BTreeMap.{BTreeMap, BTreeSet, get, contains_key}
use kolme.BTreeMap.Laws.{get-nil, contains_key-nil}
use kolme.BTreeMap.Order.{IsSorted}
use kolme.BTreeMap.All.{AllEntries-of_get, All-get}
use kolme.BTreeMap.Ext.{map_ext}
use kolme.Types.Decimal.{DecimalOps}
use kolme.Accounts.{Account, Accounts}
use kolme.Accounts.Restore.{merkle_serialize, merkle_deserialize}
use kolme.Accounts.Invariant.{IsValid, IsValidAccount}
use kolme.Accounts.Reindex.{wallets_of, pubkeys_of, Pending, Entry, Rebuilt, index_accounts-Rebuilt}

module _ {D : Type 0} (keys_of : Account D → BTreeSet) (full : BTreeMap ℕ) where
  -- Once no account is to come, the lookup under construction is the whole one.
  full_of_Pending :
      (lookup : BTreeMap ℕ)
      → IsSorted lookup
      → IsSorted full
      → Pending {D = D} keys_of full [] lookup
      → lookup ≡ full
  full_of_Pending lookup s t p = map_ext lookup full s t reads
    where
      reads : (k : ℕ) → get k lookup ≡ get k full
      reads k = elim (Option-cases (get k full)) [
        | inl e ↦ ground (arith, p k)
        | inr (owner, e) ↦ ground (arith, p k, contains_key-nil (Account D) owner)
      ]

module _ {D : Type 0} ⦃ops : DecimalOps D⦄ (a : Accounts D) (valid : IsValid a) where
  entry :
      (id : ℕ) (account : Account D)
      → get id a.accounts ≡ some account
      → Entry a.wallets a.pubkeys id account
  entry id account e =
      let valid_account = All-get IsValidAccount id account a.accounts valid.accounts_valid e in
      record {
        wallets_sorted = valid_account.wallets_sorted;
        pubkeys_sorted = valid_account.pubkeys_sorted;
        holds_wallets = λ k. ground (arith, e, valid.wallets_linked id k);
        holds_pubkeys = λ k. ground (arith, e, valid.pubkeys_linked id k);
      }

  -- At the start every owner is to come.
  wallets_start : Pending wallets_of a.wallets a.accounts []
  unfolding contains_key
  wallets_start k = elim (Option-cases (get k a.wallets)) [
    | inl e ↦ ground (arith, get-nil ℕ k)
    | inr (owner, e) ↦ ground (arith, get-nil ℕ k, valid.wallets_linked owner k)
  ]

  pubkeys_start : Pending pubkeys_of a.pubkeys a.accounts []
  unfolding contains_key
  pubkeys_start k = elim (Option-cases (get k a.pubkeys)) [
    | inl e ↦ ground (arith, get-nil ℕ k)
    | inr (owner, e) ↦ ground (arith, get-nil ℕ k, valid.pubkeys_linked owner k)
  ]

  rebuilt : Rebuilt a.wallets a.pubkeys a.accounts [] []
  rebuilt =
      index_accounts-Rebuilt a.wallets a.pubkeys a.accounts [] [] valid.accounts_sorted
        (AllEntries-of_get (Entry a.wallets a.pubkeys) a.accounts valid.accounts_sorted entry)
        (tt, wallets_start) (tt, pubkeys_start)

  -- Serializing a valid state and deserializing the result gives back the same state, reverse
  -- lookups included.
  pub merkle_deserialize-serialize : merkle_deserialize (merkle_serialize a) ≡ ok a
  unfolding merkle_deserialize merkle_serialize
  merkle_deserialize-serialize =
      let (wallets, pubkeys, done, (ws, wp), (ps, pp)) = rebuilt in
      let same_wallets = full_of_Pending wallets_of a.wallets wallets ws valid.wallets_sorted wp in
      let same_pubkeys = full_of_Pending pubkeys_of a.pubkeys pubkeys ps valid.pubkeys_sorted pp in
      ground (arith, done, same_wallets, same_pubkeys)
