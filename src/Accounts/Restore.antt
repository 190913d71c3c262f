-- ===== src/Accounts/Restore.antt =====
-- packages/kolme/src/core/types/accounts.rs: `MerkleSerialize` and `MerkleDeserialize` of
-- `Accounts`. Only the accounts are stored; the reverse lookups are built again by two loops.
use kolme.Prelude.{ℕ, none, some, [], ◌∷◌, Result, ok, err}
use kolme.BTreeMap.{BTreeMap, BTreeSet, get, insert}
use kolme.Types.{Error, wallet_used_twice, pubkey_used_twice}
use kolme.Accounts.{Account, Accounts}

module _ {D : Type 0} where
  -- `for key in keys { if let Some((_, id2)) = lookup.insert(key, id) { return Err(..) } }`
  unfoldable pub index_keys :
      (ℕ → ℕ → ℕ → Error D) → ℕ → BTreeSet → BTreeMap ℕ → Result (Error D) (BTreeMap ℕ)
  index_keys used_twice id [] lookup = ok lookup
  index_keys used_twice id ((key, _) ∷ keys) lookup =
      let rest = index_keys used_twice id keys (insert key id lookup) in
      elim (get key lookup) [ none ↦ rest | some id2 ↦ err (used_twice key id id2) ]

  -- `for (id, account) in &accounts { .. }`, on the two lookups under construction.
  unfoldable pub index_accounts :
      BTreeMap (Account D) → BTreeMap ℕ → BTreeMap ℕ → Result (Error D) (BTreeMap ℕ × BTreeMap ℕ)
  index_accounts [] wallets pubkeys = ok (wallets, pubkeys)
  index_accounts ((id, account) ∷ accounts) wallets pubkeys =
      elim (index_keys wallet_used_twice id account.wallets wallets) [
        | err e ↦ err e
        | ok wallets' ↦ elim (index_keys pubkey_used_twice id account.pubkeys pubkeys) [
          | err e ↦ err e
          | ok pubkeys' ↦ index_accounts accounts wallets' pubkeys'
        ]
      ]

  unfoldable pub merkle_serialize : Accounts D → BTreeMap (Account D)
  merkle_serialize a = a.accounts

  unfoldable pub merkle_deserialize : BTreeMap (Account D) → Result (Error D) (Accounts D)
  merkle_deserialize accounts = elim (index_accounts accounts [] []) [
    | err e ↦ err e
    | ok (wallets, pubkeys) ↦
        ok (record { accounts = accounts; wallets = wallets; pubkeys = pubkeys })
  ]
