-- ===== src/Accounts/Reindex.antt =====
-- The two loops of the deserialization of `Accounts`, that of the wallets and public keys of an
-- account and that of the accounts, on accounts that agree with some lookups.
use kolme.Prelude.{
  ℕ, ◌≡◌, refl, ◌∙◌, true, false, none, some, [], ◌∷◌, arith, ◌==◌, inl, inr, if◌then◌else◌, ok,
  Option-cases,
}
use kolme.BTreeMap.{BTreeMap, BTreeSet, get, insert, contains_key}
use kolme.BTreeMap.Laws.{get-insert, contains_key-nil}
use kolme.BTreeMap.Order.{IsAbove, IsSorted, insert-IsSorted, get-IsAbove}
use kolme.BTreeMap.All.{AllEntries}
use kolme.Types.{Error, pubkey_used_twice, wallet_used_twice}
use kolme.Accounts.{Account}
use kolme.Accounts.Restore.{index_keys, index_accounts}

contains_key-cons {ℓ} :
    {V : Type ℓ} (i k : ℕ) (v : V) (m : BTreeMap V)
    → contains_key i ((k, v) ∷ m) ≡ (if i == k then true else contains_key i m)
unfolding contains_key get
contains_key-cons i k v m = ground arith

contains_key-IsAbove {ℓ} :
    {V : Type ℓ} (k : ℕ) (m : BTreeMap V) → IsAbove k m → contains_key k m ≡ false
unfolding contains_key
contains_key-IsAbove k m a = ground (arith, get-IsAbove k k m a)

module _ {D : Type 0} (used_twice : ℕ → ℕ → ℕ → Error D) (id : ℕ) where
  -- The outcome of indexing keys none of which was there: each leads to the account, and the
  -- lookup reads as before elsewhere.
  abbrev Indexed : BTreeSet → BTreeMap ℕ → Type 0
  Indexed keys lookup =
      (lookup' : BTreeMap ℕ) × (index_keys used_twice id keys lookup ≡ ok lookup')
      × IsSorted lookup'
      × ((k : ℕ) → get k lookup' ≡ (if contains_key k keys then some id else get k lookup))

  index_keys-Indexed :
      (keys : BTreeSet) (lookup : BTreeMap ℕ)
      → IsSorted keys
      → IsSorted lookup
      → ((k : ℕ) → contains_key k keys ≡ true → get k lookup ≡ none)
      → Indexed keys lookup
  unfolding index_keys
  index_keys-Indexed [] lookup s t unused =
      (lookup, refl, t, λ k. rw (contains_key-nil (Unit {0}) k) refl)
  index_keys-Indexed ((key, v) ∷ keys) lookup s t unused =
      let next_unused : (k : ℕ) → contains_key k keys ≡ true → get k (insert key id lookup) ≡ none =
        λ k h. ground (
          arith,
          unused k,
          contains_key-cons k key v keys,
          get-insert k key id lookup,
          contains_key-IsAbove key keys s.0,
        ) in
      let (lookup', done, sorted, reads) =
        index_keys-Indexed keys (insert key id lookup) s.1 (insert-IsSorted key id lookup t)
          next_unused in
      (
        lookup',
        ground (arith, unused key, contains_key-cons key key v keys, done),
        sorted,
        λ k. ground (
          arith,
          reads k,
          contains_key-cons k key v keys,
          get-insert k key id lookup,
          contains_key-IsAbove key keys s.0,
        ),
      )

-- One of the two lookups in the loop over the accounts: `full` is the lookup to rebuild, and the
-- one under construction has the keys of the accounts that are no longer to come.
module _ {D : Type 0} (keys_of : Account D → BTreeSet) (full : BTreeMap ℕ) where
  abbrev Holds : ℕ → Account D → Type 0
  Holds id account =
      (k : ℕ)
      → contains_key k (keys_of account)
        ≡ (elim (get k full) [ none ↦ false | some owner ↦ owner == id ])

  abbrev pub Pending : BTreeMap (Account D) → BTreeMap ℕ → Type 0
  Pending rest lookup =
      (k : ℕ)
      → get k lookup ≡ (elim (get k full) [
        | none ↦ none
        | some owner ↦ if contains_key owner rest then none else some owner
      ])

  Pending-unused :
      (id : ℕ) (account : Account D) (rest : BTreeMap (Account D)) (lookup : BTreeMap ℕ)
      → Pending ((id, account) ∷ rest) lookup
      → Holds id account
      → (k : ℕ) → contains_key k (keys_of account) ≡ true
      → get k lookup ≡ none
  unfolding contains_key get
  Pending-unused id account rest lookup p l k h = ground (arith, p k, l k)

  Pending-next :
      (id : ℕ) (account : Account D) (rest : BTreeMap (Account D)) (lookup lookup' : BTreeMap ℕ)
      → IsAbove id rest
      → Pending ((id, account) ∷ rest) lookup
      → Holds id account
      → ((k : ℕ)
          → get k lookup' ≡ (if contains_key k (keys_of account) then some id else get k lookup))
      → Pending rest lookup'
  Pending-next id account rest lookup lookup' above p l reads k = elim (Option-cases (get k full)) [
    | inl e ↦ ground (arith, reads k, l k, p k)
    | inr (owner, e) ↦ ground (
      arith,
      reads k,
      l k,
      p k,
      contains_key-cons owner id account rest,
      contains_key-IsAbove id rest above,
    )
  ]

abbrev pub wallets_of : {D : Type 0} → Account D → BTreeSet
wallets_of account = account.wallets

abbrev pub pubkeys_of : {D : Type 0} → Account D → BTreeSet
pubkeys_of account = account.pubkeys

index_accounts_step :
    {D : Type 0} (id : ℕ) (account : Account D) (rest : BTreeMap (Account D))
    (wallets pubkeys wallets' pubkeys' : BTreeMap ℕ)
    → index_keys {D = D} wallet_used_twice id account.wallets wallets ≡ ok wallets'
    → index_keys {D = D} pubkey_used_twice id account.pubkeys pubkeys ≡ ok pubkeys'
    → index_accounts ((id, account) ∷ rest) wallets pubkeys ≡ index_accounts rest wallets' pubkeys'
unfolding index_accounts
index_accounts_step id account rest wallets pubkeys wallets' pubkeys' w p = ground (arith, w, p)

module _ {D : Type 0} (full_wallets full_pubkeys : BTreeMap ℕ) where
  -- What an account of a valid state has to offer to the loop.
  pub record Entry (id : ℕ) (account : Account D) : Type 0 where
    pub wallets_sorted : IsSorted account.wallets
    pub pubkeys_sorted : IsSorted account.pubkeys
    pub holds_wallets : Holds wallets_of full_wallets id account
    pub holds_pubkeys : Holds pubkeys_of full_pubkeys id account

  -- The loop succeeds, and no key is left to come.
  abbrev pub Rebuilt : BTreeMap (Account D) → BTreeMap ℕ → BTreeMap ℕ → Type 0
  Rebuilt rest wallets pubkeys =
      (wallets' : BTreeMap ℕ) × (pubkeys' : BTreeMap ℕ) × (index_accounts rest wallets pubkeys
        ≡ ok (wallets', pubkeys'))
      × (IsSorted wallets' × Pending {D = D} wallets_of full_wallets [] wallets')
      × (IsSorted pubkeys' × Pending {D = D} pubkeys_of full_pubkeys [] pubkeys')

  pub index_accounts-Rebuilt :
      (rest : BTreeMap (Account D)) (wallets pubkeys : BTreeMap ℕ)
      → IsSorted rest
      → AllEntries Entry rest
      → IsSorted wallets × Pending wallets_of full_wallets rest wallets
      → IsSorted pubkeys × Pending pubkeys_of full_pubkeys rest pubkeys
      → Rebuilt rest wallets pubkeys
  unfolding index_accounts
  index_accounts-Rebuilt [] wallets pubkeys s entries w p = (wallets, pubkeys, refl, w, p)
  index_accounts-Rebuilt ((id, account) ∷ rest) wallets pubkeys s (entry, entries) w p =
      let (wallets', w_done, w_sorted, w_reads) =
        index_keys-Indexed {D = D} wallet_used_twice id account.wallets wallets entry.wallets_sorted
          w.0
          (Pending-unused wallets_of full_wallets id account rest wallets w.1
            entry.holds_wallets) in
      let (pubkeys', p_done, p_sorted, p_reads) =
        index_keys-Indexed {D = D} pubkey_used_twice id account.pubkeys pubkeys entry.pubkeys_sorted
          p.0
          (Pending-unused pubkeys_of full_pubkeys id account rest pubkeys p.1
            entry.holds_pubkeys) in
      let (wallets'', pubkeys'', done, w'', p'') =
        index_accounts-Rebuilt rest wallets' pubkeys' s.1 entries
          (
            w_sorted,
            Pending-next wallets_of full_wallets id account rest wallets wallets' s.0 w.1
                entry.holds_wallets w_reads,
          )
          (
            p_sorted,
            Pending-next pubkeys_of full_pubkeys id account rest pubkeys pubkeys' s.0 p.1
                entry.holds_pubkeys p_reads,
          ) in
      (
        wallets'',
        pubkeys'',
        index_accounts_step id account rest _ _ _ _ w_done p_done ∙ done,
        w'',
        p'',
      )
