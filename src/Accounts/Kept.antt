-- ===== src/Accounts/Kept.antt =====
-- Which account a key is linked to, and the nonce of that account, under the methods on keys.
pub mod Assets
use kolme.Prelude.{
  ◌∙◌, ℕ, suc, ◌+◌, ◌≤◌, ◌<◌, ◌≡◌, ◌≢◌, ◌⊎◌, refl, false, List, [], ◌∷◌, length, arith, inl, inr,
  Option, none, some, Option-cases, Bool-cases, Ordering-cases, Result, ok, err, is_ok, next,
  u64_mod, subst, ◌==◌, if◌then◌else◌,
}
use kolme.BTreeMap.{BTreeMap, get, insert, remove, contains_key}
use kolme.BTreeMap.Laws.{get-insert}
use kolme.Types.{Error}
use kolme.Types.Decimal.{DecimalOps}
use kolme.Accounts.{
  Account, Accounts, store, get_or_default, get_next_account_id, mint, burn, burn_from,
  not_positive,
}
use kolme.Accounts.Keys.{
  use_nonce, link_pubkey, bump_nonce, remove_pubkey_from_account,
  add_pubkey_to_account_error_overlap, add_wallet_to_account, remove_wallet_from_account,
  add_pubkey_to_account_ignore_overlap, get_or_add_account_for_key, get_or_add_account_for_wallet,
}
use kolme.Accounts.Invariant.{IsValid}
use kolme.Accounts.Nonces.{NonceUsed, use_nonce-NonceUsed}
use kolme.Accounts.Supply.{Wrote, mint-Wrote}

get-remove_other : {V : Type 0} (j k : ℕ) (m : BTreeMap V) → j ≢ k → get j (remove k m) ≡ get j m
unfolding get remove
get-remove_other j k [] h = refl
get-remove_other j k ((i, v) ∷ m) h = ground (arith, h, get-remove_other j k m h)

module _ {D : Type 0} ⦃ops : DecimalOps D⦄ where
  abbrev pub nonce_of : ℕ → Accounts D → ℕ
  nonce_of id a = (get_or_default id a.accounts).next_nonce

  nonce_of-store :
      (id j : ℕ) (account : Account D) (a : Accounts D)
      → nonce_of id (store j account a) ≡ (if id == j then account.next_nonce else nonce_of id a)
  nonce_of-store id j account a = ground (arith, get-insert id j account a.accounts)

  -- The key stays with its account, whose nonce stays or moves on.
  abbrev pub IsKept : ℕ → ℕ → Accounts D → Accounts D → Type 0
  IsKept key id a a' =
      (get key a'.pubkeys ≡ some id)
      × ((nonce_of id a' ≡ nonce_of id a) ⊎ (nonce_of id a' ≡ next (nonce_of id a)))

  -- Any link of a new key.
  link_pubkey-IsKept :
      (key id j k : ℕ) (account : Account D) (a : Accounts D)
      → get key a.pubkeys ≡ some id
      → get k a.pubkeys ≡ none
      → (account.next_nonce ≡ nonce_of j a) ⊎ (account.next_nonce ≡ next (nonce_of j a))
      → IsKept key id a (link_pubkey j k account a)
  link_pubkey-IsKept key id j k account a h new n = ground (
    arith,
    h,
    new,
    n,
    get-insert key k j a.pubkeys,
    nonce_of-store id j (record account { pubkeys = insert k tt account.pubkeys }) a,
  )

  -- Any write of an account that keeps its nonce, and leaves this key.
  pub store-IsKept :
      (key id j : ℕ) (account : Account D) (a a' : Accounts D)
      → get key a'.pubkeys ≡ some id
      → a'.accounts ≡ a.accounts
      → (account.next_nonce ≡ nonce_of j a) ⊎ (account.next_nonce ≡ next (nonce_of j a))
      → IsKept key id a (store j account a')
  store-IsKept key id j account a a' h same n =
      ground (arith, h, same, n, get-insert id j account a'.accounts)

  pub uses-IsKept :
      (key id k nonce : ℕ) (a : Accounts D)
      → get key a.pubkeys ≡ some id
      → IsKept key id a (use_nonce k nonce a).1
  unfolding use_nonce
  uses-IsKept key id k nonce a h = elim (Option-cases (get k a.pubkeys)) [
    | inl e ↦
        let j = get_next_account_id a in
        let account = get_or_default j a.accounts in
        ground (
          arith,
          e,
          link_pubkey-IsKept key id j k account a h e (inl refl),
          link_pubkey-IsKept key id j k (bump_nonce account) a h e (inr refl),
        )
    | inr (j, e) ↦ elim (Option-cases (get j a.accounts)) [
      | inl f ↦ ground (arith, e, f, h)
      | inr (account, f) ↦ ground (
        arith,
        e,
        f,
        h,
        store-IsKept key id j (bump_nonce account) a a h refl (inr (ground (arith, f))),
      )
    ]
  ]

  pub adds_pubkey-IsKept :
      (key id j k : ℕ) (a : Accounts D)
      → get key a.pubkeys ≡ some id
      → IsKept key id a (add_pubkey_to_account_error_overlap j k a).1
  unfolding add_pubkey_to_account_error_overlap contains_key
  adds_pubkey-IsKept key id j k a h = elim (Option-cases (get k a.pubkeys)) [
    | inr (i, e) ↦ ground (arith, e, h)
    | inl e ↦ elim (Option-cases (get j a.accounts)) [
      | inl f ↦ ground (arith, e, f, h)
      | inr (account, f) ↦
          ground
            (arith, e, f, link_pubkey-IsKept key id j k account a h e (inl (ground (arith, f))))
    ]
  ]

  pub adds_pubkey_ignoring-IsKept :
      (key id j k : ℕ) (a : Accounts D)
      → get key a.pubkeys ≡ some id
      → IsKept key id a (add_pubkey_to_account_ignore_overlap j k a).1
  unfolding add_pubkey_to_account_ignore_overlap contains_key
  adds_pubkey_ignoring-IsKept key id j k a h = elim (Option-cases (get k a.pubkeys)) [
    | inr (i, e) ↦ ground (arith, e, h)
    | inl e ↦ elim (Option-cases (get j a.accounts)) [
      | inl f ↦ ground (arith, e, f, h)
      | inr (account, f) ↦
          ground
            (arith, e, f, link_pubkey-IsKept key id j k account a h e (inl (ground (arith, f))))
    ]
  ]

  pub gets_for_key-IsKept :
      (key id k : ℕ) (a : Accounts D)
      → get key a.pubkeys ≡ some id
      → IsKept key id a (get_or_add_account_for_key k a).1
  unfolding get_or_add_account_for_key
  gets_for_key-IsKept key id k a h = elim (Option-cases (get k a.pubkeys)) [
    | inr (i, e) ↦ ground (arith, e, h)
    | inl e ↦
        let j = get_next_account_id a in
        let account = get_or_default j a.accounts in
        ground (arith, e, link_pubkey-IsKept key id j k account a h e (inl refl))
  ]

  pub gets_for_wallet-IsKept :
      (key id wallet : ℕ) (a : Accounts D)
      → get key a.pubkeys ≡ some id
      → IsKept key id a (get_or_add_account_for_wallet wallet a).1
  unfolding get_or_add_account_for_wallet
  gets_for_wallet-IsKept key id wallet a h =
      let j = get_next_account_id a in
      let account = get_or_default j a.accounts in
      let linked =
        store-IsKept key id j (record account { wallets = insert wallet tt account.wallets }) a
          (record a { wallets = insert wallet j a.wallets }) h refl (inl refl) in
      elim (Option-cases (get wallet a.wallets)) [
        | inl e ↦ ground (arith, e, linked)
        | inr (i, e) ↦ ground (arith, e, h, Option-cases (get i a.accounts))
      ]

  pub removes_pubkey-IsKept :
      (key id j k : ℕ) (a : Accounts D)
      → key ≢ k
      → get key a.pubkeys ≡ some id
      → IsKept key id a (remove_pubkey_from_account j k a).1
  unfolding remove_pubkey_from_account
  removes_pubkey-IsKept key id j k a s h =
      let removed : Accounts D = record a { pubkeys = remove k a.pubkeys } in
      let stays : get key removed.pubkeys ≡ some id = get-remove_other key k a.pubkeys s ∙ h in
      elim (Option-cases (get j a.accounts)) [
        | inl f ↦ ground (arith, f, h, stays)
        | inr (account, f) ↦ ground (
          arith,
          f,
          h,
          stays,
          store-IsKept key id j (record account { pubkeys = remove k account.pubkeys }) a removed
              stays refl (inl (ground (arith, f))),
        )
      ]
