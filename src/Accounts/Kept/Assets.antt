-- ===== src/Accounts/Kept/Assets.antt =====
-- The link of a key and the nonce of its account, under the methods on wallets and balances.
use kolme.Prelude.{
  ℕ, ◌≡◌, refl, arith, inl, inr, none, some, Option-cases, Bool-cases, Ordering-cases,
}
use kolme.BTreeMap.{get, insert, remove}
use kolme.Types.Decimal.{DecimalOps}
use kolme.Accounts.{Account, Accounts, get_or_default, mint, burn, burn_from, not_positive}
use kolme.Accounts.Keys.{add_wallet_to_account, remove_wallet_from_account}
use kolme.Accounts.Kept.{nonce_of, IsKept, store-IsKept}

module _ {D : Type 0} ⦃ops : DecimalOps D⦄ where
  pub wallets-IsKept :
      (key id j wallet : ℕ) (a : Accounts D)
      → get key a.pubkeys ≡ some id
      → IsKept key id a (add_wallet_to_account j wallet a).1
        × IsKept key id a (remove_wallet_from_account j wallet a).1
  unfolding add_wallet_to_account remove_wallet_from_account
  wallets-IsKept key id j wallet a h = elim (Option-cases (get j a.accounts)) [
    | inl f ↦ ground (arith, f, h)
    | inr (account, f) ↦ ground (
      arith,
      f,
      h,
      store-IsKept key id j (record account { wallets = remove wallet account.wallets }) a
          (record a { wallets = remove wallet a.wallets }) h refl (inl (ground (arith, f))),
      store-IsKept key id j (record account { wallets = insert wallet tt account.wallets }) a
          (record a { wallets = insert wallet j a.wallets }) h refl (inl (ground (arith, f))),
    )
  ]

  pub mints-IsKept :
      (key id j asset : ℕ) (amount : D) (a : Accounts D)
      → get key a.pubkeys ≡ some id
      → IsKept key id a (mint j asset amount a).1
  unfolding mint
  mints-IsKept key id j asset amount a h =
      let account = get_or_default j a.accounts in
      let balance : D = elim (get asset account.assets) [ none ↦ ops.zero | some b ↦ b ] in
      elim (Bool-cases (not_positive amount)) [
        | inl n ↦ rw n (h, inl refl)
        | inr n ↦ elim (Option-cases (ops.checked_add balance amount)) [
          | inl e ↦ rw (n, e) (h, inl refl)
          | inr (sum, e) ↦
              rw (n, e)
                (store-IsKept key id j (record account { assets = insert asset sum account.assets })
                  a a h refl (inl refl))
        ]
      ]

  burn_from-IsKept :
      (key id j asset : ℕ) (amount : D) (account : Account D) (balance : D) (a : Accounts D)
      → get key a.pubkeys ≡ some id
      → account.next_nonce ≡ nonce_of j a
      → IsKept key id a (burn_from j asset amount account balance a).1
  unfolding burn_from
  burn_from-IsKept key id j asset amount account balance a h n =
      let less =
        store-IsKept key id j (record account { assets = remove asset account.assets }) a a h refl
          (inl n) in
      elim (Ordering-cases (ops.cmp balance amount)) [
        | inl c ↦ rw (c, burn_from) (h, inl refl)
        | inr (inl c) ↦ rw (c, burn_from) less
        | inr (inr c) ↦ elim (Option-cases (ops.checked_sub balance amount)) [
          | inl e ↦ rw (c, e, burn_from) (h, inl refl)
          | inr (left, e) ↦
              rw (c, e, burn_from)
                (store-IsKept key id j
                  (record account { assets = insert asset left account.assets }) a a h refl (inl n))
        ]
      ]

  pub burns-IsKept :
      (key id j asset : ℕ) (amount : D) (a : Accounts D)
      → get key a.pubkeys ≡ some id
      → IsKept key id a (burn j asset amount a).1
  unfolding burn
  burns-IsKept key id j asset amount a h = elim (Bool-cases (not_positive amount)) [
    | inl n ↦ rw n (h, inl refl)
    | inr n ↦ elim (Option-cases (get j a.accounts)) [
      | inl e ↦ rw (n, e) (h, inl refl)
      | inr (account, e) ↦ elim (Option-cases (get asset account.assets)) [
        | inl f ↦ rw (n, e, f) (h, inl refl)
        | inr (balance, f) ↦
            let same : account.next_nonce ≡ nonce_of j a = ground (arith, e) in
            let done = burn_from-IsKept key id j asset amount account balance a h same in
            ground (arith, n, e, f, done)
      ]
    ]
  ]
