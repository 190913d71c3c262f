-- ===== src/Accounts/Replay.antt =====
-- Replay protection: a nonce that was used stays used.
use kolme.Prelude.{
  ℕ, ◌+◌, ◌<◌, ◌≡◌, ◌≢◌, false, List, [], ◌∷◌, length, arith, some, Option-cases, ok, is_ok,
  u64_mod, subst,
}
use kolme.BTreeMap.{get}
use kolme.Types.Decimal.{DecimalOps}
use kolme.Accounts.{Accounts, mint, burn}
use kolme.Accounts.Keys.{
  use_nonce, remove_pubkey_from_account, add_pubkey_to_account_error_overlap, add_wallet_to_account,
  remove_wallet_from_account, add_pubkey_to_account_ignore_overlap, get_or_add_account_for_key,
  get_or_add_account_for_wallet,
}
use kolme.Accounts.Invariant.{IsValid}
use kolme.Accounts.Nonces.{NonceUsed, use_nonce-NonceUsed}
use kolme.Accounts.Kept.{
  nonce_of, IsKept, uses-IsKept, adds_pubkey-IsKept, adds_pubkey_ignoring-IsKept,
  gets_for_key-IsKept, gets_for_wallet-IsKept, removes_pubkey-IsKept,
}
use kolme.Accounts.Kept.Assets.{wallets-IsKept, mints-IsKept, burns-IsKept}

-- The calls of the methods that write.
pub data Call (D : Type 0) : Type 0 where
  -- key, nonce
  uses : ℕ → ℕ → Call D
  -- account, asset
  mints : ℕ → ℕ → D → Call D
  burns : ℕ → ℕ → D → Call D
  -- account, key or wallet
  adds_pubkey : ℕ → ℕ → Call D
  removes_pubkey : ℕ → ℕ → Call D
  adds_wallet : ℕ → ℕ → Call D
  removes_wallet : ℕ → ℕ → Call D
  adds_pubkey_ignoring : ℕ → ℕ → Call D
  -- key or wallet
  gets_for_key : ℕ → Call D
  gets_for_wallet : ℕ → Call D

module _ {D : Type 0} ⦃ops : DecimalOps D⦄ where
  abbrev call : Call D → Accounts D → Accounts D
  call (uses key nonce) a = (use_nonce key nonce a).1
  call (mints id asset amount) a = (mint id asset amount a).1
  call (burns id asset amount) a = (burn id asset amount a).1
  call (adds_pubkey id key) a = (add_pubkey_to_account_error_overlap id key a).1
  call (removes_pubkey id key) a = (remove_pubkey_from_account id key a).1
  call (adds_wallet id wallet) a = (add_wallet_to_account id wallet a).1
  call (removes_wallet id wallet) a = (remove_wallet_from_account id wallet a).1
  call (adds_pubkey_ignoring id key) a = (add_pubkey_to_account_ignore_overlap id key a).1
  call (gets_for_key key) a = (get_or_add_account_for_key key a).1
  call (gets_for_wallet wallet) a = (get_or_add_account_for_wallet wallet a).1

  abbrev pub calls : List (Call D) → Accounts D → Accounts D
  calls [] a = a
  calls (c ∷ cs) a = calls cs (call c a)

  -- No call removes the key.
  abbrev Spares : ℕ → Call D → Type 0
  Spares key (removes_pubkey id k) = key ≢ k
  Spares key _ = Unit

  abbrev pub AllSpare : ℕ → List (Call D) → Type 0
  AllSpare key [] = Unit
  AllSpare key (c ∷ cs) = Spares key c × AllSpare key cs

  call-IsKept :
      (key id : ℕ) (c : Call D) (a : Accounts D)
      → Spares key c
      → get key a.pubkeys ≡ some id
      → IsKept key id a (call c a)
  call-IsKept key id (uses k nonce) a s h = uses-IsKept key id k nonce a h
  call-IsKept key id (mints j asset amount) a s h = mints-IsKept key id j asset amount a h
  call-IsKept key id (burns j asset amount) a s h = burns-IsKept key id j asset amount a h
  call-IsKept key id (adds_pubkey j k) a s h = adds_pubkey-IsKept key id j k a h
  call-IsKept key id (removes_pubkey j k) a s h = removes_pubkey-IsKept key id j k a s h
  call-IsKept key id (adds_wallet j wallet) a s h = (wallets-IsKept key id j wallet a h).0
  call-IsKept key id (removes_wallet j wallet) a s h = (wallets-IsKept key id j wallet a h).1
  call-IsKept key id (adds_pubkey_ignoring j k) a s h = adds_pubkey_ignoring-IsKept key id j k a h
  call-IsKept key id (gets_for_key k) a s h = gets_for_key-IsKept key id k a h
  call-IsKept key id (gets_for_wallet wallet) a s h = gets_for_wallet-IsKept key id wallet a h

  calls-IsKept :
      (key id nonce : ℕ) (cs : List (Call D)) (a : Accounts D)
      → AllSpare key cs
      → get key a.pubkeys ≡ some id
      → nonce < nonce_of id a
      → nonce_of id a + length cs < u64_mod
      → (get key (calls cs a).pubkeys ≡ some id) × (nonce < nonce_of id (calls cs a))
  calls-IsKept key id nonce [] a s h l u = (h, l)
  calls-IsKept key id nonce (c ∷ cs) a s h l u =
      let (linked, moved) = call-IsKept key id c a s.0 h in
      calls-IsKept key id nonce cs (call c a) s.1 linked (ground (arith, moved, l, u))
        (ground (arith, moved, l, u))

  -- In a valid state, after a successful `use_nonce` and any sequence of calls of the methods that
  -- write, of which none removes the key and which are fewer than the nonces that are left, a call of `use_nonce` with the same key and nonce fails.
  pub use_nonce_once :
      (a a' : Accounts D) (key nonce id : ℕ) (cs : List (Call D))
      → IsValid a
      → use_nonce key nonce a ≡ (ok id, a')
      → AllSpare key cs
      → nonce + 1 + length cs < u64_mod
      → is_ok (use_nonce key nonce (calls cs a')).0 ≡ false
  unfolding use_nonce
  use_nonce_once a a' key nonce id cs valid e s u =
      let used = subst (NonceUsed a valid key nonce) e (use_nonce-NonceUsed a valid key nonce) in
      let after : nonce_of id a' ≡ nonce + 1 = ground (arith, used.2, used.3, u) in
      let (linked, larger) =
        calls-IsKept key id nonce cs a' s used.2 (omega (arith, after)) (omega (arith, after, u)) in
      ground (arith, linked, larger, Option-cases (get id (calls cs a').accounts))
