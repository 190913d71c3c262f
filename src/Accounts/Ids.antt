-- ===== src/Accounts/Ids.antt =====
-- The account ids that `get_next_account_id` hands out: fresh ones, up to the wrap-around of `u64`.
use kolme.Prelude.{
  ℕ, subst, ==_refl, ◌∙◌, ◌+◌, ◌-◌, ◌<◌, ◌≡◌, none, some, arith, inl, inr, ok, Option-cases, next,
  u64_mod,
}
use kolme.BTreeMap.{get, last_key}
use kolme.BTreeMap.Laws.{get-insert}
use kolme.BTreeMap.Last.{IsAtMost, get-last_key, last_key-none, last_key-insert}
use kolme.Types.Decimal.{DecimalOps}
use kolme.Accounts.{Account, Accounts, store, get_next_account_id, mint}
use kolme.Accounts.Keys.{use_nonce, link_pubkey, bump_nonce}
use kolme.Accounts.Invariant.{IsValid}
use kolme.Accounts.Supply.{Wrote, mint-Wrote}

module _ {D : Type 0} ⦃ops : DecimalOps D⦄ where
  -- The highest account id in use is not the last one of `u64`.
  abbrev HasRoom : Accounts D → Type 0
  HasRoom a = (h : ℕ) → last_key a.accounts ≡ some h → h + 1 < u64_mod

  -- In a valid state whose highest account id is not the last of `u64`, the next account id belongs
  -- to no account.
  pub get_next_account_id_fresh :
      (a : Accounts D) → IsValid a → HasRoom a → get (get_next_account_id a) a.accounts ≡ none
  unfolding get_next_account_id
  get_next_account_id_fresh a valid room = elim (Option-cases (last_key a.accounts)) [
    | inl e ↦ rw (e, get_next_account_id) (last_key-none 0 a.accounts e)
    | inr (h, e) ↦
        rw (e, get_next_account_id)
          (get-last_key (next h) h a.accounts valid.accounts_sorted e (omega (arith, room h e)))
  ]

  wraps_after_store :
      (account : Account D) (a : Accounts D)
      → IsValid a
      → IsAtMost (u64_mod - 1) a.accounts
      → get_next_account_id (store (u64_mod - 1) account a) ≡ 0
  unfolding get_next_account_id
  wraps_after_store account a valid bound =
      ground (arith, last_key-insert (u64_mod - 1) account a.accounts valid.accounts_sorted bound)

  -- A successful credit to the last id of `u64` makes `get_next_account_id` start again at 0.
  next_account_id_wraps :
      (asset : ℕ) (amount : D) (a a' : Accounts D)
      → IsValid a
      → IsAtMost (u64_mod - 1) a.accounts
      → mint (u64_mod - 1) asset amount a ≡ (ok tt, a')
      → get_next_account_id a' ≡ 0
  next_account_id_wraps asset amount a a' valid bound e =
      let (account, wrote) =
        subst (Wrote (u64_mod - 1) a) e (mint-Wrote (u64_mod - 1) asset amount a) in
      rw wrote (wraps_after_store account a valid bound)

  -- So a stranger's key, with the nonce that account 0 has reached, is let into account 0.
  use_nonce_takes_over :
      (key : ℕ) (first : Account D) (a : Accounts D)
      → get_next_account_id a ≡ 0
      → get 0 a.accounts ≡ some first
      → get key a.pubkeys ≡ none
      → use_nonce key first.next_nonce a ≡ (ok 0, link_pubkey 0 key (bump_nonce first) a)
  unfolding use_nonce
  use_nonce_takes_over key first a e f k = ground (arith, ==_refl first.next_nonce)

  -- In a valid state with an account 0 and ids within `u64`, once an amount has been credited to
  -- account 2 ^ 64 - 1, a key that no account has is accepted with the next nonce of account 0, and
  -- becomes a key of account 0.
  pub new_key_takes_account_0 :
      (key asset : ℕ) (amount : D) (first : Account D) (a a' : Accounts D)
      → IsValid a
      → IsAtMost (u64_mod - 1) a.accounts
      → get 0 a.accounts ≡ some first
      → get key a.pubkeys ≡ none
      → mint (u64_mod - 1) asset amount a ≡ (ok tt, a')
      → use_nonce key first.next_nonce a' ≡ (ok 0, link_pubkey 0 key (bump_nonce first) a')
  new_key_takes_account_0 key asset amount first a a' valid bound zeroth unknown e =
      let (account, wrote) =
        subst (Wrote (u64_mod - 1) a) e (mint-Wrote (u64_mod - 1) asset amount a) in
      use_nonce_takes_over key first a' (next_account_id_wraps asset amount a a' valid bound e)
        (rw wrote (get-insert 0 (u64_mod - 1) account a.accounts ∙ zeroth)) (rw wrote unknown)
