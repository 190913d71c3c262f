-- ===== src/Accounts/Nonces.antt =====
-- Which nonce `use_nonce` accepts: the one that the key is expected to use.
use kolme.Prelude.{ℕ, ◌≡◌, ◌≢◌, none, some, arith, inl, inr, Result, ok, err, Option-cases, next}
use kolme.BTreeMap.{get, insert}
use kolme.BTreeMap.Laws.{get-insert}
use kolme.Types.{Error}
use kolme.Types.Decimal.{DecimalOps}
use kolme.Accounts.{Account, Accounts, get_or_default, get_next_account_id}
use kolme.Accounts.Keys.{use_nonce, link_pubkey, bump_nonce}
use kolme.Accounts.Invariant.{IsValid}
use kolme.Accounts.Methods.{owner_of_pubkey}

module _ {D : Type 0} ⦃ops : DecimalOps D⦄ where
  -- The account that a transaction signed with the key acts for, an account made for it included,
  -- and the next nonce of that account.
  abbrev account_for : ℕ → Accounts D → ℕ
  account_for key a = elim (get key a.pubkeys) [ none ↦ get_next_account_id a | some id ↦ id ]

  abbrev pub expected_nonce : ℕ → Accounts D → ℕ
  expected_nonce key a = (get_or_default (account_for key a) a.accounts).next_nonce

  module _ (a : Accounts D) (valid : IsValid a) (key nonce : ℕ) where
    -- How `use_nonce` ends: it accepts exactly the expected nonce, for the account of the key, and
    -- the next call then expects the successor; a refusal leaves the expectation.
    abbrev pub NonceUsed : Result (Error D) ℕ × Accounts D → Type 0
    NonceUsed (ok id, a') =
        (nonce ≡ expected_nonce key a)
        × (id ≡ account_for key a)
        × (get key a'.pubkeys ≡ some id)
        × (expected_nonce key a' ≡ next nonce)
    NonceUsed (err e, a') =
        (nonce ≢ expected_nonce key a) × (expected_nonce key a' ≡ expected_nonce key a)

    -- What is expected of a key after it was linked to the account that acts for it.
    expected_after_link :
        (id : ℕ) (account : Account D)
        → expected_nonce key (link_pubkey id key account a) ≡ account.next_nonce
    expected_after_link id account = ground (
      arith,
      get-insert key key id a.pubkeys,
      get-insert id id (record account { pubkeys = insert key tt account.pubkeys }) a.accounts,
    )

    -- In a valid state `use_nonce` succeeds only with the expected nonce, then returns the account for
    -- the key, to which the key is linked afterwards, and expects the successor; it fails only with
    -- another nonce, and then expects the same nonce as before.
    pub use_nonce-NonceUsed : NonceUsed (use_nonce key nonce a)
    unfolding use_nonce
    use_nonce-NonceUsed = elim (Option-cases (get key a.pubkeys)) [
      | inl e ↦
          let id = get_next_account_id a in
          let account = get_or_default id a.accounts in
          ground (
            arith,
            get-insert key key id a.pubkeys,
            expected_after_link id account,
            expected_after_link id (bump_nonce account),
          )
      | inr (id, e) ↦
          let (account, found, holds) = owner_of_pubkey a valid key id e in
          ground (arith, get-insert id id (bump_nonce account) a.accounts)
    ]
