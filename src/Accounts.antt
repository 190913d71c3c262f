-- ===== src/Accounts.antt =====
-- packages/kolme/src/core/types/accounts.rs: `Account`, `Accounts`, the reads of it and the methods
-- on balances. A method on `&mut self` is an `Action`: what it wrote before an error is kept, as in
-- the source. `Keys` has the methods on public keys, wallets and nonces, and `Restore` the
-- deserialization; the other children are proofs.
pub mod Keys
pub mod Restore
pub mod Invariant
pub mod Links
pub mod Methods
pub mod Balances
pub mod Burns
pub mod Supply
pub mod Ids
pub mod Nonces
pub mod Kept
pub mod Replay
pub mod Reindex
pub mod RoundTrip
use Prim.Native.Nat.Ordering.{lt, eq, gt}
use kolme.Prelude.{
  ℕ, ◌≡◌, Bool, true, false, ◌||◌, Option, none, some, List, [], ◌∷◌, Result, ok, err, Action, ◌==◌,
  if◌then◌else◌, next,
}
use kolme.BTreeMap.{BTreeMap, BTreeSet, get, contains_key, insert, remove, last_key}
use kolme.Types.{
  Error, panic, insufficient_balance, must_mint_positive, must_burn_positive, invalid_nonce,
  invalid_initial_nonce, pubkey_in_use, wallet_in_use, account_not_found, unknown_pubkey,
  unknown_wallet, pubkey_of_other, wallet_of_other,
}
use kolme.Types.Decimal.{DecimalOps}

pub record Account (D : Type 0) : Type 0 where
  pub assets : BTreeMap D
  pub wallets : BTreeSet
  pub pubkeys : BTreeSet
  pub next_nonce : ℕ

pub record Accounts (D : Type 0) : Type 0 where
  pub accounts : BTreeMap (Account D)
  -- the reverse lookups
  pub wallets : BTreeMap ℕ
  pub pubkeys : BTreeMap ℕ

module _ {D : Type 0} where
  -- `Account::default()`
  abbrev pub default_account : Account D
  default_account = record { assets = []; wallets = []; pubkeys = []; next_nonce = 0 }

  -- `Accounts::default()`
  abbrev pub default : Accounts D
  default = record { accounts = []; wallets = []; pubkeys = [] }

  -- A write through the `&mut Account` that `get_mut` or `get_or_default` returned.
  abbrev pub store : ℕ → Account D → Accounts D → Accounts D
  store id account a = record a { accounts = insert id account a.accounts }

  -- What `get_or_default` finds or creates.
  abbrev pub get_or_default : ℕ → BTreeMap (Account D) → Account D
  get_or_default id m = elim (get id m) [ none ↦ default_account | some account ↦ account ]

  unfoldable pub get_assets : ℕ → Accounts D → Option (BTreeMap D)
  get_assets id a = elim (get id a.accounts) [ none ↦ none | some account ↦ some account.assets ]

  unfoldable pub add_account : ℕ → Accounts D → Accounts D
  add_account id a = store id (get_or_default id a.accounts) a

  unfoldable pub get_next_account_id : Accounts D → ℕ
  get_next_account_id a = elim (last_key a.accounts) [ none ↦ 0 | some highest ↦ next highest ]

module _ {D : Type 0} ⦃ops : DecimalOps D⦄ where
  -- `is_zero() || is_sign_negative()`
  abbrev pub not_positive : D → Bool
  not_positive amount = ops.is_zero amount || ops.is_sign_negative amount

  unfoldable pub mint : ℕ → ℕ → D → Action (Accounts D) (Error D) (Unit {0})
  mint id asset to_mint a =
      let account = get_or_default id a.accounts in
      let balance : D = elim (get asset account.assets) [ none ↦ ops.zero | some b ↦ b ] in
      if not_positive to_mint
      then (err (must_mint_positive id asset to_mint), a)
      else elim (ops.checked_add balance to_mint) [
        | none ↦ (err panic, a)
        | some sum ↦
            (ok tt, store id (record account { assets = insert asset sum account.assets }) a)
      ]

  -- The match on `(*asset).cmp(&to_burn)`, on the account and the balance that were found.
  burn_from : ℕ → ℕ → D → Account D → D → Action (Accounts D) (Error D) (Unit {0})
  burn_from id asset to_burn account balance a = elim (ops.cmp balance to_burn) [
    | lt ↦ (err (insufficient_balance id asset to_burn balance), a)
    | eq ↦ (ok tt, store id (record account { assets = remove asset account.assets }) a)
    | gt ↦ elim (ops.checked_sub balance to_burn) [
      | none ↦ (err panic, a)
      | some left ↦
          (ok tt, store id (record account { assets = insert asset left account.assets }) a)
    ]
  ]

  unfoldable pub burn : ℕ → ℕ → D → Action (Accounts D) (Error D) (Unit {0})
  unfolding burn_from
  burn id asset to_burn a =
      if not_positive to_burn
      then (err (must_burn_positive id asset to_burn), a)
      else elim (get id a.accounts) [
        | none ↦ (err (insufficient_balance id asset to_burn ops.zero), a)
        | some account ↦ elim (get asset account.assets) [
          | none ↦ (err (insufficient_balance id asset to_burn ops.zero), a)
          | some balance ↦ burn_from id asset to_burn account balance a
        ]
      ]
