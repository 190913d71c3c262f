-- ===== src/Tests/Ledger.antt =====
-- Runs of the methods of `Accounts`, on the accounts of `Sample`.
use kolme.Prelude.{
  is_ok, false, List, ◌≢◌, ℕ, ◌≡◌, refl, [], ◌∷◌, some, none, ok, u64_mod, arith, ◌-◌, ◌<◌, ◌+◌,
}
use kolme.Prelude.Int.{ℤ, pos, ◌-ℤ◌, ◌+ℤ◌}
use kolme.BTreeMap.{get, insert, last_key}
use kolme.Types.Decimal.{value}
use kolme.Accounts.{Accounts, mint, burn, get_next_account_id}
use kolme.Accounts.Keys.{use_nonce, link_pubkey, bump_nonce, remove_pubkey_from_account}
use kolme.Accounts.Restore.{merkle_serialize, merkle_deserialize}
use kolme.Accounts.Methods.{IsSound, use_nonce-IsSound, remove_pubkey_from_account-IsSound}
use kolme.Accounts.Balances.{balance_of, Minted, mint-Minted}
use kolme.Accounts.Burns.{Burned, burn-Burned}
use kolme.Accounts.Supply.{supply, moved, supply-mint, supply-burn}
use kolme.Accounts.Ids.{get_next_account_id_fresh, new_key_takes_account_0}
use kolme.Accounts.Nonces.{NonceUsed, use_nonce-NonceUsed}
use kolme.Accounts.Replay.{Call, uses, mints, adds_pubkey, removes_pubkey, calls, use_nonce_once}
use kolme.Accounts.RoundTrip.{merkle_deserialize-serialize}
use kolme.Tests.Decimals.{whole_ops, whole-IsDecimal}
use kolme.Tests.Sample.{ledger, owner, ledger-IsValid}

-- The balances after a credit of 20 to account 3, and after account 0 spent 120.
balance_20 : value (pos 20) ≡ balance_of 3 7 ledger +ℤ value (pos 20)
unfolding value get ◌+ℤ◌
balance_20 = refl

balance_380 : value (pos 380) ≡ balance_of 0 7 ledger -ℤ value (pos 120)
unfolding value get ◌-ℤ◌
balance_380 = refl

-- Account 3 is credited with 20 of asset 7.
mint-Minted_example :
    Minted whole-IsDecimal ledger ledger-IsValid 3 7 (pos 20) (mint 3 7 (pos 20) ledger)
mint-Minted_example =
    mint-Minted whole-IsDecimal ledger ledger-IsValid 3 7 (pos 20) (pos 20) balance_20

-- Account 0 has 500 of asset 7.
burn-Burned_example :
    Burned whole-IsDecimal ledger ledger-IsValid 0 7 (pos 120) (burn 0 7 (pos 120) ledger)
burn-Burned_example =
    burn-Burned whole-IsDecimal ledger ledger-IsValid 0 7 (pos 120) (λ h. (pos 380, balance_380))

-- The state after a credit of 20 to account 3, and after account 0 spent 120.
abbrev credited : Accounts ℤ
credited = record ledger {
  accounts =
      (0, owner)
      ∷ (3, record { assets = (7, pos 20) ∷ []; wallets = []; pubkeys = []; next_nonce = 0 })
      ∷ [];
}

abbrev spent : Accounts ℤ
spent = record ledger { accounts = (0, record owner { assets = (7, pos 380) ∷ [] }) ∷ [] }

mint_20 : mint 3 7 (pos 20) ledger ≡ (ok tt, credited)
unfolding mint get insert ◌+ℤ◌
mint_20 = refl

burn_120 : burn 0 7 (pos 120) ledger ≡ (ok tt, spent)
unfolding burn get insert ◌-ℤ◌ ◌+ℤ◌
burn_120 = refl

supply-mint_example :
    supply 7 credited
    ≡ supply 7 ledger +ℤ moved whole-IsDecimal ledger credited ledger-IsValid 3 7 (pos 20) 7
supply-mint_example =
    supply-mint whole-IsDecimal ledger credited ledger-IsValid 3 7 (pos 20) (pos 20) balance_20
      mint_20 7

supply-burn_example :
    supply 7 spent
    ≡ supply 7 ledger -ℤ moved whole-IsDecimal ledger spent ledger-IsValid 0 7 (pos 120) 7
supply-burn_example =
    supply-burn whole-IsDecimal ledger spent ledger-IsValid 0 7 (pos 120) (pos 380) balance_380
      burn_120 7

use_nonce-IsSound_example : IsSound (use_nonce 100 1 ledger)
use_nonce-IsSound_example = use_nonce-IsSound ledger ledger-IsValid 100 1

use_nonce-NonceUsed_example : NonceUsed ledger ledger-IsValid 100 1 (use_nonce 100 1 ledger)
use_nonce-NonceUsed_example = use_nonce-NonceUsed ledger ledger-IsValid 100 1

abbrev used : Accounts ℤ
used = record ledger { accounts = (0, record owner { next_nonce = 2 }) ∷ [] }

use_nonce_1 : use_nonce 100 1 ledger ≡ (ok 0, used)
unfolding use_nonce get insert
use_nonce_1 = refl

-- After key 100 has used nonce 1: a new key, the same nonce again, a credit and the next nonce.
abbrev history : List (Call ℤ)
history =
    adds_pubkey 0 101 ∷ uses 100 1 ∷ mints 0 7 (pos 3) ∷ uses 100 2 ∷ removes_pubkey 0 101 ∷ []

hundred_is_not_101 : ◌≢◌ {A = ℕ} 100 101
hundred_is_not_101 e = omega (arith, e)

use_nonce_once_example : is_ok (use_nonce 100 1 (calls history used)).0 ≡ false
use_nonce_once_example =
    use_nonce_once ledger used 100 1 0 history ledger-IsValid use_nonce_1
      (tt, (tt, (tt, (tt, (hundred_is_not_101, tt))))) (omega arith)

remove_pubkey_from_account-IsSound_example : IsSound (remove_pubkey_from_account 0 100 ledger)
remove_pubkey_from_account-IsSound_example =
    remove_pubkey_from_account-IsSound ledger ledger-IsValid 0 100

merkle_deserialize-serialize_example : merkle_deserialize (merkle_serialize ledger) ≡ ok ledger
merkle_deserialize-serialize_example = merkle_deserialize-serialize ledger ledger-IsValid

ledger_has_room : (h : ℕ) → last_key ledger.accounts ≡ some h → h + 1 < u64_mod
unfolding last_key
ledger_has_room h e = ground arith

get_next_account_id_fresh_example : get (get_next_account_id ledger) ledger.accounts ≡ none
get_next_account_id_fresh_example = get_next_account_id_fresh ledger ledger-IsValid ledger_has_room

-- The state after a credit of 1 to the last account id.
abbrev overflowed : Accounts ℤ
overflowed = record ledger {
  accounts =
      (0, owner)
      ∷ (
        u64_mod - 1,
        record { assets = (7, pos 1) ∷ []; wallets = []; pubkeys = []; next_nonce = 0 },
      )
      ∷ [];
}

mint_to_last : mint (u64_mod - 1) 7 (pos 1) ledger ≡ (ok tt, overflowed)
unfolding mint get insert ◌+ℤ◌
mint_to_last = refl

key_101_unknown : get {V = ℕ} 101 ledger.pubkeys ≡ none
unfolding get
key_101_unknown = refl

owner_found : get 0 ledger.accounts ≡ some owner
unfolding get
owner_found = refl

new_key_takes_account_0_example :
    use_nonce 101 1 overflowed ≡ (ok 0, link_pubkey 0 101 (bump_nonce owner) overflowed)
new_key_takes_account_0_example =
    new_key_takes_account_0 101 7 (pos 1) owner ledger overflowed ledger-IsValid (omega arith, tt)
      owner_found key_101_unknown mint_to_last
