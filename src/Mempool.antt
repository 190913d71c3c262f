-- ===== src/Mempool.antt =====
-- packages/kolme/src/core/kolme/mempool.rs: the transactions that wait for a block, and those that
-- must not come back. `LruCache` is the interface of the `lru` crate; the waiting for a notification
-- is left out.
pub mod Exclusion
use kolme.Prelude.{
  ℕ, ◌-◌, ◌≡◌, ◌⊎◌, Bool, true, false, Option, none, some, List, [], ◌∷◌, Result, ok, err, is_some,
  ltb, leb, if◌then◌else◌,
}
use kolme.Types.{Error}
use kolme.Types.Signed.{SignedTaggedJson}
use kolme.Execute.{SignedTransaction}
use kolme.Chain.{SignedBlock}

-- A cache from hashes to values that forgets the least recently used entries.
pub record LruCache (C : Type 0 → Type 0) : Type 1 where
  pub contains : {V : Type 0} → ℕ → C V → Bool
  -- marks the entry as used
  pub get : {V : Type 0} → ℕ → C V → Option V × C V
  pub put : {V : Type 0} → ℕ → V → C V → C V
  pub pop : {V : Type 0} → ℕ → C V → Option V × C V
  -- a write through `get_mut`
  pub modify : {V : Type 0} → ℕ → (V → V) → C V → C V
  pub peek_lru : {V : Type 0} → C V → Option V
  pub entries : {V : Type 0} → C V → List V

-- What the mempool supposes of it: an entry that is put in is there, and only such entries are.
pub record IsCache {C : Type 0 → Type 0} (lru : LruCache C) : Type 1 where
  pub contains-get :
      {V : Type 0} (j k : ℕ) (c : C V) → lru.contains j (lru.get k c).1 ≡ lru.contains j c
  pub get-contains : {V : Type 0} (k : ℕ) (c : C V) → is_some (lru.get k c).0 ≡ lru.contains k c
  pub contains-put : {V : Type 0} (k : ℕ) (v : V) (c : C V) → lru.contains k (lru.put k v c) ≡ true
  pub put-contains :
      {V : Type 0} (j k : ℕ) (v : V) (c : C V)
      → lru.contains j (lru.put k v c) ≡ true
      → (j ≡ k) ⊎ (lru.contains j c ≡ true)
  pub contains-pop : {V : Type 0} (k : ℕ) (c : C V) → lru.contains k (lru.pop k c).1 ≡ false
  pub pop-contains :
      {V : Type 0} (j k : ℕ) (c : C V)
      → lru.contains j (lru.pop k c).1 ≡ true
      → lru.contains j c ≡ true
  pub contains-modify :
      {V : Type 0} (j k : ℕ) (f : V → V) (c : C V)
      → lru.contains j (lru.modify k f c) ≡ lru.contains j c

pub record FailedTransaction (D : Type 0) : Type 0 where
  pub txhash : ℕ
  pub proposed_height : ℕ
  pub error : Error D

pub data BlockReason (D M : Type 0) : Type 0 where
  in_block : SignedBlock D M → BlockReason D M
  failed : SignedTaggedJson (FailedTransaction D) → BlockReason D M

pub data ProposeTransactionError (D M : Type 0) : Type 0 where
  in_mempool : ProposeTransactionError D M
  already_in_block : SignedBlock D M → ProposeTransactionError D M
  already_failed : SignedTaggedJson (FailedTransaction D) → ProposeTransactionError D M

abbrev error_of : {D M : Type 0} → BlockReason D M → ProposeTransactionError D M
error_of (in_block block) = already_in_block block
error_of (failed tx) = already_failed tx

pub record MempoolItem (D M : Type 0) : Type 0 where
  pub tx : SignedTransaction D M
  pub last_gossiped : Option ℕ

pub record MempoolState (C : Type 0 → Type 0) (D M : Type 0) : Type 0 where
  pub txs : C (MempoolItem D M)
  pub blocked : C (BlockReason D M)

-- `cutoff.checked_sub(delay).unwrap_or(cutoff)`
abbrev cutoff_of : ℕ → ℕ → ℕ
cutoff_of now delay = if leb delay now then now - delay else now

abbrev is_before : Option ℕ → ℕ → Bool
is_before none cutoff = true
is_before (some last_gossiped) cutoff = ltb last_gossiped cutoff

unfoldable filter_items : {D M : Type 0} → ℕ → List (MempoolItem D M) → List (SignedTransaction D M)
filter_items cutoff [] = []
filter_items cutoff (item ∷ items) =
    let rest = filter_items cutoff items in
    if is_before item.last_gossiped cutoff then item.tx ∷ rest else rest

module _ {C : Type 0 → Type 0} (lru : LruCache C) (message_hash : ℕ → ℕ) {D M : Type 0} where
  -- `SignedTransaction::hash`
  abbrev hash : SignedTransaction D M → ℕ
  hash tx = message_hash tx.message.serialized

  unfoldable drop_tx : ℕ → MempoolState C D M → MempoolState C D M
  drop_tx key state = record state { txs = (lru.pop key state.txs).1 }

  -- The common part of the two methods below.
  unfoldable pub block_tx : ℕ → BlockReason D M → MempoolState C D M → Bool × MempoolState C D M
  unfolding drop_tx
  block_tx key reason state =
      if lru.contains key state.blocked
      then (false, state)
      else (true, drop_tx key (record state { blocked = lru.put key reason state.blocked }))

  unfoldable add_signed_block : SignedBlock D M → MempoolState C D M → Bool × MempoolState C D M
  unfolding block_tx
  add_signed_block block = block_tx (hash block.message.value.tx) (in_block block)

  unfoldable add_failed_transaction :
      SignedTaggedJson (FailedTransaction D) → MempoolState C D M → Bool × MempoolState C D M
  unfolding block_tx
  add_failed_transaction tx = block_tx tx.message.value.txhash (failed tx)

  unfoldable pub add :
      SignedTransaction D M
      → MempoolState C D M
      → Result (ProposeTransactionError D M) (Unit {0}) × MempoolState C D M
  add tx state =
      let (found, blocked) = lru.get (hash tx) state.blocked in
      let looked = record state { blocked = blocked } in
      elim found [
        | some reason ↦ (err (error_of reason), looked)
        | none ↦ if lru.contains (hash tx) state.txs then (err in_mempool, looked) else (
          ok tt,
          record looked {
            txs = lru.put (hash tx) (record { tx = tx; last_gossiped = none }) state.txs;
          },
        )
      ]

  unfoldable get_entries_for_gossip : ℕ → ℕ → MempoolState C D M → List (SignedTransaction D M)
  unfolding filter_items
  get_entries_for_gossip now delay state =
      filter_items (cutoff_of now delay) (lru.entries state.txs)

  unfoldable mark_mempool_entry_gossiped : ℕ → ℕ → MempoolState C D M → MempoolState C D M
  mark_mempool_entry_gossiped now key state = record state {
    txs = lru.modify key (λ item. record item { last_gossiped = some now }) state.txs;
  }

  -- The first look of `peek`.
  abbrev peek : MempoolState C D M → Option (SignedTransaction D M)
  peek state = elim (lru.peek_lru state.txs) [ none ↦ none | some item ↦ some item.tx ]
