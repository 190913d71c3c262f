-- ===== src/Mempool/Exclusion.antt =====
-- A transaction that is blocked is not in the pool, whatever the order of the calls.
use kolme.Prelude.{
  ℕ, ◌≡◌, ◌&&◌, ◌||◌, not, false, none, some, List, [], ◌∷◌, is_ok, arith, inl, inr, Bool-cases,
  Option-cases,
}
use kolme.Types.Signed.{SignedTaggedJson}
use kolme.Execute.{SignedTransaction}
use kolme.Chain.{SignedBlock}
use kolme.Mempool.{
  LruCache, IsCache, FailedTransaction, BlockReason, in_block, failed, MempoolState, MempoolItem,
  hash, drop_tx, block_tx, add_signed_block, add_failed_transaction, add,
  mark_mempool_entry_gossiped,
}

-- The calls of the other tasks.
pub data Call (D M : Type 0) : Type 0 where
  proposes : SignedTransaction D M → Call D M
  lands : SignedBlock D M → Call D M
  fails : SignedTaggedJson (FailedTransaction D) → Call D M
  removes : ℕ → Call D M
  -- now, hash
  gossips : ℕ → ℕ → Call D M

module _ {C : Type 0 → Type 0} (lru : LruCache C) (message_hash : ℕ → ℕ) {D M : Type 0} where
  abbrev call : Call D M → MempoolState C D M → MempoolState C D M
  call (proposes tx) state = (add lru message_hash tx state).1
  call (lands block) state = (add_signed_block lru message_hash block state).1
  call (fails tx) state = (add_failed_transaction lru message_hash tx state).1
  call (removes key) state = drop_tx lru message_hash key state
  call (gossips now key) state = mark_mempool_entry_gossiped lru message_hash now key state

  abbrev pub calls : List (Call D M) → MempoolState C D M → MempoolState C D M
  calls [] state = state
  calls (c ∷ cs) state = calls cs (call c state)

  -- No transaction is in the pool and blocked.
  unfoldable pub IsExclusive : MempoolState C D M → Type 0
  IsExclusive state =
      (key : ℕ) → (lru.contains key state.blocked && lru.contains key state.txs) ≡ false

  module _ (cache : IsCache lru) where
    block_tx-IsExclusive :
        (key : ℕ) (reason : BlockReason D M) (state : MempoolState C D M)
        → IsExclusive state
        → IsExclusive (block_tx lru message_hash key reason state).1
    unfolding IsExclusive block_tx drop_tx
    block_tx-IsExclusive key reason state h j = ground (
      arith,
      h j,
      cache.put-contains j key reason state.blocked,
      cache.contains-pop key state.txs,
      cache.pop-contains j key state.txs,
      Bool-cases (lru.contains j (lru.pop key state.txs).1),
      Bool-cases (lru.contains key state.blocked),
    )

    add-IsExclusive :
        (tx : SignedTransaction D M) (state : MempoolState C D M)
        → IsExclusive state
        → IsExclusive (add lru message_hash tx state).1
    unfolding IsExclusive add
    add-IsExclusive tx state h j = ground (
      arith,
      h j,
      cache.contains-get j (hash lru message_hash tx) state.blocked,
      cache.get-contains (hash lru message_hash tx) state.blocked,
      cache.put-contains j (hash lru message_hash tx) (record { tx = tx; last_gossiped = none })
          state.txs,
      Option-cases (lru.get (hash lru message_hash tx) state.blocked).0,
    )

    call-IsExclusive :
        (c : Call D M) (state : MempoolState C D M) → IsExclusive state → IsExclusive (call c state)
    unfolding IsExclusive add_signed_block add_failed_transaction drop_tx
        mark_mempool_entry_gossiped
    call-IsExclusive (proposes tx) state h j = add-IsExclusive tx state h j
    call-IsExclusive (lands block) state h j =
        block_tx-IsExclusive (hash lru message_hash block.message.value.tx) (in_block block) state h
          j
    call-IsExclusive (fails tx) state h j =
        block_tx-IsExclusive tx.message.value.txhash (failed tx) state h j
    call-IsExclusive (removes key) state h j =
        ground (arith, h j, cache.pop-contains j key state.txs)
    call-IsExclusive (gossips now key) state h j = ground (
      arith,
      h j,
      cache.contains-modify j key
          (λ (item : MempoolItem D M). record item { last_gossiped = some now }) state.txs,
    )

    -- If no transaction is both in the pool and blocked, none is after any sequence of proposals,
    -- landed blocks, failures, removals and notes of gossip.
    pub calls-IsExclusive :
        (cs : List (Call D M)) (state : MempoolState C D M)
        → IsExclusive state
        → IsExclusive (calls cs state)
    calls-IsExclusive [] state h = h
    calls-IsExclusive (c ∷ cs) state h =
        calls-IsExclusive cs (call c state) (call-IsExclusive c state h)

    -- `add` succeeds exactly if the hash of the transaction is neither blocked nor in the pool. After a
    -- success the transaction is in the pool, after a refusal it is there only if it was before, and
    -- what is blocked stays the same.
    pub add_accepts :
        (tx : SignedTransaction D M) (state : MempoolState C D M) (other : ℕ)
        → let key = hash lru message_hash tx in
          let (r, state') = add lru message_hash tx state in
          (is_ok r ≡ (not (lru.contains key state.blocked) && not (lru.contains key state.txs)))
          × (lru.contains key state'.txs ≡ (is_ok r || lru.contains key state.txs))
          × (lru.contains other state'.blocked ≡ lru.contains other state.blocked)
    unfolding add
    add_accepts tx state other =
        let key = hash lru message_hash tx in
        elim (Option-cases (lru.get key state.blocked).0) [
          | inl f ↦ elim (Bool-cases (lru.contains key state.txs)) [
            | inl g ↦ ground (
              arith,
              f,
              g,
              cache.get-contains key state.blocked,
              cache.contains-put key (record { tx = tx; last_gossiped = none }) state.txs,
              cache.contains-get other key state.blocked,
            )
            | inr g ↦ ground (
              arith,
              f,
              g,
              cache.get-contains key state.blocked,
              cache.contains-put key (record { tx = tx; last_gossiped = none }) state.txs,
              cache.contains-get other key state.blocked,
            )
          ]
          | inr (r, f) ↦ ground (
            arith,
            f,
            cache.get-contains key state.blocked,
            cache.contains-get other key state.blocked,
          )
        ]
