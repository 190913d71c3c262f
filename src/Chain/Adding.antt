-- ===== src/Chain/Adding.antt =====
-- What holds when a node has added a block.
use kolme.Prelude.{
  ◌≤◌, none, ℕ, ◌≡◌, refl, sym, ap, ◌∙◌, true, false, Option, some, Result, ok, err, Action, ◌>>=◌,
  arith, ◌==◌, ltb, if◌then◌else◌, Bool-cases, Option-cases, Result-cases, subst, if_elim, inl, inr,
  ◌&&◌,
}
use kolme.Types.Decimal.{DecimalOps}
use kolme.Types.Signed.{verify_signature}
use kolme.Context.{DataLoadValidation, Host, prior_data}
use kolme.Context.Ensures.{Ensures}
use kolme.Execute.{ExecutionResults, execute_transaction}
use kolme.Chain.{
  SignedBlock, MaybeBlockInfo, at_block, ChainError, Storing, Kolme, get_state, get_next_height,
  get_block_hash, is_signed, check_max_height, on_stores, set_current, add_executed_block,
  save_results, check_block, read_of, add_block_with, loads_eq,
}
use kolme.Chain.Saving.{HasHashes, add_executed_block-HasHashes}

module _ {D S M T : Type 0} (storing : Storing D S M T) where
  module _ (Q : Kolme D S M T → Type 0) where
    on_stores-Ensures :
        {A B : Type 0} (call : Action T (ChainError D) A)
        (f : A → Action (Kolme D S M T) (ChainError D) B) (self : Kolme D S M T)
        → ((a : A) (t : T) → Ensures Q (f a (record self { stores = t })))
        → Ensures Q ((on_stores storing call >>= f) self)
    on_stores-Ensures {A = A} {B = B} call f self h = go (call self.stores)
      where
        go :
            (x : Result (ChainError D) A × T)
            → Ensures {E = ChainError D} {A = B} Q (elim x.0 [
              | ok a ↦ f a (record self { stores = x.1 })
              | err e ↦ (err e, record self { stores = x.1 })
            ])
        go (ok a, t) = h a t
        go (err e, t) = tt

  -- The state of the node at a new block.
  abbrev state_after : SignedBlock D M → ExecutionResults D S → MaybeBlockInfo D S M
  state_after signed results = at_block signed (record {
    blockhash = storing.message_hash signed.message.serialized;
    framework_state = results.framework_state;
    app_state = results.app_state;
  })

  module _ (signed : SignedBlock D M) (results : ExecutionResults D S) where
    abbrev IsAt : Kolme D S M T → Type 0
    IsAt self = self.current_block ≡ state_after signed results

    set_current-IsAt :
        (self : Kolme D S M T) → Ensures IsAt (set_current storing signed results self)
    unfolding set_current
    set_current-IsAt self =
        on_stores-Ensures IsAt storing.get_next_to_archive
          (λ due s. (
            ok tt,
            if due == signed.message.value.height
                then record s {
                  stores = storing.archive_block signed.message.value.height s.stores;
                }
                else s,
          ))
          (record self { current_block = state_after signed results })
          (λ due t. if_elim IsAt (due == signed.message.value.height) (λ yes. refl) (λ no. refl))

    add_executed_block-IsAt :
        (self : Kolme D S M T)
        → ltb signed.message.value.height (get_next_height self.current_block) ≡ false
        → Ensures IsAt (add_executed_block storing signed results self)
    unfolding add_executed_block
    add_executed_block-IsAt self h =
        on_stores-Ensures IsAt (save_results storing signed results)
          (λ u s.
            if ltb signed.message.value.height (get_next_height s.current_block)
            then (ok tt, s)
            else set_current storing signed results s)
          self
          (λ u t.
            subst
              (λ b. Ensures {E = ChainError D} {A = Unit {0}} IsAt (
                if b
                then (ok tt, record self { stores = t })
                else set_current storing signed results (record self { stores = t })))
              (sym h) (set_current-IsAt (record self { stores = t })))

signer :
    {D M : Type 0} (recover : ℕ → ℕ → Option ℕ) (signed : SignedBlock D M)
    → is_signed recover signed ≡ true
    → verify_signature recover signed ≡ some signed.message.value.processor
unfolding is_signed
signer recover signed h = elim (Option-cases (verify_signature recover signed)) [
  | inl f ↦ absurd (ground (arith, f))
  | inr (k, f) ↦ ground (arith, f)
]

succeeded :
    {S E : Type 0} (P : S → Type 0) (x : Result E (Unit {0}) × S)
    → Ensures P x
    → x.0 ≡ ok tt
    → P x.1
succeeded P (ok u, s) h e = h
succeeded P (err x, s) h e = absurd (ground arith)

-- The height is not past the maximal one, where there is one.
abbrev pub IsInTime : Option ℕ → ℕ → Type 0
IsInTime none height = Unit
IsInTime (some max_height) height = height ≤ max_height

check_max_height-IsInTime :
    {D : Type 0} (limit : Option ℕ) (height : ℕ)
    → check_max_height {D = D} limit height ≡ ok tt
    → IsInTime limit height
unfolding check_max_height
check_max_height-IsInTime none height h = tt
check_max_height-IsInTime (some max_height) height h = ground (arith, h)

module _ {D S M T : Type 0} ⦃ops : DecimalOps D⦄ (host : Host D S M) where
  -- The block follows the current one, is the processor's, and its transaction gives its results.
  pub record IsNext (signed : SignedBlock D M) (validation : DataLoadValidation)
      (self : Kolme D S M T) (results : ExecutionResults D S) : Type 0 where
    pub height : signed.message.value.height ≡ get_next_height self.current_block
    pub parent : signed.message.value.parent ≡ get_block_hash self.current_block
    pub processor :
        signed.message.value.processor
        ≡ (get_state self.current_block).framework_state.validator_set.processor
    pub in_time :
        IsInTime signed.message.value.tx.message.value.max_height signed.message.value.height
    pub by_processor : verify_signature host.recover signed ≡ some signed.message.value.processor
    pub executed :
        execute_transaction host
          (read_of host self)
          signed.message.value.tx
          signed.message.value.timestamp
          (prior_data signed.message.value.loads validation)
        ≡ ok results
    pub same_loads : loads_eq results.loads signed.message.value.loads ≡ true

  check_block-IsNext :
      (signed : SignedBlock D M) (validation : DataLoadValidation) (self : Kolme D S M T)
      (results : ExecutionResults D S)
      → check_block host signed validation self ≡ ok results
      → IsNext signed validation self results
  unfolding check_block
  check_block-IsNext signed validation self results e =
      let block = signed.message.value in
      let current = self.current_block in
      elim (Bool-cases (get_next_height current == block.height)) [
        | inr a ↦ absurd (ground (arith, a))
        | inl a ↦ elim (Bool-cases (get_block_hash current == block.parent)) [
          | inr b ↦ absurd (ground (arith, a, b))
          | inl b ↦
              elim (Bool-cases
                ((get_state current).framework_state.validator_set.processor == block.processor)) [
                  | inr c ↦ absurd (ground (arith, a, b, c))
                  | inl c ↦
                      elim (Result-cases
                        (check_max_height {D = D} block.tx.message.value.max_height block.height)) [
                          | inr (_, d) ↦ absurd (ground (arith, a, b, c, d))
                          | inl (_, d) ↦ elim (Bool-cases (is_signed host.recover signed)) [
                            | inr f ↦ absurd (ground (arith, a, b, c, d, f))
                            | inl f ↦
                                elim (Result-cases (
                                  execute_transaction host (read_of host self) block.tx
                                    block.timestamp (prior_data block.loads validation))) [
                                      | inr (_, g) ↦ absurd (ground (arith, a, b, c, d, f, g))
                                      | inl (r, g) ↦
                                          elim (Bool-cases (
                                            r.height == block.height
                                            && loads_eq r.loads block.loads)) [
                                              | inr h ↦ absurd (ground (arith, a, b, c, d, f, g, h))
                                              | inl h ↦
                                                  let same : r ≡ results =
                                                    ground (arith, a, b, c, d, f, g, h) in
                                                  record {
                                                    height = ground (arith, a);
                                                    parent = ground (arith, b);
                                                    processor = ground (arith, c);
                                                    in_time =
                                                        check_max_height-IsInTime
                                                          block.tx.message.value.max_height
                                                          block.height d;
                                                    by_processor = signer host.recover signed f;
                                                    executed = g ∙ ap ok same;
                                                    same_loads =
                                                        subst
                                                          (λ x. loads_eq x.loads block.loads ≡ true)
                                                          same (ground (arith, h));
                                                  }
                                            ]
                                    ]
                          ]
                        ]
                ]
        ]
      ]

  -- The node has moved on to the block.
  pub record IsAdded (storing : Storing D S M T) (signed : SignedBlock D M)
      (validation : DataLoadValidation) (self self' : Kolme D S M T) : Type 0 where
    pub results : ExecutionResults D S
    pub is_next : IsNext signed validation self results
    pub saved : HasHashes storing signed results self.stores
    pub current : self'.current_block ≡ state_after storing signed results

  -- `add_block_with` succeeds only if the block has the next height, the hash of the current block
  -- as its parent, the signature of the processor that the chain has, a transaction whose maximal
  -- height is not past, the loads that its execution on the current state gives, and the hashes that
  -- the stores give for the states and the logs of that execution; the node is then at this block
  -- with those states.
  pub add_block_with-IsAdded :
      (storing : Storing D S M T) (signed : SignedBlock D M) (validation : DataLoadValidation)
      (self : Kolme D S M T)
      → (add_block_with host storing signed validation self).0 ≡ ok tt
      → IsAdded storing signed validation self
          (add_block_with host storing signed validation self).1
  unfolding add_block_with
  add_block_with-IsAdded storing signed validation self e =
      go (check_block host signed validation self) refl e
    where
      after :
          Result (ChainError D) (ExecutionResults D S)
          → Result (ChainError D) (Unit {0}) × Kolme D S M T
      after r = elim r [
        | err x ↦ (err x, self)
        | ok results ↦ add_executed_block storing signed results self
      ]

      go :
          (r : Result (ChainError D) (ExecutionResults D S))
          → check_block host signed validation self ≡ r
          → (after r).0 ≡ ok tt
          → IsAdded storing signed validation self (after r).1
      go (err x) f h = absurd (ground arith)
      go (ok results) f h =
          let is_next = check_block-IsNext signed validation self results f in
          record {
            results = results;
            is_next = is_next;
            saved = add_executed_block-HasHashes storing signed results self h;
            current =
                succeeded (IsAt storing signed results)
                  (add_executed_block storing signed results self)
                  (add_executed_block-IsAt storing signed results self
                    (ground (arith, is_next.height)))
                  h;
          }
