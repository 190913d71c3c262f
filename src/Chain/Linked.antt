-- ===== src/Chain/Linked.antt =====
-- The blocks that a node has added one after the other.
use kolme.Prelude.{
  some, subst, ℕ, ◌≡◌, ap, ◌∙◌, refl, List, [], ◌∷◌, Result, ok, err, Action, arith, next,
}
use kolme.Types.Decimal.{DecimalOps}
use kolme.Types.Signed.{verify_signature}
use kolme.Context.{DataLoadValidation, Host}
use kolme.Chain.{
  SignedBlock, ChainError, Storing, Kolme, get_next_height, get_block_hash, add_block_with,
}
use kolme.Chain.Adding.{IsAdded, add_block_with-IsAdded}

module _ {D S M T : Type 0} ⦃ops : DecimalOps D⦄ (host : Host D S M) (storing : Storing D S M T)
    (validation : DataLoadValidation) where
  -- A node that adds the blocks in turn and stops at the first that fails.
  abbrev pub add_all : List (SignedBlock D M) → Action (Kolme D S M T) (ChainError D) (Unit {0})
  add_all [] self = (ok tt, self)
  add_all (block ∷ blocks) self =
      let (r, self') = add_block_with host storing block validation self in
      elim r [ err e ↦ (err e, self') | ok _ ↦ add_all blocks self' ]

  -- The heights go up by one from `height`, the parent of each block is the hash of the one before,
  -- of the first it is `parent`, and each has the signature of the processor that it names.
  abbrev pub IsLinked : ℕ → ℕ → List (SignedBlock D M) → Type 0
  IsLinked height parent [] = Unit
  IsLinked height parent (block ∷ blocks) =
      (block.message.value.height ≡ height)
      × (block.message.value.parent ≡ parent)
      × (verify_signature host.recover block ≡ some block.message.value.processor)
      × IsLinked (next height) (storing.message_hash block.message.serialized) blocks

  -- Where the node is after a block.
  position :
      (signed : SignedBlock D M) (self self' : Kolme D S M T)
      → IsAdded host storing signed validation self self'
      → (get_next_height self'.current_block ≡ next (get_next_height self.current_block))
        × (get_block_hash self'.current_block ≡ storing.message_hash signed.message.serialized)
  position signed self self' a =
      (ap get_next_height a.current ∙ ap next a.is_next.height, ap get_block_hash a.current)

  -- If a node adds a list of blocks in turn and none fails, the list is linked: it starts at the next
  -- height of the node and at the hash of its current block.
  pub add_all-IsLinked :
      (blocks : List (SignedBlock D M)) (self : Kolme D S M T)
      → (add_all blocks self).0 ≡ ok tt
      → IsLinked (get_next_height self.current_block) (get_block_hash self.current_block) blocks
  add_all-IsLinked [] self e = tt
  add_all-IsLinked (block ∷ blocks) self e =
      go (add_block_with host storing block validation self)
        (add_block_with-IsAdded host storing block validation self) e
        (λ s h. add_all-IsLinked blocks s h)
    where
      after :
          Result (ChainError D) (Unit {0}) × Kolme D S M T
          → Result (ChainError D) (Unit {0}) × Kolme D S M T
      after x = elim x.0 [ err e ↦ (err e, x.1) | ok _ ↦ add_all blocks x.1 ]

      moved : (n m p q : ℕ) → n ≡ m → p ≡ q → IsLinked n p blocks → IsLinked m q blocks
      moved n m p q e f l =
          subst (λ x. IsLinked x q blocks) e (subst (λ y. IsLinked n y blocks) f l)

      go :
          (x : Result (ChainError D) (Unit {0}) × Kolme D S M T)
          → (x.0 ≡ ok tt → IsAdded host storing block validation self x.1)
          → (after x).0 ≡ ok tt
          → ((s : Kolme D S M T)
              → (add_all blocks s).0 ≡ ok tt
              → IsLinked (get_next_height s.current_block) (get_block_hash s.current_block) blocks)
          → IsLinked
              (get_next_height self.current_block)
              (get_block_hash self.current_block)
              (block ∷ blocks)
      go (err x, s) a h rest = absurd (ground arith)
      go (ok u, s) a h rest =
          let added = a refl in
          let at = position block self s added in
          (
            added.is_next.height,
            added.is_next.parent,
            added.is_next.by_processor,
            moved (get_next_height s.current_block) (next (get_next_height self.current_block))
                (get_block_hash s.current_block) (storing.message_hash block.message.serialized)
                at.0 at.1 (rest s h),
          )
