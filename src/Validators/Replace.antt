-- ===== src/Validators/Replace.antt =====
-- What a self-replacement does to the quorums. The code does not validate the new set.
use kolme.Prelude.{ℕ, suc, ◌≡◌, ◌≢◌, ◌⊎◌, true, false, arith, ◌==◌, if◌then◌else◌, ok, length}
use kolme.BTreeMap.{BTreeSet, contains_key, insert, remove}
use kolme.BTreeMap.Laws.{contains_key-remove}
use kolme.BTreeMap.Order.{IsSorted, remove-IsSorted}
use kolme.BTreeMap.Length.{length-insert, length-remove}
use kolme.Validators.{ValidatorSet, ValidatorType, SelfReplace, self_replace}
use kolme.Validators.Validate.{HasQuorums}

-- The members after a replacement: one fewer, if the replacement is a member already.
length-replace :
    (sender replacement : ℕ) (members : BTreeSet)
    → IsSorted members
    → contains_key sender members ≡ true
    → suc (length (insert replacement tt (remove sender members))) ≡ (
        if replacement == sender
        then suc (length members)
        else if contains_key replacement members
        then length members
        else suc (length members))
length-replace sender replacement members s h = ground (
  arith,
  length-insert replacement tt (remove sender members) (remove-IsSorted sender members s),
  length-remove sender members,
  contains_key-remove replacement sender members s,
)

-- Is the replacement new to the group in which it is to replace the signer?
abbrev IsNewcomer : ℕ → SelfReplace → ValidatorSet → Type 0
IsNewcomer signer message v = elim message.validator_type [
  | ValidatorType.processor ↦ Unit {0}
  | ValidatorType.listener ↦
      (message.replacement ≡ signer) ⊎ (contains_key message.replacement v.listeners ≡ false)
  | ValidatorType.approver ↦
      (message.replacement ≡ signer) ⊎ (contains_key message.replacement v.approvers ≡ false)
]

module _ {D : Type 0} where
  -- With sorted sets that have their quorums, a successful self-replacement by a key that is not yet
  -- in the group, or is the signer itself, gives a set that has its quorums.
  pub self_replace-HasQuorums :
      (signer : ℕ) (message : SelfReplace) (v v' : ValidatorSet)
      → IsSorted v.listeners
      → IsSorted v.approvers
      → HasQuorums v
      → IsNewcomer signer message v
      → self_replace {D = D} signer message v ≡ ok v'
      → HasQuorums v'
  unfolding self_replace
  self_replace-HasQuorums signer message v v' sl sa q n e = ground (
    arith,
    length-replace signer message.replacement v.listeners sl,
    length-replace signer message.replacement v.approvers sa,
  )

  -- In a set that has its quorums and needs all of its listeners, a listener that names another
  -- listener as its replacement succeeds, and the new set does not have its quorums.
  pub self_replace_loses_quorum :
      (signer other : ℕ) (v : ValidatorSet)
      → HasQuorums v
      → IsSorted v.listeners
      → v.needed_listeners ≡ length v.listeners
      → contains_key signer v.listeners ≡ true
      → contains_key other v.listeners ≡ true
      → other ≢ signer
      → (v' : ValidatorSet) × (self_replace {D = D} signer
            (record { validator_type = ValidatorType.listener; replacement = other })
            v
          ≡ ok v')
        × ¬ HasQuorums v'
  unfolding self_replace
  self_replace_loses_quorum signer other v q s tight member other_member ne = (
    record v { listeners = insert other tt (remove signer v.listeners) },
    ground arith,
    λ after.
        absurd (ground (arith, length-replace signer other v.listeners s, after.enough_listeners)),
  )
