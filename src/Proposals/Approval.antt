-- ===== src/Proposals/Approval.antt =====
-- When a proposal has sufficient approvals.
use kolme.Prelude.{ℕ, suc, ◌≤◌, ◌≡◌, ◌⊎◌, true, [], ◌∷◌, arith, if◌then◌else◌, length}
use kolme.BTreeMap.{BTreeMap, BTreeSet, contains_key}
use kolme.Validators.{ValidatorSet}
use kolme.Proposals.{PendingProposal, is_upgrade}

-- The members of a group that approve.
abbrev approving : BTreeMap ℕ → BTreeSet → ℕ
approving approvals [] = 0
approving approvals ((member, _) ∷ group) =
    if contains_key member approvals
    then suc (approving approvals group)
    else approving approvals group

approving-le-length :
    (approvals : BTreeMap ℕ) (group : BTreeSet) → approving approvals group ≤ length group
approving-le-length approvals [] = omega arith
approving-le-length approvals ((member, _) ∷ group) =
    ground (arith, approving-le-length approvals group)

-- The group has its quorum.
abbrev HasQuorumOf : BTreeMap ℕ → BTreeSet → ℕ → Type 0
HasQuorumOf approvals group needed = needed ≤ approving approvals group

-- Two of the three: the processor, a quorum of listeners, a quorum of approvers.
abbrev pub HasTwoGroups : PendingProposal → ValidatorSet → Type 0
HasTwoGroups p v =
    (contains_key v.processor p.approvals ≡ true)
      × (HasQuorumOf p.approvals v.listeners v.needed_listeners
          ⊎ HasQuorumOf p.approvals v.approvers v.needed_approvers)
    ⊎ HasQuorumOf p.approvals v.listeners v.needed_listeners
      × HasQuorumOf p.approvals v.approvers v.needed_approvers

-- The rule for a proposal: two of the three, and for an upgrade the processor among them.
abbrev pub IsApproved : PendingProposal → ValidatorSet → Type 0
IsApproved p v =
    HasTwoGroups p v × (is_upgrade p.payload ≡ true → contains_key v.processor p.approvals ≡ true)
