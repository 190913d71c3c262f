-- ===== src/Proposals.antt =====
-- Administration proposals: `MigrateContract`, `Upgrade` and `ProposalPayload` of
-- packages/kolme/src/core/types.rs, `PendingProposal` and `AdminProposalState` of
-- packages/kolme/src/core/state.rs.
pub mod Approval
use kolme.Prelude.{
  ℕ, ◌+◌, ◌%◌, Bool, true, false, ◌&&◌, not, Option, none, some, [], ◌∷◌, ◌==◌, leb, if◌then◌else◌,
  u16_mod,
}
use kolme.BTreeMap.{BTreeMap, BTreeSet, contains_key}
use kolme.Types.Chain.{ExternalChain, CosmosChain, SolanaChain, of_cosmos, of_solana}
use kolme.Types.Signed.{TaggedJson, tagged_eq}
use kolme.Validators.{ValidatorSet}

pub data MigrateContract : Type 0 where
  -- chain, new code id, message
  cosmos : CosmosChain → ℕ → ℕ → MigrateContract
  -- chain, buffer address, spill address
  solana : SolanaChain → ℕ → ℕ → MigrateContract

-- `MigrateContract::chain`
unfoldable pub chain : MigrateContract → ExternalChain
chain (cosmos c _ _) = of_cosmos c
chain (solana c _ _) = of_solana c

pub record Upgrade : Type 0 where
  pub desired_version : ℕ

pub data ProposalPayload : Type 0 where
  new_set : TaggedJson ValidatorSet → ProposalPayload
  migrate_contract : TaggedJson MigrateContract → ProposalPayload
  upgrade : TaggedJson Upgrade → ProposalPayload

unfoldable pub as_bytes : ProposalPayload → ℕ
as_bytes (new_set p) = p.serialized
as_bytes (migrate_contract p) = p.serialized
as_bytes (upgrade p) = p.serialized

-- The derived `PartialEq`.
unfoldable pub payload_eq : ProposalPayload → ProposalPayload → Bool
payload_eq (new_set p) (new_set q) = tagged_eq p q
payload_eq (migrate_contract p) (migrate_contract q) = tagged_eq p q
payload_eq (upgrade p) (upgrade q) = tagged_eq p q
payload_eq _ _ = false

abbrev pub is_upgrade : ProposalPayload → Bool
is_upgrade (upgrade _) = true
is_upgrade _ = false

pub record PendingProposal : Type 0 where
  pub payload : ProposalPayload
  -- public key to signature
  pub approvals : BTreeMap ℕ

pub record AdminProposalState : Type 0 where
  pub next_admin_proposal_id : ℕ
  pub proposals : BTreeMap PendingProposal

-- The loop of `fulfills_groups`, which counts in a `u16`.
unfoldable pub count_approvals : BTreeMap ℕ → BTreeSet → ℕ → ℕ
count_approvals approvals [] count = count
count_approvals approvals ((member, _) ∷ group) count =
    count_approvals approvals group
      (if contains_key member approvals then (count + 1) % u16_mod else count)

unfoldable pub fulfills_groups : PendingProposal → BTreeSet → ℕ → Bool
unfolding count_approvals
fulfills_groups p group needed = leb needed (count_approvals p.approvals group 0)

abbrev vote : Bool → ℕ
vote true = 1
vote false = 0

unfoldable pub has_sufficient_approvals : PendingProposal → ValidatorSet → Bool
unfolding fulfills_groups
has_sufficient_approvals p v =
    let by_processor = contains_key v.processor p.approvals in
    if is_upgrade p.payload && not by_processor
    then false
    else leb 2 (
        vote by_processor
        + vote (fulfills_groups p v.listeners v.needed_listeners)
        + vote (fulfills_groups p v.approvers v.needed_approvers))
