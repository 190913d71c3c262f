-- ===== src/Tests/Governance.antt =====
-- Runs of the validator sets and of the proposals.
use kolme.Prelude.{◌≡◌, ◌↔◌, refl, true, false, [], ◌∷◌, inr, ok, arith}
use kolme.Prelude.Int.{ℤ}
use kolme.BTreeMap.{contains_key, insert, remove}
use kolme.Validators.{ValidatorSet, ValidatorType, SelfReplace, validate, self_replace}
use kolme.Validators.Validate.{HasQuorums, validate-HasQuorums}
use kolme.Validators.Replace.{self_replace-HasQuorums, self_replace_loses_quorum}
use kolme.Proposals
use kolme.Proposals.{PendingProposal}

-- Processor 1, two of the listeners 2 and 3, one of the approvers 4 and 5.
abbrev validators : ValidatorSet
validators = record {
  processor = 1;
  listeners = (2, tt) ∷ (3, tt) ∷ [];
  needed_listeners = 2;
  approvers = (4, tt) ∷ (5, tt) ∷ [];
  needed_approvers = 1;
}

validate-HasQuorums_example : (validate {D = ℤ} validators ≡ ok tt) ↔ HasQuorums validators
validate-HasQuorums_example = validate-HasQuorums validators

validate_run : validate {D = ℤ} validators ≡ ok tt
unfolding validate
validate_run = refl

validators-HasQuorums : HasQuorums validators
validators-HasQuorums = validate-HasQuorums_example.0 validate_run

-- Listener 2 hands over to the new key 6.
abbrev handover : SelfReplace
handover = record { validator_type = ValidatorType.listener; replacement = 6 }

abbrev handed_over : ValidatorSet
handed_over = record validators { listeners = (3, tt) ∷ (6, tt) ∷ [] }

handover_run : self_replace {D = ℤ} 2 handover validators ≡ ok handed_over
unfolding self_replace contains_key insert remove
handover_run = refl

six_is_new : contains_key 6 validators.listeners ≡ false
unfolding contains_key
six_is_new = refl

self_replace-HasQuorums_example : HasQuorums handed_over
self_replace-HasQuorums_example =
    self_replace-HasQuorums {D = ℤ} 2 handover validators handed_over ((omega arith, tt), (tt, tt))
      ((omega arith, tt), (tt, tt)) validators-HasQuorums (inr six_is_new) handover_run

two_listens : contains_key 2 validators.listeners ≡ true
unfolding contains_key
two_listens = refl

three_listens : contains_key 3 validators.listeners ≡ true
unfolding contains_key
three_listens = refl

-- Listener 2 names listener 3.
self_replace_loses_quorum_example :
    (v' : ValidatorSet) × (self_replace {D = ℤ} 2
        (record { validator_type = ValidatorType.listener; replacement = 3 })
        validators
      ≡ ok v')
    × ¬ HasQuorums v'
self_replace_loses_quorum_example =
    self_replace_loses_quorum {D = ℤ} 2 3 validators validators-HasQuorums
      ((omega arith, tt), (tt, tt)) refl two_listens three_listens (omega arith)

-- An upgrade that the processor and approver 4 approve.
abbrev proposal : PendingProposal
proposal = record {
  payload = Proposals.upgrade (record { serialized = 9; value = record { desired_version = 2 } });
  approvals = (1, 11) ∷ (4, 44) ∷ [];
}
