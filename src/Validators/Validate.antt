-- ===== src/Validators/Validate.antt =====
-- `ValidatorSet::validate` accepts exactly the sets with a reachable quorum in both groups.
use kolme.Prelude.{◌≡◌, ◌↔◌, ◌<◌, ◌≤◌, ok, arith, length, u16_mod}
use kolme.Validators.{ValidatorSet, validate}

-- Each quorum is at least one, and not more than the keys, which a `u16` can count.
pub record HasQuorums (v : ValidatorSet) : Type 0 where
  pub some_listener_needed : 1 ≤ v.needed_listeners
  pub enough_listeners : v.needed_listeners ≤ length v.listeners
  pub few_listeners : length v.listeners < u16_mod
  pub some_approver_needed : 1 ≤ v.needed_approvers
  pub enough_approvers : v.needed_approvers ≤ length v.approvers
  pub few_approvers : length v.approvers < u16_mod

-- `validate` accepts a validator set exactly if it has its quorums.
pub validate-HasQuorums :
    {D : Type 0} (v : ValidatorSet) → (validate {D = D} v ≡ ok tt) ↔ HasQuorums v
unfolding validate
validate-HasQuorums v = ground arith
