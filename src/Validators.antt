-- ===== src/Validators.antt =====
-- `ValidatorSet`, `ValidatorType` and `SelfReplace` of packages/shared/src/types.rs, and the
-- replacement of one validator by `set_helper` of packages/kolme/src/core/execute.rs.
pub mod Validate
pub mod Replace
use kolme.Prelude.{
  ℕ, ◌≡◌, Bool, true, false, ◌||◌, Result, ok, err, ◌==◌, ltb, leb, if◌then◌else◌, length, u16_mod,
}
use kolme.BTreeMap.{BTreeSet, contains_key, insert, remove}
use kolme.Types.{
  Error, not_a_validator, too_many_keys, no_listeners, no_approvers, invalid_needed_listeners,
  invalid_needed_approvers, cannot_self_replace,
}

pub data ValidatorType : Type 0 where
  listener processor approver : ValidatorType

pub record SelfReplace : Type 0 where
  pub validator_type : ValidatorType
  pub replacement : ℕ

pub record ValidatorSet : Type 0 where
  pub processor : ℕ
  pub listeners : BTreeSet
  pub needed_listeners : ℕ
  pub approvers : BTreeSet
  pub needed_approvers : ℕ

module _ {D : Type 0} where
  -- `u16::try_from(..)` fails from 2 ^ 16 on.
  unfoldable pub validate : ValidatorSet → Result (Error D) (Unit {0})
  validate v =
      let listeners = length v.listeners in
      let approvers = length v.approvers in
      if leb u16_mod listeners
      then err (too_many_keys listeners)
      else if leb u16_mod approvers
      then err (too_many_keys approvers)
      else if listeners == 0
      then err no_listeners
      else if ltb listeners v.needed_listeners || v.needed_listeners == 0
      then err (invalid_needed_listeners listeners v.needed_listeners)
      else if approvers == 0
      then err no_approvers
      else if ltb approvers v.needed_approvers || v.needed_approvers == 0
      then err (invalid_needed_approvers approvers v.needed_approvers)
      else ok tt

  unfoldable pub ensure_is_validator : ℕ → ValidatorSet → Result (Error D) (Unit {0})
  ensure_is_validator key v =
      if key == v.processor || contains_key key v.listeners || contains_key key v.approvers
      then ok tt
      else err (not_a_validator key)

  -- The part of `set_helper` on the chosen set: the sender leaves and the replacement enters.
  unfoldable pub replace_member : ℕ → ℕ → BTreeSet → Result (Error D) BTreeSet
  replace_member sender replacement members =
      if contains_key sender members
      then ok (insert replacement tt (remove sender members))
      else err (cannot_self_replace sender)

  -- The match on the validator type in the `SelfReplace` arm of `admin`.
  unfoldable pub self_replace : ℕ → SelfReplace → ValidatorSet → Result (Error D) ValidatorSet
  unfolding replace_member
  self_replace signer message v = elim message.validator_type [
    | ValidatorType.processor ↦
        if v.processor == signer
        then ok (record v { processor = message.replacement })
        else err (cannot_self_replace signer)
    | ValidatorType.listener ↦ elim (replace_member signer message.replacement v.listeners) [
      | ok members ↦ ok (record v { listeners = members })
      | err e ↦ err e
    ]
    | ValidatorType.approver ↦ elim (replace_member signer message.replacement v.approvers) [
      | ok members ↦ ok (record v { approvers = members })
      | err e ↦ err e
    ]
  ]
