-- ===== src/CosmosBridge/Agreement.antt =====
-- The replacement of a validator by the contract and by the chain (`set_helper` of
-- packages/kolme/src/core/execute.rs), side by side.
use kolme.Prelude.{ℕ, ◌≡◌, ap, sym, ◌∙◌, true, false, List, ok, arith, is_ok, not, ◌&&◌, Bool}
use kolme.BTreeMap.{contains_key}
use kolme.Validators.{ValidatorSet, ValidatorType, SelfReplace, self_replace, replace_member}
use kolme.CosmosBridge.{State}
use kolme.CosmosBridge.Signed.{Expected, replace, expect_replacement, carry_out}

-- Is the replacement in the group already? The processor is no group.
abbrev pub is_member : ValidatorType → ℕ → ValidatorSet → Bool
is_member ValidatorType.listener key set = contains_key key set.listeners
is_member ValidatorType.processor key set = false
is_member ValidatorType.approver key set = contains_key key set.approvers

abbrev as_message : ValidatorType → ℕ → SelfReplace
as_message t new = record { validator_type = t; replacement = new }

-- The contract accepts a replacement exactly if the chain does and the replacement is not in the
-- group already.
pub expect_replacement_iff :
    (validator new : ℕ) (t : ValidatorType) (set : ValidatorSet)
    → is_ok (expect_replacement set validator (as_message t new))
      ≡ (is_ok (self_replace {D = ℕ} validator (as_message t new) set) && not (is_member t new set))
unfolding expect_replacement self_replace replace_member
expect_replacement_iff validator new ValidatorType.listener set = ground arith
expect_replacement_iff validator new ValidatorType.processor set = ground arith
expect_replacement_iff validator new ValidatorType.approver set = ground arith

parsed_action :
    (validator new : ℕ) (t : ValidatorType) (set : ValidatorSet) (expected : Expected)
    → expect_replacement set validator (as_message t new) ≡ ok expected
    → expected.action ≡ replace t validator new
unfolding expect_replacement
parsed_action validator new ValidatorType.listener set expected e = ground arith
parsed_action validator new ValidatorType.processor set expected e = ground arith
parsed_action validator new ValidatorType.approver set expected e = ground arith

same_set :
    (validator new : ℕ) (t : ValidatorType) (state state' : State) (messages : List ℕ)
    → is_ok (self_replace {D = ℕ} validator (as_message t new) state.set) ≡ true
    → carry_out (replace t validator new) state ≡ ok (state', messages)
    → self_replace {D = ℕ} validator (as_message t new) state.set ≡ ok state'.set
unfolding carry_out self_replace replace_member
same_set validator new ValidatorType.listener state state' messages h f = ground arith
same_set validator new ValidatorType.processor state state' messages h f = ground arith
same_set validator new ValidatorType.approver state state' messages h f = ground arith

-- If the contract carries out a replacement, the chain accepts it, and both have the same set then.
pub expect_replacement_agrees :
    (validator new : ℕ) (t : ValidatorType) (state state' : State) (expected : Expected)
    (messages : List ℕ)
    → expect_replacement state.set validator (as_message t new) ≡ ok expected
    → carry_out expected.action state ≡ ok (state', messages)
    → self_replace {D = ℕ} validator (as_message t new) state.set ≡ ok state'.set
expect_replacement_agrees validator new t state state' expected messages e f =
    same_set validator new t state state' messages
      (ground (arith, e, expect_replacement_iff validator new t state.set))
      (ap (λ a. carry_out a state) (sym (parsed_action validator new t state.set expected e)) ∙ f)
