-- ===== src/Tests/Contract.antt =====
-- The bridge contract on a small set of validators. A signature is the key that made it, a text is
-- its own hash, and the parsers know the texts of the runs.
use kolme.Prelude.{
  ℕ, ◌≡◌, refl, true, none, some, [], ◌∷◌, ok, err, ◌==◌, if◌then◌else◌, next, is_ok, not, ◌&&◌,
}
use kolme.BTreeMap.{insert, remove, contains_key}
use kolme.Validators.{ValidatorSet, ValidatorType, self_replace, replace_member}
use kolme.CosmosBridge.{
  Api, Storage, State, cosmos, new_set, signed_event, regular_event, incorrect_action_id, regular,
}
use kolme.CosmosBridge.Signed.{
  signed, Expected, replace, expect_replacement, carry_out, expected_signers, install,
}
use kolme.CosmosBridge.Agreement.{is_member, expect_replacement_iff, expect_replacement_agrees}
use kolme.CosmosBridge.Authority.{IsAuthorized, signed-IsAuthorized, signed_once}
use kolme.CosmosBridge.Groups.{HasGroups, expected_signers-HasGroups}

-- Processor 1, listeners 2 and 3, approvers 4, 5 and 6, of which two are needed.
abbrev present : ValidatorSet
present = record {
  processor = 1;
  listeners = (2, tt) ∷ (3, tt) ∷ [];
  needed_listeners = 1;
  approvers = (4, tt) ∷ (5, tt) ∷ (6, tt) ∷ [];
  needed_approvers = 2;
}

abbrev successor : ValidatorSet
successor = record present { processor = 7 }

abbrev small_api : Api
small_api = record {
  hash = λ text. text;
  validate_signature = λ hash signature. if signature == 0 then none else some signature;
  payload_from_json =
      λ text. if text == 50 then some (record { id = 0; action = cosmos (8 ∷ []) }) else none;
  self_replace_from_json = λ text.
      if text == 60
      then some (record { validator_type = ValidatorType.approver; replacement = 9 })
      else none;
  set_from_json = λ text. if text == 70 then some successor else none;
  parse_version = λ text. some text;
  contract_name = 1;
  contract_version = 1;
}

abbrev start : Storage
start = record {
  state = some (record { set = present; next_event_id = 1; next_action_id = 0 });
  events = [];
  version = none;
}

abbrev sent : Storage
sent = record {
  state = some (record { set = present; next_event_id = 2; next_action_id = 1 });
  events = (1, signed_event 10 0) ∷ [];
  version = none;
}

-- The processor and the approvers 5 and 4 have signed; the signature of 9 is passed over.
runs :
    signed small_api 10 1 (5 ∷ 9 ∷ 4 ∷ []) 50 start
    ≡ ok (record { event = some (1, signed_event 10 0); messages = 8 ∷ [] }, sent)
unfolding signed insert contains_key
runs = refl

signed-IsAuthorized_example : IsAuthorized small_api 1 (5 ∷ 9 ∷ 4 ∷ []) 50 start sent
signed-IsAuthorized_example =
    signed-IsAuthorized small_api 10 1 (5 ∷ 9 ∷ 4 ∷ []) 50 start sent
      (record { event = some (1, signed_event 10 0); messages = 8 ∷ [] }) runs

signed_once_example :
    (id : ℕ) × (signed small_api 11 1 (4 ∷ 6 ∷ []) 50 sent ≡ err (incorrect_action_id (next id) id))
signed_once_example =
    signed_once small_api 10 11 1 1 (5 ∷ 9 ∷ 4 ∷ []) (4 ∷ 6 ∷ []) 50 start sent
      (record { event = some (1, signed_event 10 0); messages = 8 ∷ [] }) runs

-- A listener and two approvers speak for two groups.
agrees :
    expected_signers small_api present (new_set 70 (3 ∷ 6 ∷ 4 ∷ []))
    ≡ ok (record {
      processor = 7;
      approvers = successor.approvers;
      needed_approvers = 2;
      action = install successor;
    })
unfolding expected_signers insert contains_key
agrees = refl

expected_signers-HasGroups_example : HasGroups small_api present 70 (3 ∷ 6 ∷ 4 ∷ [])
expected_signers-HasGroups_example =
    expected_signers-HasGroups small_api present 70 (3 ∷ 6 ∷ 4 ∷ [])
      (record {
        processor = 7;
        approvers = successor.approvers;
        needed_approvers = 2;
        action = install successor;
      })
      agrees

-- An approver hands over to a newcomer, in the contract and on the chain.
abbrev handed_over : ValidatorSet
handed_over = record present { approvers = (4, tt) ∷ (6, tt) ∷ (9, tt) ∷ [] }

abbrev before : State
before = record { set = present; next_event_id = 1; next_action_id = 0 }

abbrev handing_over : Expected
handing_over = record {
  processor = 1;
  approvers = handed_over.approvers;
  needed_approvers = 2;
  action = replace ValidatorType.approver 5 9;
}

chosen :
    expect_replacement present 5
      (record { validator_type = ValidatorType.approver; replacement = 9 })
    ≡ ok handing_over
unfolding expect_replacement insert remove contains_key
chosen = refl

carried_out :
    carry_out (replace ValidatorType.approver 5 9) before
    ≡ ok (record before { set = handed_over }, [])
unfolding carry_out insert remove
carried_out = refl

expect_replacement_agrees_example :
    self_replace {D = ℕ} 5
      (record { validator_type = ValidatorType.approver; replacement = 9 })
      present
    ≡ ok handed_over
expect_replacement_agrees_example =
    expect_replacement_agrees 5 9 ValidatorType.approver before
      (record before { set = handed_over }) handing_over [] chosen carried_out

-- The listener 2 names the listener 3, which the chain accepts.
expect_replacement_iff_example :
    is_ok (
      expect_replacement present 2
        (record { validator_type = ValidatorType.listener; replacement = 3 }))
    ≡ (is_ok (
          self_replace {D = ℕ} 2
            (record { validator_type = ValidatorType.listener; replacement = 3 })
            present)
        && not (is_member ValidatorType.listener 3 present))
expect_replacement_iff_example = expect_replacement_iff 2 3 ValidatorType.listener present

chain_accepts :
    is_ok (
      self_replace {D = ℕ} 2
        (record { validator_type = ValidatorType.listener; replacement = 3 })
        present)
    ≡ true
unfolding self_replace replace_member insert remove contains_key
chain_accepts = refl

-- Deposits get the event ids in order.
deposited :
    regular small_api 10 (3 ∷ []) (record { signature = 12; key = 12 } ∷ []) start
    ≡ ok (
      record { event = some (1, regular_event 10 (3 ∷ []) (12 ∷ [])); messages = [] },
      record start {
        state = some (record { set = present; next_event_id = 2; next_action_id = 0 });
        events = (1, regular_event 10 (3 ∷ []) (12 ∷ [])) ∷ [];
      },
    )
unfolding regular insert
deposited = refl
