-- ===== src/CosmosBridge/Signed.antt =====
-- contracts/cosmos/src/lib.rs: `signed`, the handler of a message from the Kolme chain.
use kolme.Prelude.{
  ℕ, ◌+◌, ◌%◌, Bool, true, false, ◌&&◌, ◌||◌, not, none, some, List, [], ◌∷◌, ◌++◌, Result, ok, err,
  ◌==◌, ltb, leb, if◌then◌else◌, length, next, u16_mod,
}
use kolme.BTreeMap.{BTreeSet, contains_key, insert, remove}
use kolme.Validators.{ValidatorSet, ValidatorType, SelfReplace}
use kolme.CosmosBridge.{
  State, CosmosAction, cosmos, self_replace, new_set, PayloadWithId, signed_event, ContractError,
  cosmwasm, signing, insufficient_approvers, incorrect_action_id, insufficient_signatures,
  duplicate_key, public_key_recovery_mismatch, invalid_self_replace, panic, Api, Entry,
}

pub data ParsedAction : Type 0 where
  send : List ℕ → ParsedAction
  -- validator type, old, new
  replace : ValidatorType → ℕ → ℕ → ParsedAction
  install : ValidatorSet → ParsedAction

-- The tuple of the expected signers and the parsed action.
pub record Expected : Type 0 where
  pub processor : ℕ
  pub approvers : BTreeSet
  pub needed_approvers : ℕ
  pub action : ParsedAction

-- The variables of the loop over the approvals of a new set; the counters are `u16`.
pub record Tally : Type 0 where
  pub processor : Bool
  pub listeners : ℕ
  pub approvers : ℕ
  pub used : BTreeSet

-- `Vec::contains`
abbrev pub contains : ℕ → List ℕ → Bool
contains key [] = false
contains key (k ∷ keys) = key == k || contains key keys

unfoldable pub counted : ValidatorSet → ℕ → Tally → Tally
counted set validator t = record {
  processor = if set.processor == validator then true else t.processor;
  listeners =
      if contains_key validator set.listeners then (t.listeners + 1) % u16_mod else t.listeners;
  approvers =
      if contains_key validator set.approvers then (t.approvers + 1) % u16_mod else t.approvers;
  used = insert validator tt t.used;
}

-- `count` of the groups.
abbrev pub one_if : Bool → ℕ
one_if true = 1
one_if false = 0

unfoldable pub groups : ValidatorSet → Tally → ℕ
groups set t =
    one_if t.processor
    + one_if (leb set.needed_listeners t.listeners)
    + one_if (leb set.needed_approvers t.approvers)

-- The arm of `SelfReplace`, the message being parsed and `validator` being its signer.
unfoldable pub expect_replacement : ValidatorSet → ℕ → SelfReplace → Result ContractError Expected
expect_replacement set validator r =
    let expected : Expected = record {
      processor = set.processor;
      approvers = set.approvers;
      needed_approvers = set.needed_approvers;
      action = replace r.validator_type validator r.replacement;
    } in
    let refused : ContractError = invalid_self_replace validator r.replacement r.validator_type in
    elim r.validator_type [
      | ValidatorType.listener ↦
          if not (contains_key validator set.listeners) || contains_key r.replacement set.listeners
          then err refused
          else ok expected
      | ValidatorType.processor ↦
          if validator == set.processor
          then ok (record expected { processor = r.replacement })
          else err refused
      | ValidatorType.approver ↦
          if not (contains_key validator set.approvers) || contains_key r.replacement set.approvers
          then err refused
          else ok (record expected {
            approvers = insert r.replacement tt (remove validator set.approvers);
          })
    ]

-- The last match: the new state and the messages of the response.
unfoldable pub carry_out : ParsedAction → State → Result ContractError (State × List ℕ)
carry_out (send messages) state = ok (state, messages)
carry_out (replace ValidatorType.listener old new) state = ok (
  record state {
    set = record state.set { listeners = insert new tt (remove old state.set.listeners) };
  },
  [],
)
carry_out (replace ValidatorType.processor old new) state =
    if state.set.processor == old
    then ok (record state { set = record state.set { processor = new } }, [])
    else err panic
carry_out (replace ValidatorType.approver old new) state = ok (
  record state {
    set = record state.set { approvers = insert new tt (remove old state.set.approvers) };
  },
  [],
)
carry_out (install set) state = ok (record state { set = set }, [])

abbrev pub no_votes : Tally
no_votes = record { processor = false; listeners = 0; approvers = 0; used = [] }

module _ (api : Api) where
  -- The loop over the approvals of a new set.
  unfoldable pub tally : ℕ → ValidatorSet → List ℕ → Tally → Result ContractError Tally
  unfolding counted
  tally hash set [] t = ok t
  tally hash set (signature ∷ approvals) t = elim (api.validate_signature hash signature) [
    | none ↦ err signing
    | some validator ↦
        let rest = tally hash set approvals (counted set validator t) in
        if contains_key validator t.used
        then err (duplicate_key validator)
        else if set.processor == validator && t.processor
        then err panic
        else rest
  ]

  unfoldable pub expected_signers : ValidatorSet → CosmosAction → Result ContractError Expected
  unfolding expect_replacement tally groups
  expected_signers set (cosmos messages) = ok (record {
    processor = set.processor;
    approvers = set.approvers;
    needed_approvers = set.needed_approvers;
    action = send messages;
  })
  expected_signers set (self_replace rendered signature) =
      elim (api.validate_signature (api.hash rendered) signature) [
        | none ↦ err signing
        | some validator ↦ elim (api.self_replace_from_json rendered) [
          | none ↦ err cosmwasm
          | some r ↦ expect_replacement set validator r
        ]
      ]
  expected_signers set (new_set rendered approvals) = elim (api.set_from_json rendered) [
    | none ↦ err cosmwasm
    | some new ↦ elim (tally (api.hash rendered) set approvals no_votes) [
      | err e ↦ err e
      | ok t ↦
          if ltb (groups set t) 2
          then err (insufficient_signatures 2 (groups set t))
          else ok (record {
            processor = new.processor;
            approvers = new.approvers;
            needed_approvers = new.needed_approvers;
            action = install new;
          })
    ]
  ]

  -- The loop over the signatures of the approvers.
  unfoldable pub check_approvers : ℕ → BTreeSet → List ℕ → List ℕ → Result ContractError (List ℕ)
  check_approvers hash expected [] used = ok used
  check_approvers hash expected (approver ∷ approvers) used =
      elim (api.validate_signature hash approver) [
        | none ↦ err signing
        | some key ↦
            let skipped = check_approvers hash expected approvers used in
            let pushed = check_approvers hash expected approvers (used ++ key ∷ []) in
            if not (contains_key key expected)
            then skipped
            else if contains key used
            then err (duplicate_key key)
            else pushed
      ]

  -- The tests of the signatures of the payload.
  unfoldable pub check_payload : ℕ → ℕ → List ℕ → Expected → Result ContractError (Unit {0})
  unfolding check_approvers
  check_payload hash processor approvers expected = elim (api.validate_signature hash processor) [
    | none ↦ err signing
    | some key ↦
        if key == expected.processor
        then elim (check_approvers hash expected.approvers approvers []) [
          | err e ↦ err e
          | ok used ↦
              if ltb (length used) expected.needed_approvers
              then err (insufficient_approvers expected.needed_approvers (length used % u16_mod))
              else ok tt
        ]
        else err (public_key_recovery_mismatch expected.processor key)
  ]

  -- The part of `signed` after the tests.
  unfoldable pub finish : ℕ → ℕ → ℕ → ParsedAction → State → Entry
  unfolding carry_out
  finish sender id incoming_id action state storage = elim (carry_out action state) [
    | err e ↦ err e
    | ok (state', messages) ↦ ok (
      record { event = some (incoming_id, signed_event sender id); messages = messages },
      record storage {
        state = some state';
        events = insert incoming_id (signed_event sender id) storage.events;
      },
    )
  ]

  abbrev pub advanced : State → State
  advanced state = record state {
    next_action_id = next state.next_action_id;
    next_event_id = next state.next_event_id;
  }

  -- `signed` on a payload with the expected id.
  unfoldable pub execute_payload : ℕ → ℕ → ℕ → List ℕ → PayloadWithId → State → Entry
  unfolding expected_signers check_payload finish
  execute_payload hash sender processor approvers p state storage =
      elim (expected_signers state.set p.action) [
        | err e ↦ err e
        | ok expected ↦ elim (check_payload hash processor approvers expected) [
          | err e ↦ err e
          | ok _ ↦ finish sender p.id state.next_event_id expected.action (advanced state) storage
        ]
      ]

  unfoldable pub signed : ℕ → ℕ → List ℕ → ℕ → Entry
  unfolding execute_payload
  signed sender processor approvers payload storage = elim (api.payload_from_json payload) [
    | none ↦ err cosmwasm
    | some p ↦ elim storage.state [
      | none ↦ err cosmwasm
      | some state ↦
          if p.id == state.next_action_id
          then execute_payload (api.hash payload) sender processor approvers p state storage
          else err (incorrect_action_id state.next_action_id p.id)
    ]
  ]
