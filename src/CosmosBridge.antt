-- ===== src/CosmosBridge.antt =====
-- contracts/cosmos/src/lib.rs: the bridge contract on a CosmWasm chain, with the messages and the
-- state of packages/shared/src/cosmos.rs. An entry point returns the new storage with its response;
-- after an error the chain keeps the old storage. JSON texts, messages to the chain and coins are
-- numbers, which the contract only passes on, hashes, or gives to a parser of `Api`.
pub mod Signed
pub mod Quorum
pub mod Authority
pub mod Groups
pub mod Agreement
use kolme.Prelude.{
  ℕ, Bool, true, false, Option, none, some, List, [], ◌∷◌, Result, ok, err, ◌==◌, ltb,
  if◌then◌else◌, length, next,
}
use kolme.BTreeMap.{BTreeMap, BTreeSet, get, insert}
use kolme.Types.{Error}
use kolme.Validators.{ValidatorSet, ValidatorType, SelfReplace, validate}

-- `shared::cosmos::State`
pub record State : Type 0 where
  pub set : ValidatorSet
  pub next_event_id : ℕ
  pub next_action_id : ℕ

pub data CosmosAction : Type 0 where
  cosmos : List ℕ → CosmosAction
  -- rendered, signature
  self_replace : ℕ → ℕ → CosmosAction
  -- rendered, approvals
  new_set : ℕ → List ℕ → CosmosAction

pub record PayloadWithId : Type 0 where
  pub id : ℕ
  pub action : CosmosAction

pub record KeyRegistration : Type 0 where
  pub signature : ℕ
  pub key : ℕ

pub data BridgeEventMessage : Type 0 where
  -- wallet, funds, keys
  regular_event : ℕ → List ℕ → List ℕ → BridgeEventMessage
  -- wallet, action_id
  signed_event : ℕ → ℕ → BridgeEventMessage

-- `STATE`, `EVENTS` and the contract version of cw2.
pub record Storage : Type 0 where
  pub state : Option State
  pub events : BTreeMap BridgeEventMessage
  pub version : Option (ℕ × ℕ)

pub record Response : Type 0 where
  pub event : Option (ℕ × BridgeEventMessage)
  pub messages : List ℕ

pub data ContractError : Type 0 where
  -- a failure of storage or of a JSON parser
  cosmwasm : ContractError
  signing : ContractError
  no_approvers_provided : ContractError
  -- needed, provided
  insufficient_approvers : ℕ → ℕ → ContractError
  -- expected, received
  incorrect_action_id : ℕ → ℕ → ContractError
  insufficient_signatures : ℕ → ℕ → ContractError
  duplicate_key : ℕ → ContractError
  public_key_recovery_mismatch : ℕ → ℕ → ContractError
  -- signed by, replacement
  invalid_self_replace : ℕ → ℕ → ValidatorType → ContractError
  validator_set_error : Error ℕ → ContractError
  semver_parse : ContractError
  mismatched_contract_migration_name : ℕ → ContractError
  migrate_to_older : ℕ → ContractError
  -- `assert!`
  panic : ContractError

-- What the contract takes from its libraries: SHA-256 of a text, the key behind a signature of a
-- hash (`validate_signature` of signing.rs), the JSON parsers, and versions in their order.
pub record Api : Type 0 where
  pub hash : ℕ → ℕ
  pub validate_signature : ℕ → ℕ → Option ℕ
  pub payload_from_json : ℕ → Option PayloadWithId
  pub self_replace_from_json : ℕ → Option SelfReplace
  pub set_from_json : ℕ → Option ValidatorSet
  pub parse_version : ℕ → Option ℕ
  pub contract_name : ℕ
  pub contract_version : ℕ

abbrev Entry : Type 0
Entry = Storage → Result ContractError (Response × Storage)

module _ (api : Api) where
  abbrev set_contract_version : Storage → Storage
  set_contract_version storage = record storage {
    version = some (api.contract_name, api.contract_version);
  }

  unfoldable instantiate : ValidatorSet → Entry
  instantiate set storage = elim (validate {D = ℕ} set) [
    | err source ↦ err (validator_set_error source)
    | ok _ ↦ elim set.approvers [
      | [] ↦ err no_approvers_provided
      | _ ∷ _ ↦ ok (
        record { event = none; messages = [] },
        record (set_contract_version storage) {
          state = some (record { set = set; next_event_id = next 0; next_action_id = 0 });
        },
      )
    ]
  ]

  -- The loop of `regular` over the registrations.
  unfoldable check_keys : ℕ → List KeyRegistration → Result ContractError (Unit {0})
  check_keys hash [] = ok tt
  check_keys hash (r ∷ keys) = elim (api.validate_signature hash r.signature) [
    | none ↦ err signing
    | some recovered_key ↦
        let rest = check_keys hash keys in
        if recovered_key == r.key
        then rest
        else err (public_key_recovery_mismatch r.key recovered_key)
  ]

  abbrev keys_of : List KeyRegistration → List ℕ
  keys_of [] = []
  keys_of (r ∷ keys) = r.key ∷ keys_of keys

  unfoldable pub regular : ℕ → List ℕ → List KeyRegistration → Entry
  unfolding check_keys
  regular sender funds keys storage = elim (check_keys (api.hash sender) keys) [
    | err e ↦ err e
    | ok _ ↦ elim storage.state [
      | none ↦ err cosmwasm
      | some state ↦
          let id = state.next_event_id in
          let event = regular_event sender funds (keys_of keys) in
          ok (
            record { event = some (id, event); messages = [] },
            record storage {
              state = some (record state { next_event_id = next id });
              events = insert id event storage.events;
            },
          )
    ]
  ]

  unfoldable migrate : Entry
  migrate storage = elim storage.version [
    | none ↦ err cosmwasm
    | some (contract, version) ↦ elim (api.parse_version version) [
      | none ↦ err semver_parse
      | some old_version ↦ elim (api.parse_version api.contract_version) [
        | none ↦ err semver_parse
        | some new_version ↦
            if contract == api.contract_name
            then if ltb new_version old_version
              then err (migrate_to_older version)
              else ok (record { event = none; messages = [] }, set_contract_version storage)
            else err (mismatched_contract_migration_name contract)
      ]
    ]
  ]

-- `query` of an event.
abbrev get_event : ℕ → Storage → Option BridgeEventMessage
get_event id storage = get id storage.events
