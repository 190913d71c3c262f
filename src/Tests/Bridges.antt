-- ===== src/Tests/Bridges.antt =====
-- Runs of the handlers of a bridge and of a transfer.
use kolme.Prelude.{arith, ℕ, ◌≡◌, refl, [], ◌∷◌, some, none, true, Result, ok, Action}
use kolme.Prelude.Int.{ℤ, pos, ◌+ℤ◌, ◌-ℤ◌}
use kolme.Types.Decimal.{value}
use kolme.Accounts.Balances.{balance_of}
use kolme.Accounts.{Accounts}
use kolme.Context.{ExecutionContext, no_prior_data, processed_bridge_event}
use kolme.BTreeMap.{get}
use kolme.Types.Chain.{ExternalChain, to_merkle_key}
use kolme.Types.Bridge.{BridgeContract, ChainState, regular}
use kolme.Context.Bank.{transfer_asset}
use kolme.Context.Ensures.{Ensures}
use kolme.Context.Ready.{process_ready_events, listener}
use kolme.Context.Rounds.{HasAtMost}
use kolme.Context.Rounds.Loop.{IsDone, process_ready_events-IsDone}
use kolme.Context.Rounds.Quiet.{IsQuiet, listener-IsQuiet}
use kolme.Context.Transfers.{supply-transfer_asset}
use kolme.Accounts.Supply.{supply}
use kolme.Tests.Decimals.{whole_ops, whole-IsDecimal}
use kolme.Tests.Sample.{ledger, owner, ledger-IsValid}
use kolme.Context.Approvals.{processor_approve}
use kolme.Context.Finality.{HasQuorum, processor_approve-HasQuorum}
use kolme.Tests.Transactions.{host, state}

-- A bridge on which an event with its quorum waits: 30 units of denomination 5 for wallet 66.
abbrev bridge : ChainState ℤ
bridge = record {
  config = record {
    assets = (5, record { decimals = 28; asset_id = 7 }) ∷ [];
    bridge = BridgeContract.deployed 12;
  };
  next_action_id = 0;
  pending_actions = [];
  next_event_id = 1;
  pending_events =
      (
        0,
        record {
          event = regular 66 (record { denom = 5; amount = 30 } ∷ []) (101 ∷ []);
          attestations = (2, tt) ∷ [];
        },
      )
      ∷ [];
  assets = [];
}

abbrev context : ExecutionContext ℤ ℕ
context = record {
  framework_state = record state { chains = (5, (ExternalChain.osmosis_testnet, bridge)) ∷ [] };
  app_state = 0;
  logs = [] ∷ [];
  loads = [];
  block_data_handling = no_prior_data;
  pubkey = 2;
  sender = 0;
  signing_key = 2;
  timestamp = 10;
  height = 5;
}

context-HasAtMost : HasAtMost ExternalChain.osmosis_testnet 1 context
unfolding get to_merkle_key
context-HasAtMost = ((ExternalChain.osmosis_testnet, bridge), refl, omega arith)

process_ready_events-IsDone_example :
    Ensures
      (IsDone ExternalChain.osmosis_testnet)
      (process_ready_events 1 ExternalChain.osmosis_testnet context)
process_ready_events-IsDone_example =
    process_ready_events-IsDone ExternalChain.osmosis_testnet 1 context context-HasAtMost

abbrev transferred : ExecutionContext ℤ ℕ
transferred = record context {
  framework_state = record context.framework_state {
    accounts = record ledger {
      accounts =
          (0, record owner { assets = (7, pos 380) ∷ [] })
          ∷ (3, record { assets = (7, pos 120) ∷ []; wallets = []; pubkeys = []; next_nonce = 0 })
          ∷ [];
    };
  };
}

transfer_asset_run : transfer_asset 7 0 3 (pos 120) context ≡ (ok tt, transferred)
unfolding transfer_asset kolme.BTreeMap.get kolme.Accounts.burn kolme.BTreeMap.insert
    kolme.Accounts.mint kolme.Prelude.Int.◌-ℤ◌ kolme.Prelude.Int.◌+ℤ◌
transfer_asset_run = refl

-- The balances after the transfer.
source_keeps : value (pos 380) ≡ balance_of 0 7 ledger -ℤ value (pos 120)
unfolding value kolme.BTreeMap.get kolme.Prelude.Int.◌-ℤ◌
source_keeps = refl

destination_gets : value (pos 120) ≡ balance_of 3 7 ledger +ℤ value (pos 120)
unfolding value kolme.BTreeMap.get kolme.Prelude.Int.◌+ℤ◌
destination_gets = refl

supply-transfer_asset_example :
    supply 7 transferred.framework_state.accounts ≡ supply 7 context.framework_state.accounts
supply-transfer_asset_example =
    supply-transfer_asset whole-IsDecimal 7 0 3 (pos 120) context ledger-IsValid transferred
      (pos 380) (pos 120) source_keeps destination_gets transfer_asset_run 7

-- Where nothing waits, listener 2 reports a deposit of nothing by wallet 55: one listener is the
-- quorum, and the event is processed at once.
abbrev idle : ExecutionContext ℤ ℕ
idle = record context {
  framework_state = record state {
    chains =
        (
          5,
          (ExternalChain.osmosis_testnet, record bridge { next_event_id = 0; pending_events = [] }),
        )
        ∷ [];
  };
}

abbrev processed : ExecutionContext ℤ ℕ
processed = record context {
  framework_state = record state {
    chains =
        (
          5,
          (ExternalChain.osmosis_testnet, record bridge { next_event_id = 1; pending_events = [] }),
        )
        ∷ [];
  };
  logs = (processed_bridge_event 0 0 ∷ []) ∷ [];
}

listener_run : listener ExternalChain.osmosis_testnet (regular 55 [] []) 0 idle ≡ (ok tt, processed)
unfolding listener kolme.BTreeMap.get kolme.BTreeMap.insert kolme.BTreeMap.remove
    kolme.BTreeMap.contains_key kolme.Accounts.Keys.get_or_add_account_for_wallet
listener_run = refl

listener-IsQuiet_example : IsQuiet ExternalChain.osmosis_testnet processed
listener-IsQuiet_example =
    listener-IsQuiet ExternalChain.osmosis_testnet (regular 55 [] []) 0 idle processed listener_run

-- Action 0 waits; the processor signs as key 1 and the approver as key 4.
abbrev waiting : ExecutionContext ℤ ℕ
waiting = record context {
  framework_state = record state {
    chains =
        (
          5,
          (
            ExternalChain.osmosis_testnet,
            record bridge {
              next_action_id = 1;
              pending_actions = (0, record { payload = 33; approvals = []; processor = none }) ∷ [];
            },
          ),
        )
        ∷ [];
  };
}

abbrev finalized : ExecutionContext ℤ ℕ
finalized = record context {
  framework_state = record state {
    chains =
        (
          5,
          (
            ExternalChain.osmosis_testnet,
            record bridge {
              next_action_id = 1;
              pending_actions =
                  (0, record { payload = 33; approvals = []; processor = some 1 }) ∷ [];
            },
          ),
        )
        ∷ [];
  };
}

processor_approve_run :
    processor_approve host ExternalChain.osmosis_testnet 0 1 (4 ∷ []) waiting ≡ (ok tt, finalized)
unfolding processor_approve kolme.BTreeMap.get kolme.BTreeMap.insert kolme.BTreeMap.contains_key
    to_merkle_key
processor_approve_run = refl

processor_approve-HasQuorum_example :
    (entry : ExternalChain × ChainState ℤ) × (get
        (to_merkle_key ExternalChain.osmosis_testnet)
        waiting.framework_state.chains
      ≡ some entry)
    × HasQuorum host ExternalChain.osmosis_testnet waiting.framework_state.validator_set 0 1
        (4 ∷ [])
        entry.1
processor_approve-HasQuorum_example =
    processor_approve-HasQuorum host ExternalChain.osmosis_testnet 0 1 (4 ∷ []) waiting finalized
      processor_approve_run
