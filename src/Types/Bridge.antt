-- ===== src/Types/Bridge.antt =====
-- The state of one bridge: `ChainConfig`, `BridgeContract`, `BridgeEvent`, `PendingBridgeAction`,
-- `PendingBridgeEvent` and `ChainState` of packages/kolme/src/core/types.rs.
use kolme.Prelude.{
  ℕ, Bool, true, false, ◌&&◌, Option, none, some, List, [], ◌∷◌, ok, err, Action, ◌==◌,
}
use kolme.BTreeMap.{BTreeMap, BTreeSet, get, insert}
use kolme.Types.Asset.{AssetConfig}
use kolme.Types.Decimal.{DecimalOps}
use kolme.Types.Errors.{Error, deposit_overflow, insufficient_funds}

-- Texts (addresses, program ids, asset names) are only compared and are numbers.
pub data BridgeContract : Type 0 where
  needed_cosmos_bridge needed_solana_bridge : ℕ → BridgeContract
  needed_ethereum_bridge : BridgeContract
  deployed : ℕ → BridgeContract

pub record ChainConfig : Type 0 where
  pub assets : BTreeMap AssetConfig
  pub bridge : BridgeContract

-- denomination and amount
pub record BridgedAssetAmount : Type 0 where
  pub denom : ℕ
  pub amount : ℕ

pub data BridgeEvent : Type 0 where
  instantiated : ℕ → BridgeEvent
  -- wallet, funds, keys
  regular : ℕ → List BridgedAssetAmount → List ℕ → BridgeEvent
  -- wallet, action id
  signed : ℕ → ℕ → BridgeEvent

-- The derived `PartialEq`.
unfoldable funds_eq : List BridgedAssetAmount → List BridgedAssetAmount → Bool
funds_eq [] [] = true
funds_eq (x ∷ xs) (y ∷ ys) = x.denom == y.denom && x.amount == y.amount && funds_eq xs ys
funds_eq _ _ = false

unfoldable keys_eq : List ℕ → List ℕ → Bool
keys_eq [] [] = true
keys_eq (x ∷ xs) (y ∷ ys) = x == y && keys_eq xs ys
keys_eq _ _ = false

unfoldable pub event_eq : BridgeEvent → BridgeEvent → Bool
unfolding funds_eq keys_eq
event_eq (instantiated c) (instantiated d) = c == d
event_eq (regular w fs ks) (regular v gs ls) = w == v && funds_eq fs gs && keys_eq ks ls
event_eq (signed w i) (signed v j) = w == v && i == j
event_eq _ _ = false

pub record PendingBridgeAction : Type 0 where
  pub payload : ℕ
  -- public key to signature
  pub approvals : BTreeMap ℕ
  pub processor : Option ℕ

pub record PendingBridgeEvent : Type 0 where
  pub event : BridgeEvent
  pub attestations : BTreeSet

pub record ChainState (D : Type 0) : Type 0 where
  pub config : ChainConfig
  pub next_action_id : ℕ
  pub pending_actions : BTreeMap PendingBridgeAction
  pub next_event_id : ℕ
  pub pending_events : BTreeMap PendingBridgeEvent
  pub assets : BTreeMap D

module _ {D : Type 0} where
  unfoldable pub into_state : ChainConfig → ChainState D
  into_state config = record {
    config = config;
    next_action_id = 0;
    pending_actions = [];
    next_event_id = 0;
    pending_events = [];
    assets = [];
  }

module _ {D : Type 0} ⦃ops : DecimalOps D⦄ where
  -- `assets.entry(asset_id).or_default()`
  abbrev bridge_balance : ℕ → ChainState D → D
  bridge_balance asset state = elim (get asset state.assets) [ none ↦ ops.zero | some b ↦ b ]

  -- The entry is there afterwards also if the sum overflows.
  unfoldable pub deposit : ℕ → D → Action (ChainState D) (Error D) (Unit {0})
  deposit asset amount state =
      let old = bridge_balance asset state in
      elim (ops.checked_add old amount) [
        | none ↦ (
          err (deposit_overflow asset amount),
          record state { assets = insert asset old state.assets },
        )
        | some sum ↦ (ok tt, record state { assets = insert asset sum state.assets })
      ]

  unfoldable pub withdraw : ℕ → D → Action (ChainState D) (Error D) (Unit {0})
  withdraw asset amount state =
      let old = bridge_balance asset state in
      elim (ops.checked_sub old amount) [
        | none ↦ (
          err (insufficient_funds asset amount),
          record state { assets = insert asset old state.assets },
        )
        | some left ↦ (ok tt, record state { assets = insert asset left state.assets })
      ]
