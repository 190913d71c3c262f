-- ===== src/Context/Message.antt =====
-- packages/kolme/src/core/execute.rs: `execute_message`.
use kolme.Prelude.{ℕ, List, Action, ensure}
use kolme.Types.{Error, genesis_mismatch}
use kolme.Types.Chain.{ExternalChain}
use kolme.Types.Decimal.{DecimalOps}
use kolme.Types.Bridge.{BridgeEvent}
use kolme.State.{GenesisInfo}
use kolme.Context.{ExecutionContext, Host}
use kolme.Context.Admin
use kolme.Context.Admin.{AdminMessage}
use kolme.Context.Approvals
use kolme.Context.Bank
use kolme.Context.Bank.{BankMessage, AuthMessage}
use kolme.Context.Ready

pub data Message (D M : Type 0) : Type 0 where
  genesis : GenesisInfo → Message D M
  app : M → Message D M
  -- chain, event, event id
  listener : ExternalChain → BridgeEvent → ℕ → Message D M
  -- chain, action id, signature
  approve : ExternalChain → ℕ → ℕ → Message D M
  -- chain, action id, the processor's signature, the approvers' signatures
  processor_approve : ExternalChain → ℕ → ℕ → List ℕ → Message D M
  bank : BankMessage D → Message D M
  auth : AuthMessage → Message D M
  admin : AdminMessage → Message D M

module _ {D S M : Type 0} ⦃ops : DecimalOps D⦄ (host : Host D S M) where
  unfoldable pub execute_message : Message D M → Action (ExecutionContext D S) (Error D) (Unit {0})
  unfolding Ready.listener Approvals.approve Approvals.processor_approve Bank.bank Bank.auth
      Admin.admin
  execute_message (genesis actual) =
      ensure (host.genesis_eq host.genesis_info actual) genesis_mismatch
  execute_message (app message) = host.execute message
  execute_message (listener chain event event_id) = Ready.listener chain event event_id
  execute_message (approve chain id signature) = Approvals.approve host chain id signature
  execute_message (processor_approve chain id processor approvers) =
      Approvals.processor_approve host chain id processor approvers
  execute_message (bank message) = Bank.bank host message
  execute_message (auth message) = Bank.auth message
  execute_message (admin message) = Admin.admin host message
