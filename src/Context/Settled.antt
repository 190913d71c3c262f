-- ===== src/Context/Settled.antt =====
-- No approved proposal of the administrators is left over.
use kolme.Prelude.{◌≡◌, none, ◌>>◌}
use kolme.Context.{ExecutionContext, Host}
use kolme.Context.Admin.{find_approved_proposal}
use kolme.BTreeMap.{BTreeMap}
use kolme.BTreeMap.All.{All}
use kolme.Context.Ensures.{Ensures}

module _ {D S M : Type 0} (host : Host D S M) where
  -- The search finds no pending proposal.
  abbrev IsSettled : ExecutionContext D S → Type 0
  IsSettled ctx =
      find_approved_proposal ctx.framework_state.validator_set
        ctx.framework_state.admin_proposal_state.proposals
      ≡ none
