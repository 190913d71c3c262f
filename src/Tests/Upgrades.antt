-- ===== src/Tests/Upgrades.antt =====
-- A run of the proposals: an upgrade that the processor and the one approver have approved.
use kolme.Prelude.{ℕ, ◌≡◌, refl, [], ◌∷◌, ok}
use kolme.Prelude.Int.{ℤ}
use kolme.Proposals
use kolme.Proposals.{PendingProposal}
use kolme.BTreeMap.All.{All}
use kolme.Context.{ExecutionContext, no_prior_data, admin_proposal_approved}
use kolme.Context.Admin.{check_pending_proposals}
use kolme.Tests.Transactions.{host, state}

abbrev proposed : ExecutionContext ℤ ℕ
proposed = record {
  framework_state = record state {
    admin_proposal_state = record {
      next_admin_proposal_id = 1;
      proposals =
          (
            0,
            record {
              payload =
                  Proposals.upgrade
                    (record { serialized = 9; value = record { desired_version = 2 } });
              approvals = (1, 1) ∷ (4, 4) ∷ [];
            },
          )
          ∷ [];
    };
  };
  app_state = 0;
  logs = [] ∷ [];
  loads = [];
  block_data_handling = no_prior_data;
  pubkey = 4;
  sender = 0;
  signing_key = 4;
  timestamp = 10;
  height = 5;
}

abbrev upgraded : ExecutionContext ℤ ℕ
upgraded = record proposed {
  framework_state = record state {
    version = 2;
    admin_proposal_state = record { next_admin_proposal_id = 1; proposals = [] };
  };
  logs = (admin_proposal_approved 0 ∷ []) ∷ [];
}

upgrade_run : check_pending_proposals host proposed ≡ (ok tt, upgraded)
unfolding check_pending_proposals kolme.BTreeMap.contains_key
upgrade_run = refl

-- An upgrade with the approval of the processor.
abbrev lonely : PendingProposal
lonely = record {
  payload = Proposals.upgrade (record { serialized = 9; value = record { desired_version = 2 } });
  approvals = (1, 1) ∷ [];
}

-- Only the processor has approved the upgrade, which stays pending.
abbrev undecided : ExecutionContext ℤ ℕ
undecided = record proposed {
  framework_state = record state {
    admin_proposal_state = record { next_admin_proposal_id = 1; proposals = (0, lonely) ∷ [] };
  };
}
