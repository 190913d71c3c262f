-- ===== src/Chain/Saving.antt =====
-- What is saved of a block, and compared with it.
use kolme.Prelude.{◌≡◌, ok, arith, ◌==◌, Bool-cases, Result-cases, inl, inr}
use kolme.Execute.{ExecutionResults}
use kolme.Chain.{SignedBlock, Storing, Kolme, add_executed_block, save_results}

module _ {D S M T : Type 0} (storing : Storing D S M T) where
  -- The stores gave the hashes that the block names: of the framework state, of the state of the
  -- application, and of the logs, saved one after the other.
  abbrev pub HasHashes : SignedBlock D M → ExecutionResults D S → T → Type 0
  HasHashes signed results t =
      let after_framework = storing.save_framework_state results.framework_state t in
      let after_app = storing.save_app_state results.app_state after_framework.1 in
      (after_framework.0 ≡ ok signed.message.value.framework_state)
      × (after_app.0 ≡ ok signed.message.value.app_state)
      × ((storing.save_logs results.logs after_app.1).0 ≡ ok signed.message.value.logs)

  save_results-HasHashes :
      (signed : SignedBlock D M) (results : ExecutionResults D S) (t : T)
      → (save_results storing signed results t).0 ≡ ok tt
      → HasHashes signed results t
  unfolding save_results
  save_results-HasHashes signed results t e =
      let after_framework = storing.save_framework_state results.framework_state t in
      let after_app = storing.save_app_state results.app_state after_framework.1 in
      let after_logs = storing.save_logs results.logs after_app.1 in
      let block = signed.message.value in
      elim (Result-cases after_framework.0) [
        | inr (_, f) ↦ absurd (ground (arith, e, f))
        | inl (framework, f) ↦ elim (Bool-cases (framework == block.framework_state)) [
          | inr a ↦ absurd (ground (arith, e, f, a))
          | inl a ↦ elim (Result-cases after_app.0) [
            | inr (_, g) ↦ absurd (ground (arith, e, f, a, g))
            | inl (app, g) ↦ elim (Bool-cases (app == block.app_state)) [
              | inr b ↦ absurd (ground (arith, e, f, a, g, b))
              | inl b ↦ elim (Result-cases after_logs.0) [
                | inr (_, h) ↦ absurd (ground (arith, e, f, a, g, b, h))
                | inl (logs, h) ↦ elim (Bool-cases (logs == block.logs)) [
                  | inr c ↦ absurd (ground (arith, e, f, a, g, b, h, c))
                  | inl c ↦ (ground (arith, f, a), ground (arith, g, b), ground (arith, h, c))
                ]
              ]
            ]
          ]
        ]
      ]

  pub add_executed_block-HasHashes :
      (signed : SignedBlock D M) (results : ExecutionResults D S) (self : Kolme D S M T)
      → (add_executed_block storing signed results self).0 ≡ ok tt
      → HasHashes signed results self.stores
  unfolding add_executed_block
  add_executed_block-HasHashes signed results self e =
      elim (Result-cases (save_results storing signed results self.stores).0) [
        | inl (u, f) ↦ save_results-HasHashes signed results self.stores f
        | inr (x, f) ↦ absurd (ground (arith, e, f))
      ]
