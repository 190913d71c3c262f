-- ===== src/CosmosBridge/Authority.antt =====
-- contracts/cosmos/src/lib.rs: who stands behind a message that `signed` has carried out.
use kolme.Prelude.{
  ℕ, ◌≡◌, false, some, List, ok, err, arith, inl, inr, ◌==◌, next, Option-cases, Result-cases,
  Bool-cases,
}
use kolme.CosmosBridge.{Api, Storage, State, Response, PayloadWithId, incorrect_action_id}
use kolme.CosmosBridge.Signed.{
  Expected, ParsedAction, check_payload, expected_signers, carry_out, finish, execute_payload,
  signed, advanced, send, replace, install,
}
use kolme.CosmosBridge.Quorum.{HasQuorum, check_payload-HasQuorum}

module _ (api : Api) where
  -- The payload is the next one in order; the signers that its action asks for have signed it.
  pub record IsAuthorized (processor : ℕ) (approvers : List ℕ) (payload : ℕ)
      (storage storage' : Storage) : Type 0 where
    pub state : State
    pub state' : State
    pub message : PayloadWithId
    pub expected : Expected
    pub was : storage.state ≡ some state
    pub parsed : api.payload_from_json payload ≡ some message
    pub in_order : message.id ≡ state.next_action_id
    pub agreed : expected_signers api state.set message.action ≡ ok expected
    pub signatures : HasQuorum api (api.hash payload) processor approvers expected
    pub is : storage'.state ≡ some state'
    pub next_action : state'.next_action_id ≡ next state.next_action_id
    pub next_event : state'.next_event_id ≡ next state.next_event_id

  carry_out-ids :
      (action : ParsedAction) (state state' : State) (messages : List ℕ)
      → carry_out action state ≡ ok (state', messages)
      → (state'.next_action_id ≡ state.next_action_id)
        × (state'.next_event_id ≡ state.next_event_id)
  unfolding carry_out
  carry_out-ids (send m) state state' messages e = ground arith
  carry_out-ids (replace t old new) state state' messages e = ground arith
  carry_out-ids (install set) state state' messages e = ground arith

  -- If `signed` succeeds, the payload carries the id that was next, the processor that its action
  -- asks for has signed it, and so has the needed number of different approvers that it asks for;
  -- both counters of the contract go up by one.
  pub signed-IsAuthorized :
      (sender processor : ℕ) (approvers : List ℕ) (payload : ℕ) (storage storage' : Storage)
      (response : Response)
      → signed api sender processor approvers payload storage ≡ ok (response, storage')
      → IsAuthorized processor approvers payload storage storage'
  unfolding signed execute_payload finish
  signed-IsAuthorized sender processor approvers payload storage storage' response e =
      elim (Option-cases (api.payload_from_json payload)) [
        | inl a ↦ absurd (ground (arith, a))
        | inr (m, a) ↦ elim (Option-cases storage.state) [
          | inl b ↦ absurd (ground (arith, a, b))
          | inr (state, b) ↦ elim (Bool-cases (m.id == state.next_action_id)) [
            | inr c ↦ absurd (ground (arith, a, b, c))
            | inl c ↦ elim (Result-cases (expected_signers api state.set m.action)) [
              | inr (x, f) ↦ absurd (ground (arith, a, b, c, f))
              | inl (ex, f) ↦
                  elim (Result-cases
                    (check_payload api (api.hash payload) processor approvers ex)) [
                      | inr (x, g) ↦ absurd (ground (arith, a, b, c, f, g))
                      | inl (u, g) ↦
                          elim (Result-cases (carry_out ex.action (advanced api state))) [
                            | inr (x, h) ↦ absurd (ground (arith, a, b, c, f, g, h))
                            | inl ((state', messages), h) ↦
                                let ids =
                                  carry_out-ids ex.action (advanced api state) state' messages h in
                                record {
                                  state = state;
                                  state' = state';
                                  message = m;
                                  expected = ex;
                                  was = b;
                                  parsed = a;
                                  in_order = ground (arith, c);
                                  agreed = f;
                                  signatures =
                                      check_payload-HasQuorum api (api.hash payload) processor
                                        approvers ex g;
                                  is = ground (arith, a, b, c, f, g, h);
                                  next_action = ids.0;
                                  next_event = ids.1;
                                }
                          ]
                    ]
            ]
          ]
        ]
      ]

  next_differs : (n : ℕ) → (n == next n) ≡ false
  next_differs n = ground arith

  -- A payload that has been carried out is refused from then on with the error on its id, whatever
  -- the signatures and the sender, as long as no other message comes in between.
  pub signed_once :
      (sender sender' processor processor' : ℕ) (approvers approvers' : List ℕ) (payload : ℕ)
      (storage storage' : Storage) (response : Response)
      → signed api sender processor approvers payload storage ≡ ok (response, storage')
      → (id : ℕ) × (signed api sender' processor' approvers' payload storage'
          ≡ err (incorrect_action_id (next id) id))
  unfolding signed
  signed_once sender sender' processor processor' approvers approvers' payload storage storage'
        response e =
      let done =
        signed-IsAuthorized sender processor approvers payload storage storage' response e in
      (
        done.message.id,
        ground (
          arith,
          done.parsed,
          done.is,
          done.next_action,
          done.in_order,
          next_differs done.message.id,
        ),
      )
