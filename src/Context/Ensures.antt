-- ===== src/Context/Ensures.antt =====
-- Postconditions of the calls that change the context: what holds of the state if they succeed.
use kolme.Prelude.{
  ensure, lift, Bool, true, false, if◌then◌else◌, List, Option, none, some, Result, ok, err, Action,
  ◌>>=◌,
}
use kolme.BTreeMap.{get}
use kolme.Types.{Error, panic, chain_not_supported}
use kolme.Types.Chain.{ExternalChain, to_merkle_key}
use kolme.Types.Bridge.{ChainState}
use kolme.Accounts.{Accounts}
use kolme.Context.{
  ExecutionContext, LogEvent, with_accounts, with_chain, on_accounts, on_chain, log_event,
  push_last,
}

-- If the call succeeded, `P` holds of the state.
abbrev pub Ensures {ℓ} : {S E A : Type 0} → (S → Type ℓ) → Result E A × S → Type ℓ
Ensures P (ok _, s) = P s
Ensures P (err _, s) = Unit

module _ {S E A B : Type 0} where
  -- One call after the other.
  pub bind-Ensures {ℓ κ} :
      (P : S → Type ℓ) (Q : S → Type κ) (m : Action S E A) (f : A → Action S E B) (s : S)
      → Ensures P (m s)
      → ((a : A) (t : S) → P t → Ensures Q (f a t))
      → Ensures Q ((m >>= f) s)
  bind-Ensures P Q m f s h k = go (m s) h
    where
      go :
          (r : Result E A × S)
          → Ensures P r
          → Ensures {S = S} {E = E} {A = B} Q
              (let (x, t) = r in elim x [ ok a ↦ f a t | err e ↦ (err e, t) ])
      go (ok a, t) p = k a t p
      go (err e, t) p = tt

module _ {D S A : Type 0} where
  -- A call on the accounts, and one on the state of a chain.
  pub on_accounts-Ensures {ℓ κ} :
      (P : Accounts D → Type ℓ) (Q : ExecutionContext D S → Type κ)
      (m : Action (Accounts D) (Error D) A) (ctx : ExecutionContext D S)
      → Ensures P (m ctx.framework_state.accounts)
      → ((accounts : Accounts D) → P accounts → Q (with_accounts accounts ctx))
      → Ensures Q (on_accounts m ctx)
  on_accounts-Ensures P Q m ctx h k = go (m ctx.framework_state.accounts) h
    where
      go :
          (r : Result (Error D) A × Accounts D)
          → Ensures P r
          → Ensures {S = ExecutionContext D S} {E = Error D} {A = A} Q (r.0, with_accounts r.1 ctx)
      go (ok a, accounts) p = k accounts p
      go (err e, accounts) p = tt

  pub on_chain-Ensures {ℓ} :
      (Q : ExecutionContext D S → Type ℓ) (chain : ExternalChain)
      (m : Action (ChainState D) (Error D) A) (ctx : ExecutionContext D S)
      → ((state : ChainState D) → Q (with_chain chain state ctx))
      → Ensures Q (on_chain chain m ctx)
  on_chain-Ensures Q chain m ctx k = go (get (to_merkle_key chain) ctx.framework_state.chains)
    where
      written :
          (r : Result (Error D) A × ChainState D)
          → Ensures {S = ExecutionContext D S} {E = Error D} {A = A} Q
              (r.0, with_chain chain r.1 ctx)
      written (ok a, state) = k state
      written (err e, state) = tt

      go :
          (found : Option (ExternalChain × ChainState D))
          → Ensures {S = ExecutionContext D S} {E = Error D} {A = A} Q (elim found [
            | none ↦ (err (chain_not_supported chain), ctx)
            | some entry ↦ let (r, state) = m entry.1 in (r, with_chain chain state ctx)
          ])
      go none = tt
      go (some entry) = written (m entry.1)

module _ {D S : Type 0} where
  -- Logging changes the logs only.
  pub log_event-Ensures {ℓ} :
      (Q : ExecutionContext D S → Type ℓ) (event : LogEvent) (ctx : ExecutionContext D S)
      → ((logs : List (List LogEvent)) → Q (record ctx { logs = logs }))
      → Ensures Q (log_event event ctx)
  unfolding log_event
  log_event-Ensures Q event ctx k = go (push_last event ctx.logs)
    where
      go :
          (found : Option (List (List LogEvent)))
          → Ensures {S = ExecutionContext D S} {E = Error D} {A = Unit {0}} Q (elim found [
            | none ↦ (err panic, ctx)
            | some logs ↦ (ok tt, record ctx { logs = logs })
          ])
      go none = tt
      go (some logs) = k logs

module _ {S E A B : Type 0} (P : S → Type 0) where
  -- A state to which nothing is done under a result, an option or a test.
  pub ok-Ensures :
      (x : Result E A) (f : A → Result E B × S) (s : S)
      → ((a : A) → Ensures P (f a))
      → Ensures {S = S} {E = E} {A = B} P (elim x [ err e ↦ (err e, s) | ok a ↦ f a ])
  ok-Ensures (ok a) f s h = h a
  ok-Ensures (err e) f s h = tt

  pub some-Ensures :
      (x : Option A) (none_result : Result E B × S) (f : A → Result E B × S)
      → Ensures P none_result
      → ((a : A) → Ensures P (f a))
      → Ensures {S = S} {E = E} {A = B} P (elim x [ none ↦ none_result | some a ↦ f a ])
  some-Ensures none m f h k = h
  some-Ensures (some a) m f h k = k a

module _ {S E B : Type 0} (P : S → Type 0) where
  pub if-Ensures :
      (b : Bool) (m n : Result E B × S) → Ensures P m → Ensures P n → Ensures P (if b then m else n)
  if-Ensures true m n h k = h
  if-Ensures false m n h k = k

module _ {S E : Type 0} (P : S → Type 0) where
  pub ensure-Ensures : (b : Bool) (e : E) (s : S) → P s → Ensures {A = Unit {0}} P (ensure b e s)
  ensure-Ensures true e s p = p
  ensure-Ensures false e s p = tt

  pub lift-Ensures : {A : Type 0} (x : Result E A) (s : S) → P s → Ensures P (lift x s)
  lift-Ensures (ok a) s p = p
  lift-Ensures (err e) s p = tt
