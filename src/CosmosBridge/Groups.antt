-- ===== src/CosmosBridge/Groups.antt =====
-- contracts/cosmos/src/lib.rs: the approvals that a new validator set needs.
use kolme.Prelude.{
  ℕ, ◌+◌, ◌≡◌, ◌≤◌, refl, false, some, List, [], ◌∷◌, ◌++◌, ok, arith, inl, inr, leb, ◌==◌, ◌&&◌,
  Option-cases, Result-cases, Bool-cases, if◌then◌else◌, subst,
}
use kolme.BTreeMap.{BTreeSet, contains_key}
use kolme.BTreeMap.Laws.{contains_key-insert, contains_key-nil}
use kolme.Validators.{ValidatorSet}
use kolme.CosmosBridge.{Api, new_set}
use kolme.CosmosBridge.Signed.{
  Expected, Tally, contains, counted, tally, no_votes, groups, one_if, expected_signers,
}
use kolme.CosmosBridge.Quorum.{
  AreDistinct, AllOf, SignedBy, contains-push, push-AreDistinct, push-AllOf,
}

-- How many of the keys are in the set.
abbrev members : BTreeSet → List ℕ → ℕ
members set [] = 0
members set (k ∷ ks) = if contains_key k set then members set ks + 1 else members set ks

members-push :
    (set : BTreeSet) (k : ℕ) (ks : List ℕ)
    → members set (ks ++ k ∷ [])
      ≡ (if contains_key k set then members set ks + 1 else members set ks)
members-push set k [] = refl
members-push set k (x ∷ ks) = ground (arith, members-push set k ks)

-- The groups that the keys speak for: the processor, a quorum of the listeners, one of the approvers.
abbrev groups_of : ValidatorSet → List ℕ → ℕ
groups_of set keys =
    one_if (contains set.processor keys)
    + one_if (leb set.needed_listeners (members set.listeners keys))
    + one_if (leb set.needed_approvers (members set.approvers keys))

record IsTally (set : ValidatorSet) (Q : ℕ → Type 0) (keys : List ℕ) (t : Tally) : Type 0 where
  distinct : AreDistinct keys
  all : AllOf Q keys
  processor : t.processor ≡ contains set.processor keys
  listeners : t.listeners ≤ members set.listeners keys
  approvers : t.approvers ≤ members set.approvers keys
  used : (k : ℕ) → contains_key k t.used ≡ contains k keys

counted-IsTally :
    (set : ValidatorSet) (Q : ℕ → Type 0) (keys : List ℕ) (t : Tally) (k : ℕ)
    → IsTally set Q keys t
    → Q k
    → contains_key k t.used ≡ false
    → IsTally set Q (keys ++ k ∷ []) (counted set k t)
unfolding counted
counted-IsTally set Q keys t k i q h = record {
  distinct = push-AreDistinct k keys i.distinct (ground (arith, i.used k, h));
  all = push-AllOf Q k keys i.all q;
  processor = ground (arith, contains-push set.processor k keys, i.processor);
  listeners = ground (arith, members-push set.listeners k keys, i.listeners);
  approvers = ground (arith, members-push set.approvers k keys, i.approvers);
  used = λ j. ground (arith, contains_key-insert j k tt t.used, contains-push j k keys, i.used j);
}

nobody : (set : ValidatorSet) (Q : ℕ → Type 0) → IsTally set Q [] no_votes
nobody set Q = record {
  distinct = tt;
  all = tt;
  processor = refl;
  listeners = omega arith;
  approvers = omega arith;
  used = λ k. contains_key-nil (Unit {0}) k;
}

-- The votes that were counted are those of the keys, or fewer.
no_more :
    (set : ValidatorSet) (keys : List ℕ) (t : Tally)
    → t.processor ≡ contains set.processor keys
    → t.listeners ≤ members set.listeners keys
    → t.approvers ≤ members set.approvers keys
    → 2 ≤ groups set t
    → 2 ≤ groups_of set keys
unfolding groups
no_more set keys t p l a h = ground arith

module _ (api : Api) where
  tally-IsTally :
      (hash : ℕ) (set : ValidatorSet) (Q : ℕ → Type 0) (approvals keys : List ℕ) (t t' : Tally)
      → ((k : ℕ) → SignedBy api hash k approvals → Q k)
      → IsTally set Q keys t
      → tally api hash set approvals t ≡ ok t'
      → (keys' : List ℕ) × IsTally set Q keys' t'
  unfolding tally
  tally-IsTally hash set Q [] keys t t' q i e =
      let same : t ≡ t' = ground arith in (keys, subst (IsTally set Q keys) same i)
  tally-IsTally hash set Q (s ∷ approvals) keys t t' q i e =
      elim (Option-cases (api.validate_signature hash s)) [
        | inl r ↦ absurd (ground (arith, r))
        | inr (k, r) ↦ elim (Bool-cases (contains_key k t.used)) [
          | inl twice ↦ absurd (ground (arith, r, twice))
          | inr new ↦ elim (Bool-cases (set.processor == k && t.processor)) [
            | inl again ↦ absurd (ground (arith, r, new, again))
            | inr fine ↦
                tally-IsTally hash set Q approvals (keys ++ k ∷ []) (counted set k t) t'
                  (λ j b. q j (inr b)) (counted-IsTally set Q keys t k i (q k (inl r)) new)
                  (ground (arith, r, new, fine))
          ]
        ]
      ]

  -- The new set is the one that the text renders, and different keys have signed the text that
  -- speak for two groups of the present set at least.
  pub record HasGroups (set : ValidatorSet) (rendered : ℕ) (approvals : List ℕ) : Type 0 where
    pub proposed : ValidatorSet
    pub parsed : api.set_from_json rendered ≡ some proposed
    pub signers : List ℕ
    pub distinct : AreDistinct signers
    pub signed : AllOf (λ k. SignedBy api (api.hash rendered) k approvals) signers
    pub two_groups : 2 ≤ groups_of set signers

  -- A `NewSet` action gets past the choice of the signers only if different keys whose signatures of
  -- the rendered set it carries speak for two groups of the present set: the processor, the needed
  -- number of listeners, the needed number of approvers.
  pub expected_signers-HasGroups :
      (set : ValidatorSet) (rendered : ℕ) (approvals : List ℕ) (expected : Expected)
      → expected_signers api set (new_set rendered approvals) ≡ ok expected
      → HasGroups set rendered approvals
  unfolding expected_signers
  expected_signers-HasGroups set rendered approvals expected e =
      elim (Option-cases (api.set_from_json rendered)) [
        | inl a ↦ absurd (ground (arith, a))
        | inr (new, a) ↦
            elim (Result-cases (tally api (api.hash rendered) set approvals no_votes)) [
              | inr (x, b) ↦ absurd (ground (arith, a, b))
              | inl (t, b) ↦
                  let (keys, i) =
                    tally-IsTally (api.hash rendered) set
                      (λ k. SignedBy api (api.hash rendered) k approvals) approvals [] no_votes t
                      (λ k s. s) (nobody set (λ k. SignedBy api (api.hash rendered) k approvals))
                      b in
                  let enough : 2 ≤ groups set t = ground (arith, a, b) in
                  record {
                    proposed = new;
                    parsed = a;
                    signers = keys;
                    distinct = i.distinct;
                    signed = i.all;
                    two_groups = no_more set keys t i.processor i.listeners i.approvers enough;
                  }
            ]
      ]
