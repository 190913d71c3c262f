-- ===== src/CosmosBridge/Quorum.antt =====
-- contracts/cosmos/src/lib.rs: what the two loops over signatures have found when they succeed.
use kolme.Prelude.{
  ℕ, ◌≡◌, ◌≤◌, ◌⊎◌, refl, true, false, some, List, [], ◌∷◌, ◌++◌, ok, arith, inl, inr, length, ◌==◌,
  ◌||◌, Option-cases, Result-cases, Bool-cases,
}
use kolme.BTreeMap.{BTreeSet, contains_key}
use kolme.CosmosBridge.{Api}
use kolme.CosmosBridge.Signed.{Expected, contains, check_approvers, check_payload}

-- No key stands twice in the list; every key satisfies `Q`.
abbrev pub AreDistinct : List ℕ → Type 0
AreDistinct [] = Unit
AreDistinct (k ∷ ks) = (contains k ks ≡ false) × AreDistinct ks

abbrev pub AllOf : (ℕ → Type 0) → List ℕ → Type 0
AllOf Q [] = Unit
AllOf Q (k ∷ ks) = Q k × AllOf Q ks

pub contains-push : (j k : ℕ) (ks : List ℕ) → contains j (ks ++ k ∷ []) ≡ (contains j ks || j == k)
contains-push j k [] = ground arith
contains-push j k (x ∷ ks) = ground (arith, contains-push j k ks)

pub push-AreDistinct :
    (k : ℕ) (ks : List ℕ) → AreDistinct ks → contains k ks ≡ false → AreDistinct (ks ++ k ∷ [])
push-AreDistinct k [] d h = (refl, tt)
push-AreDistinct k (x ∷ ks) d h =
    (ground (arith, contains-push x k ks, d.0, h), push-AreDistinct k ks d.1 (ground (arith, h)))

pub push-AllOf : (Q : ℕ → Type 0) (k : ℕ) (ks : List ℕ) → AllOf Q ks → Q k → AllOf Q (ks ++ k ∷ [])
push-AllOf Q k [] a q = (q, tt)
push-AllOf Q k (x ∷ ks) a q = (a.0, push-AllOf Q k ks a.1 q)

module _ (api : Api) where
  -- One of the signatures of the hash is the key's.
  abbrev pub SignedBy : ℕ → ℕ → List ℕ → Type 0
  SignedBy hash key [] = ⊥
  SignedBy hash key (signature ∷ signatures) =
      (api.validate_signature hash signature ≡ some key) ⊎ SignedBy hash key signatures

  module _ (hash : ℕ) (expected : BTreeSet) (Q : ℕ → Type 0) where
    check_approvers-AllOf :
        (signatures used used' : List ℕ)
        → ((k : ℕ) → contains_key k expected ≡ true → SignedBy hash k signatures → Q k)
        → AreDistinct used
        → AllOf Q used
        → check_approvers api hash expected signatures used ≡ ok used'
        → AreDistinct used' × AllOf Q used'
    unfolding check_approvers
    check_approvers-AllOf [] used used' q d a e = ground arith
    check_approvers-AllOf (s ∷ signatures) used used' q d a e =
        elim (Option-cases (api.validate_signature hash s)) [
          | inl r ↦ absurd (ground (arith, r))
          | inr (k, r) ↦ elim (Bool-cases (contains_key k expected)) [
            | inr out ↦
                check_approvers-AllOf signatures used used' (λ j c b. q j c (inr b)) d a
                  (ground (arith, r, out))
            | inl member ↦ elim (Bool-cases (contains k used)) [
              | inl twice ↦ absurd (ground (arith, r, member, twice))
              | inr new ↦
                  check_approvers-AllOf signatures (used ++ k ∷ []) used' (λ j c b. q j c (inr b))
                    (push-AreDistinct k used d new) (push-AllOf Q k used a (q k member (inl r)))
                    (ground (arith, r, member, new))
            ]
          ]
        ]

  -- The payload has the signature of the expected processor, and of a quorum of different approvers.
  pub record HasQuorum (hash processor : ℕ) (approvers : List ℕ) (expected : Expected)
      : Type 0 where
    pub by_processor : api.validate_signature hash processor ≡ some expected.processor
    pub signers : List ℕ
    pub distinct : AreDistinct signers
    pub are_approvers :
        AllOf (λ k. (contains_key k expected.approvers ≡ true) × SignedBy hash k approvers) signers
    pub quorum : expected.needed_approvers ≤ length signers

  pub check_payload-HasQuorum :
      (hash processor : ℕ) (approvers : List ℕ) (expected : Expected)
      → check_payload api hash processor approvers expected ≡ ok tt
      → HasQuorum hash processor approvers expected
  unfolding check_payload
  check_payload-HasQuorum hash processor approvers expected e =
      elim (Option-cases (api.validate_signature hash processor)) [
        | inl r ↦ absurd (ground (arith, r))
        | inr (k, r) ↦
            elim (Result-cases (check_approvers api hash expected.approvers approvers [])) [
              | inr (x, f) ↦ absurd (ground (arith, r, f))
              | inl (used, f) ↦
                  let found =
                    check_approvers-AllOf hash expected.approvers
                      (λ j. (contains_key j expected.approvers ≡ true) × SignedBy hash j approvers)
                      approvers [] used (λ j c b. (c, b)) tt tt f in
                  record {
                    by_processor = ground (arith, r, f);
                    signers = used;
                    distinct = found.0;
                    are_approvers = found.1;
                    quorum = ground (arith, r, f);
                  }
            ]
      ]
