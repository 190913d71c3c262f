-- ===== src/Types/Signed.antt =====
-- `TaggedJson` and `SignedTaggedJson` of packages/kolme/src/common.rs. A serialized text is only
-- compared, hashed and signed, so it is the number that its bytes spell; a signature with its
-- recovery id is a number as well.
use kolme.Prelude.{ℕ, Bool, ◌==◌, Option}

pub record TaggedJson (T : Type 0) : Type 0 where
  pub serialized : ℕ
  pub value : T

pub record SignedTaggedJson (T : Type 0) : Type 0 where
  pub message : TaggedJson T
  pub signature : ℕ

-- Equality is based on the serialized representation only.
abbrev pub tagged_eq : {T : Type 0} → TaggedJson T → TaggedJson T → Bool
tagged_eq x y = x.serialized == y.serialized

-- `PublicKey::recover_from_msg`, which the `k256` crate computes: the key that signed the bytes.
abbrev Recover : Type 0
Recover = ℕ → ℕ → Option ℕ

abbrev pub verify_signature : {T : Type 0} → Recover → SignedTaggedJson T → Option ℕ
verify_signature recover signed = recover signed.message.serialized signed.signature
