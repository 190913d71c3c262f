-- ===== src/Chain/Latest.antt =====
-- `LatestBlock` and `BlockHeight::increasing_middle` of packages/kolme/src/core/types.rs, and
-- `update_latest_block` of packages/kolme/src/core/kolme.rs: what a node knows of the chain before
-- it has the blocks.
use kolme.Prelude.{
  ℕ, ◌+◌, ◌-◌, ◌*◌, ◌/◌, ◌≤◌, ◌<◌, ◌≡◌, ◌⊎◌, refl, Bool, true, false, Option, none, some, List, [],
  ◌∷◌, Result, ok, err, arith, ltb, leb, if◌then◌else◌, inl, inr, Bool-cases, sym, subst, if_elim,
  ◌∙◌,
}
use kolme.Types.Signed.{SignedTaggedJson}

pub record LatestBlock : Type 0 where
  pub height : ℕ
  pub when : ℕ

abbrev pub SignedLatest : Type 0
SignedLatest = SignedTaggedJson LatestBlock

-- `check_height_when`, as a test.
unfoldable check_height_when : LatestBlock → LatestBlock → Bool
check_height_when old new =
    if ltb new.height old.height then false else if leb new.when old.when then false else true

-- The signature of the processor is looked at, but a wrong one is only logged.
unfoldable pub update_latest_block : SignedLatest → Option SignedLatest → Option SignedLatest
unfolding check_height_when
update_latest_block latest none = some latest
update_latest_block latest (some old) =
    if check_height_when old.message.value latest.message.value then some latest else some old

abbrev pub update_all : List SignedLatest → Option SignedLatest → Option SignedLatest
update_all [] known = known
update_all (l ∷ latest) known = update_all latest (update_latest_block l known)

-- The knowledge of a node is as new or newer, and where it has changed it is newer.
abbrev pub IsNoOlder : SignedLatest → Option SignedLatest → Type 0
IsNoOlder old none = ⊥
IsNoOlder old (some new) =
    (old.message.value.height ≤ new.message.value.height)
    × ((new ≡ old) ⊎ (old.message.value.when < new.message.value.when))

one_update : (l old : SignedLatest) → IsNoOlder old (update_latest_block l (some old))
unfolding update_latest_block
one_update l old = elim (Bool-cases (check_height_when old.message.value l.message.value)) [
  | inl h ↦
      subst (λ b. IsNoOlder old (if b then some l else some old)) (sym h)
        (ground (arith, h), inr (ground (arith, h)))
  | inr h ↦
      subst (λ b. IsNoOlder old (if b then some l else some old)) (sym h) (omega arith, inl refl)
]

IsNoOlder-trans :
    (a b : SignedLatest) (c : Option SignedLatest)
    → IsNoOlder a (some b)
    → IsNoOlder b c
    → IsNoOlder a c
IsNoOlder-trans a b none h k = k
IsNoOlder-trans a b (some c) h k = (omega (arith, h.0, k.0), which h.1 k.1)
  where
    which :
        ((b ≡ a) ⊎ (a.message.value.when < b.message.value.when))
        → ((c ≡ b) ⊎ (b.message.value.when < c.message.value.when))
        → (c ≡ a) ⊎ (a.message.value.when < c.message.value.when)
    which (inl e) (inl f) = inl (f ∙ e)
    which (inl e) (inr f) = inr (subst (λ x. x.message.value.when < c.message.value.when) e f)
    which (inr e) (inl f) = inr (subst (λ x. a.message.value.when < x.message.value.when) (sym f) e)
    which (inr e) (inr f) = inr (omega (arith, e, f))

-- Through any sequence of announcements, the latest block that a node knows never has a lower
-- height, and it is the same or a later one.
pub update_all-IsNoOlder :
    (latest : List SignedLatest) (old : SignedLatest) → IsNoOlder old (update_all latest (some old))
update_all-IsNoOlder [] old = (omega arith, inl refl)
update_all-IsNoOlder (l ∷ latest) old =
    go (update_latest_block l (some old)) (one_update l old) (λ n. update_all-IsNoOlder latest n)
  where
    go :
        (x : Option SignedLatest)
        → IsNoOlder old x
        → ((n : SignedLatest) → IsNoOlder n (update_all latest (some n)))
        → IsNoOlder old (update_all latest x)
    go none h rest = absurd h
    go (some n) h rest = IsNoOlder-trans old n (update_all latest (some n)) h (rest n)

pub data HeightError : Type 0 where
  -- start, end
  invalid_block_height : ℕ → ℕ → HeightError

unfoldable pub increasing_middle : ℕ → ℕ → Result HeightError ℕ
increasing_middle start end =
    if leb end start
    then err (invalid_block_height start end)
    else ok (start + (end - start + 1) / 2)

-- The middle lies after the start and not after the end, and both sides of it have at most half of
-- the heights, rounded up.
abbrev pub IsMiddle : ℕ → ℕ → Result HeightError ℕ → Type 0
IsMiddle start end (err e) = (e ≡ invalid_block_height start end) × (end ≤ start)
IsMiddle start end (ok m) =
    (start < m) × (m ≤ end) × (2 * (m - start) ≤ end - start + 1) × (2 * (end - m) ≤ end - start)

-- On any two heights `increasing_middle` fails exactly if the end is not after the start, and gives
-- a height after the start, up to the end and so a `u64` if the end is one, that halves the range.
pub increasing_middle-IsMiddle : (start end : ℕ) → IsMiddle start end (increasing_middle start end)
unfolding increasing_middle
increasing_middle-IsMiddle start end =
    if_elim (IsMiddle start end) (leb end start) (λ h. (refl, ground (arith, h)))
      (λ h.
        let less : start < end = ground (arith, h) in
        (omega (arith, less), omega (arith, less), omega (arith, less), omega (arith, less)))
