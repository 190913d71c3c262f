-- ===== src/Prelude/Words.antt =====
-- The `u64` counters. The release profile has no overflow checks, so `+ 1` wraps around.
use Prim.Native.Nat.{ℕ, ◌+◌, ◌-◌, ◌%◌, ◌^◌}

abbrev pub u16_mod : ℕ
u16_mod = 2 ^ 16

abbrev pub u64_mod : ℕ
u64_mod = 2 ^ 64

-- `next` of `AccountId`, `AccountNonce`, `BlockHeight`, `AdminProposalId`, `BridgeActionId` and
-- `BridgeEventId`: each is `Self(self.0 + 1)`.
abbrev pub next : ℕ → ℕ
next n = (n + 1) % u64_mod

-- `-= 1` on a `usize`.
abbrev pub previous : ℕ → ℕ
previous n = (n + u64_mod - 1) % u64_mod
