-- ===== src/HttpUtil/CacheControl/Durations.antt =====
-- The durations that a directive stands for, and where their product leaves `int64`.
use oscdn.Base.{
  ℕ, ◌+◌, ◌*◌, ◌≤◌, ◌<◌, ◌≡◌, refl, ◌≢◌, some, [], ◌∷◌, arith, Bytes, lookup, pos, ◌*ℤ◌, ◌<ℤ◌,
  wrap64, Duration, second,
}
use oscdn.Base.Strings.{parse_int}
use oscdn.HttpUtil.CacheControl.{CacheControl, timed_directive}

*ℤ_second : (n : ℕ) → pos n *ℤ pos second ≡ pos (n * second)
unfolding ◌*ℤ◌
*ℤ_second n = ground arith

-- The largest number of seconds whose nanoseconds fit `int64`.
abbrev pub max_seconds : ℕ
max_seconds = 9_223_372_036

-- A number of seconds whose nanoseconds fit `int64` is read exactly, whatever the default.
pub timed_directive_exact :
    (c : CacheControl) (key s : Bytes) (def : Duration) (n : ℕ)
    → lookup key c ≡ some s
    → s ≢ []
    → parse_int s ≡ some (pos n)
    → n ≤ max_seconds
    → timed_directive c key def ≡ pos (n * second)
unfolding timed_directive wrap64
timed_directive_exact c key [] def n h ne e fits = absurd (ne refl)
timed_directive_exact c key (a ∷ s) def n h ne e fits = ground (arith, *ℤ_second n)

-- A number of seconds above the largest whose nanoseconds fit `int64`, up to twice that, is read as
-- a negative duration, which the callers take for a missing directive.
pub timed_directive_overflow :
    (c : CacheControl) (key s : Bytes) (def : Duration) (n : ℕ)
    → lookup key c ≡ some s
    → s ≢ []
    → parse_int s ≡ some (pos n)
    → max_seconds < n
    → n ≤ 2 * max_seconds + 1
    → timed_directive c key def <ℤ pos 0
unfolding timed_directive wrap64
timed_directive_overflow c key [] def n h ne e low high = absurd (ne refl)
timed_directive_overflow c key (a ∷ s) def n h ne e low high = ground (arith, *ℤ_second n)
