-- ===== src/Timestamp/Epoch.antt =====
-- src/timestamp.c: `timestamp_wrap` against timestamps that never wrap.
use baresip.Prelude.{
  ℕ, ◌+◌, ◌/◌, ◌%◌, ◌^◌, ◌<◌, ◌≤◌, ◌≡◌, ◌≢◌, ◌↔◌, none, some, arith, ltb, if◌then◌else◌,
}
use baresip.Timestamp.{Wrap, no_wrap, forward, backward, wrap}

-- How often a timestamp counted without end has passed 2^32.
abbrev pub epoch : ℕ → ℕ
epoch x = x / 2 ^ 32

-- The change of the epoch, where it is by one at most.
abbrev pub epoch_step : ℕ → ℕ → Wrap
epoch_step new old =
    if ltb (epoch old) (epoch new)
    then forward
    else if ltb (epoch new) (epoch old)
    then backward
    else no_wrap

-- For two timestamps less than 2^31 apart, `timestamp_wrap` on their low 32 bits returns the
-- change of the epoch, unless its `int` subtraction overflows.
pub wrap-epoch :
    (new old : ℕ)
    → new < old + 2 ^ 31
    → old < new + 2 ^ 31
    → wrap (new % 2 ^ 32) (old % 2 ^ 32) ≢ none
    → wrap (new % 2 ^ 32) (old % 2 ^ 32) ≡ some (epoch_step new old)
unfolding wrap
wrap-epoch new old h k defined = ground arith

-- The `int` subtraction of two 32-bit timestamps overflows exactly where the newer one is the
-- smaller one, by at most 2^31, and only the older one has bit 31 set.
pub wrap_undefined :
    (new old : ℕ)
    → new < 2 ^ 32
    → old < 2 ^ 32
    → (wrap new old ≡ none) ↔ ((new < 2 ^ 31) × (2 ^ 31 ≤ old) × (old ≤ new + 2 ^ 31))
unfolding wrap
wrap_undefined new old h k = (λ e. ground arith, λ p. ground arith)
