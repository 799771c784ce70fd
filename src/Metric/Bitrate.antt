-- ===== src/Metric/Bitrate.antt =====
-- src/metric.c: the bitrate that the timer computes, and where its 32-bit product is too narrow.
use native.Mathlib.Nat.{le-div_iff_mul-le, div-mul-le_self}
use baresip.Prelude.{
  suc, ℕ, ◌+◌, ◌-◌, ◌*◌, ◌/◌, ◌%◌, ◌^◌, ◌<◌, ◌≤◌, ◌≡◌, ◌≢◌, ◌↔◌, refl, none, some, arith, true,
  sub32, sub64,
}
use baresip.Metric.{Metric, bitrate, measure, tmr_handler}

-- Below 536,871 bytes an interval the product fits.
bitrate-exact :
    (bytes diff : ℕ) → bytes < 536_871 → diff ≢ 0 → bitrate bytes diff ≡ some (8000 * bytes / diff)
unfolding bitrate
bitrate-exact bytes diff h nz = ground arith

-- A metric that is measuring since `ts_last`, when `sent₀` bytes were sent.
pub record Measures (m : Metric) (sent₀ sent : ℕ) : Type 0 where
  pub started : m.started ≡ true
  pub before : m.ts_last ≢ 0
  pub range : m.ts_last < 2 ^ 64
  pub last : m.n_bytes_last ≡ sent₀ % 2 ^ 32
  pub now : m.n_bytes ≡ (sent₀ + sent) % 2 ^ 32

interval :
    (now last : ℕ)
    → last < now
    → now < last + 2 ^ 32
    → now < 2 ^ 64
    → sub64 now last % 2 ^ 32 ≡ now - last
interval now last h k w = omega arith

traffic : (sent₀ sent : ℕ) → sent < 2 ^ 32 → sub32 ((sent₀ + sent) % 2 ^ 32) (sent₀ % 2 ^ 32) ≡ sent
traffic sent₀ sent h = omega arith

-- The tick after an interval in which `sent` bytes went out.
tick-measure :
    (m : Metric) (sent₀ sent now : ℕ)
    → Measures m sent₀ sent
    → m.ts_last < now
    → now < m.ts_last + 2 ^ 32
    → now < 2 ^ 64
    → sent < 2 ^ 32
    → (rate : ℕ) → bitrate sent (now - m.ts_last) ≡ some rate
    → (m' : Metric) × (tmr_handler m now ≡ some m')
      × (m'.cur_bitrate ≡ rate)
      × (m'.ts_last ≡ now)
      × (m'.n_bytes_last ≡ m.n_bytes)
unfolding tmr_handler measure
tick-measure m sent₀ sent now v h k w small rate e = (
  record m { tmr = some 3000; ts_last = now; n_bytes_last = m.n_bytes; cur_bitrate = rate },
  ground (arith, v, traffic sent₀ sent small, interval now m.ts_last h k w),
  refl,
  refl,
  refl,
)

-- At a tick of a started metric the bitrate is the number of bits sent per second since the last
-- tick, rounded down, if that was less than 2^32 ms ago and fewer than 536,871 bytes went out in
-- between; counters that wrapped in the meantime do no harm. The next interval starts there.
pub tick-bitrate :
    (m : Metric) (sent₀ sent now : ℕ)
    → Measures m sent₀ sent
    → m.ts_last < now
    → now < m.ts_last + 2 ^ 32
    → now < 2 ^ 64
    → sent < 536_871
    → (m' : Metric) × (tmr_handler m now ≡ some m')
      × (m'.cur_bitrate ≡ 8000 * sent / (now - m.ts_last))
      × (m'.ts_last ≡ now)
      × (m'.n_bytes_last ≡ m.n_bytes)
tick-bitrate m sent₀ sent now v h k w small =
    tick-measure m sent₀ sent now v h k w (omega arith) _
      (bitrate-exact sent (now - m.ts_last) small (omega arith))

bitrate_lem : (bytes diff : ℕ) → diff ≢ 0 → bitrate bytes diff ≡ some (8000 * bytes % 2 ^ 32 / diff)
unfolding bitrate
bitrate_lem bytes diff nz = ground arith

-- A quotient of a number that lost at least 2^32 is smaller, for any 32-bit divisor.
div-mod_lt : (a d : ℕ) → 2 ^ 32 ≤ a → 0 < d → d < 2 ^ 32 → a % 2 ^ 32 / d < a / d
div-mod_lt a d h pos small =
    (le-div_iff_mul-le {k = d} {x = suc (a % 2 ^ 32 / d)} {y = a} pos).1
      (omega (arith, div-mul-le_self (a % 2 ^ 32) d))

-- From 536,871 bytes an interval on (1.43 Mbit/s at the timer's 3 s) the 32-bit product wraps, and
-- the bitrate that a tick of a started metric reports is too low, if the last tick was less than
-- 2^32 ms ago.
tick-bitrate_wraps :
    (m : Metric) (sent₀ sent now : ℕ)
    → Measures m sent₀ sent
    → m.ts_last < now
    → now < m.ts_last + 2 ^ 32
    → now < 2 ^ 64
    → 536_871 ≤ sent
    → sent < 2 ^ 32
    → (m' : Metric) × (tmr_handler m now ≡ some m')
      × (m'.cur_bitrate < 8000 * sent / (now - m.ts_last))
tick-bitrate_wraps m sent₀ sent now v h k w big small =
    let rate = 8000 * sent % 2 ^ 32 / (now - m.ts_last) in
    let (m', e, r, _, _) =
      tick-measure m sent₀ sent now v h k w small rate (bitrate_lem sent _ (omega arith)) in
    (
      m',
      e,
      rw r (div-mod_lt (8000 * sent) (now - m.ts_last) (omega arith) (omega arith) (omega arith)),
    )

-- The timer of a started metric divides by zero exactly where a whole multiple of 2^32 ms lies
-- behind the last tick.
tick_fault :
    (m : Metric) (now : ℕ)
    → m.started ≡ true
    → m.ts_last ≢ 0
    → m.ts_last < now
    → now < 2 ^ 64
    → (tmr_handler m now ≡ none) ↔ ((now - m.ts_last) % 2 ^ 32 ≡ 0)
unfolding tmr_handler measure bitrate
tick_fault m now on before h w = (λ e. ground arith, λ e. ground arith)
