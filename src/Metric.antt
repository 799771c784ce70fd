-- ===== src/Metric.antt =====
-- src/metric.c: the packet counters and the bitrate of one direction of a stream. The lock is held
-- over each operation, and the readings of the clock are arguments. The average bitrate, which the
-- code computes in floating point, is left out.
pub mod Counters
pub mod Bitrate
mod Tests
use baresip.Prelude.{
  ℕ, ◌*◌, ◌/◌, ◌%◌, Bool, true, false, Option, none, some, ◌==◌, leb, if◌then◌else◌, add32, sub32,
  sub64, u32_mod, List, [], ◌∷◌,
}

-- `struct metric`; `tmr` is the delay at which the timer was last started.
pub record Metric : Type 0 where
  pub tmr : Option ℕ
  pub ts_start : ℕ
  pub started : Bool
  pub n_packets : ℕ
  pub n_bytes : ℕ
  pub n_err : ℕ
  pub cur_bitrate : ℕ
  pub ts_last : ℕ
  pub n_bytes_last : ℕ

abbrev tmr_interval : ℕ
tmr_interval = 3

-- `metric_alloc` and `metric_init`: zeroed memory, and a first tick after 100 ms.
abbrev pub zeroed : Metric
zeroed = record {
  tmr = none;
  ts_start = 0;
  started = false;
  n_packets = 0;
  n_bytes = 0;
  n_err = 0;
  cur_bitrate = 0;
  ts_last = 0;
  n_bytes_last = 0;
}

unfoldable pub init : Metric → Metric
init metric = record metric { tmr = some 100 }

-- `metric_reset` cancels the timer.
unfoldable reset : Metric → Metric
reset metric = record metric { tmr = none }

-- `1000 * 8 * bytes / diff` on 32 bits; `none` is the division by zero.
unfoldable pub bitrate : ℕ → ℕ → Option ℕ
bitrate bytes diff = if diff == 0 then none else some (8000 * bytes % u32_mod / diff)

-- The end of `tmr_handler`: where the next interval begins.
abbrev mark : Metric → ℕ → Metric
mark metric now = record metric { ts_last = now; n_bytes_last = metric.n_bytes }

-- The bitrate over the interval, but at the first tick.
unfoldable pub measure : Metric → ℕ → Option Metric
measure metric now =
    if metric.ts_last == 0
    then some (mark metric now)
    else elim (bitrate (sub32 metric.n_bytes metric.n_bytes_last)
        (sub64 now metric.ts_last % u32_mod)) [
          | none ↦ none
          | some rate ↦ some (record (mark metric now) { cur_bitrate = rate })
        ]

-- `tmr_handler`.
unfoldable pub tmr_handler : Metric → ℕ → Option Metric
tmr_handler metric now =
    let metric' = record metric { tmr = some (tmr_interval * 1000) } in
    if metric.started
    then if leb now metric.ts_last then some metric' else measure metric' now
    else some metric'

-- `metric_start`.
unfoldable pub start : Metric → ℕ → Metric
start metric now =
    if metric.started then metric else record metric { ts_start = now; started = true }

-- `metric_add_packet`; the size is cut to 32 bits.
unfoldable pub add_packet : Metric → ℕ → ℕ → Metric
add_packet metric packetsize now =
    let metric' = if metric.started then metric else start metric now in
    record metric' {
      n_bytes = add32 metric'.n_bytes (packetsize % u32_mod);
      n_packets = add32 metric'.n_packets 1;
    }

-- `metric_inc_err`.
unfoldable pub inc_err : Metric → Metric
inc_err metric = record metric { n_err = add32 metric.n_err 1 }
