-- ===== src/Metric/Counters.antt =====
-- src/metric.c: the counters after any sequence of calls.
use baresip.Prelude.{
  ℕ, ◌+◌, ◌%◌, ◌^◌, ◌<◌, ◌≡◌, Option, none, some, List, [], ◌∷◌, arith, Option-cases, inl, inr,
}
use baresip.Metric.{Metric, bitrate, measure, tmr_handler, start, add_packet, inc_err}

-- What the owner of a metric does; each clock reading is part of the event.
pub data Event : Type 0 where
  packet : ℕ → ℕ → Event
  error : Event
  tick : ℕ → Event

unfoldable pub step : Metric → Event → Option Metric
step m (packet size now) = some (add_packet m size now)
step m error = some (inc_err m)
step m (tick now) = tmr_handler m now

unfoldable pub run : Metric → List Event → Option Metric
run m [] = some m
run m (e ∷ es) = elim (step m e) [ none ↦ none | some m' ↦ run m' es ]

-- What was sent, without any bound.
unfoldable pub packets_of : List Event → ℕ
packets_of [] = 0
packets_of (packet size now ∷ es) = 1 + packets_of es
packets_of (_ ∷ es) = packets_of es

unfoldable pub bytes_of : List Event → ℕ
bytes_of [] = 0
bytes_of (packet size now ∷ es) = size + bytes_of es
bytes_of (_ ∷ es) = bytes_of es

unfoldable pub errors_of : List Event → ℕ
errors_of [] = 0
errors_of (error ∷ es) = 1 + errors_of es
errors_of (_ ∷ es) = errors_of es

-- The counters of `m'` are those of `m` and the given amounts more, on 32 bits.
pub record Counted (m m' : Metric) (packets bytes errors : ℕ) : Type 0 where
  pub n_packets : m'.n_packets ≡ (m.n_packets + packets) % 2 ^ 32
  pub n_bytes : m'.n_bytes ≡ (m.n_bytes + bytes) % 2 ^ 32
  pub n_err : m'.n_err ≡ (m.n_err + errors) % 2 ^ 32

pub record IsWords (m : Metric) : Type 0 where
  pub n_packets : m.n_packets < 2 ^ 32
  pub n_bytes : m.n_bytes < 2 ^ 32
  pub n_err : m.n_err < 2 ^ 32

tick-Counted :
    (m : Metric) (now : ℕ) (m' : Metric)
    → IsWords m
    → tmr_handler m now ≡ some m'
    → Counted m m' 0 0 0
unfolding tmr_handler measure bitrate
tick-Counted m now m' w e = ground arith

step-Counted :
    (m : Metric) (e : Event) (m' : Metric)
    → IsWords m
    → step m e ≡ some m'
    → Counted m m' (packets_of (e ∷ [])) (bytes_of (e ∷ [])) (errors_of (e ∷ []))
unfolding step packets_of bytes_of errors_of add_packet start inc_err
step-Counted m (packet size now) m' w h = ground arith
step-Counted m error m' w h = ground arith
step-Counted m (tick now) m' w h = tick-Counted m now m' w h

Counted-IsWords :
    {m m' : Metric} {packets bytes errors : ℕ} → Counted m m' packets bytes errors → IsWords m'
Counted-IsWords c = record { n_packets = omega arith; n_bytes = omega arith; n_err = omega arith }

totals_cons :
    (e : Event) (es : List Event)
    → (packets_of (e ∷ es) ≡ packets_of (e ∷ []) + packets_of es)
      × (bytes_of (e ∷ es) ≡ bytes_of (e ∷ []) + bytes_of es)
      × (errors_of (e ∷ es) ≡ errors_of (e ∷ []) + errors_of es)
unfolding packets_of bytes_of errors_of
totals_cons (packet size now) es = (omega arith, omega arith, omega arith)
totals_cons error es = (omega arith, omega arith, omega arith)
totals_cons (tick now) es = (omega arith, omega arith, omega arith)

Counted-cons :
    {m m' m'' : Metric} (e : Event) (es : List Event)
    → Counted m m' (packets_of (e ∷ [])) (bytes_of (e ∷ [])) (errors_of (e ∷ []))
    → Counted m' m'' (packets_of es) (bytes_of es) (errors_of es)
    → Counted m m'' (packets_of (e ∷ es)) (bytes_of (e ∷ es)) (errors_of (e ∷ es))
Counted-cons e es c d = record {
  n_packets = omega (arith, totals_cons e es);
  n_bytes = omega (arith, totals_cons e es);
  n_err = omega (arith, totals_cons e es);
}

-- After a sequence of packets, errors and timer ticks that does not fault, 32-bit counters have
-- grown by the number of packets, bytes and errors, modulo 2^32; the ticks count nothing.
pub run-Counted :
    (m : Metric) (es : List Event) (m' : Metric)
    → IsWords m
    → run m es ≡ some m'
    → Counted m m' (packets_of es) (bytes_of es) (errors_of es)
unfolding run packets_of bytes_of errors_of
run-Counted m [] m' w h = ground arith
run-Counted m (e ∷ es) m' w h = elim (Option-cases (step m e)) [
  | inl fault ↦ absurd (ground arith)
  | inr (m₁, found) ↦
      let c = step-Counted m e m₁ w found in
      Counted-cons e es c (run-Counted m₁ es m' (Counted-IsWords c) (rw (found, run) at h))
]
