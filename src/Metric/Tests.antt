-- ===== src/Metric/Tests.antt =====
-- src/metric.c on a concrete run.
use baresip.Prelude.{ℕ, ◌+◌, ◌%◌, ◌^◌, ◌≡◌, refl, none, some, List, [], ◌∷◌, arith, true}
use baresip.Metric.{Metric, zeroed, init, bitrate, measure, tmr_handler, start, add_packet, inc_err}
use baresip.Metric.Counters.{
  Event, packet, error, tick, step, run, packets_of, bytes_of, errors_of, Counted, run-Counted,
}
use baresip.Metric.Bitrate.{Measures, tick-bitrate}

abbrev script : List Event
script =
    packet 160 1000
    ∷ tick 1100
    ∷ packet 4_294_967_290 1120
    ∷ error
    ∷ tick 4100
    ∷ packet 10 4200
    ∷ []

abbrev ran : Metric
ran = elim (run (init zeroed) script) [ none ↦ zeroed | some m ↦ m ]

ran_lem : run (init zeroed) script ≡ some ran
unfolding run step init tmr_handler measure bitrate start add_packet inc_err
ran_lem = refl

run-Counted_example :
    Counted (init zeroed) ran (packets_of script) (bytes_of script) (errors_of script)
unfolding init
run-Counted_example = run-Counted (init zeroed) script ran (omega arith) ran_lem

-- At 4100 ms the counters had wrapped once.
abbrev measuring : ℕ → Metric
measuring n_bytes = record zeroed {
  started = true;
  ts_last = 4100;
  n_bytes_last = 4_294_967_290;
  n_bytes = n_bytes;
}

measuring-Measures :
    (sent n_bytes : ℕ)
    → n_bytes ≡ (4_294_967_290 + sent) % 2 ^ 32
    → Measures (measuring n_bytes) 4_294_967_290 sent
measuring-Measures sent n_bytes e = record {
  started = refl;
  before = omega arith;
  range = omega arith;
  last = omega arith;
  now = e;
}

tick-bitrate_example :
    (m' : Metric) × (tmr_handler (measuring 24_000) 7100 ≡ some m')
    × (m'.cur_bitrate ≡ 64_016)
    × (m'.ts_last ≡ 7100)
    × (m'.n_bytes_last ≡ 24_000)
tick-bitrate_example =
    tick-bitrate (measuring 24_000) 4_294_967_290 24_006 7100
      (measuring-Measures 24_006 24_000 (omega arith)) (omega arith) (omega arith) (omega arith)
      (omega arith)
