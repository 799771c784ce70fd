-- ===== src/Jbuf/Tests.antt =====
-- src/jbuf.c: a buffer of three packets, run on concrete input, and the theorems at such input.
use baresip.Prelude.{
  ℕ, ◌+◌, ◌*◌, ◌^◌, ◌%◌, ◌<◌, ◌≤◌, ◌≡◌, ◌≢◌, refl, Bool, true, Option, none, some, List, [], ◌∷◌,
  map, arith, leb, ltb, sub16, if◌then◌else◌,
}
use baresip.Prelude.Int.{pos, negsuc, ◌*ℤ◌}
use baresip.Jbuf.State.{Header, Packet, Jbuf, Errno, einval}
use baresip.Jbuf.Seq.{seq_diff, jump}
use baresip.Jbuf.Clock.{
  delay_ms, next_play, call_next_play, offset_min, offset, transit_diff, next_jitter, adapt,
  adjust_due_to_jitter, smooth, skew_ms_of, end_window, track_skew, adjust_due_to_skew,
  clamp_latency, next_offset, jitter_of, fresh_playout_time, calc_playout_time,
}
use baresip.Jbuf.Pool.{
  take_free, steal_oldest, packet_alloc, packet_deref, release_all, flush, fill_pool, Memory, jbuf,
  alloc, zero_playout, zero_stat, fresh_jbuf, zero_packet, set_srate, set_type, set_gnack,
  set_next_play_h,
}
use baresip.Jbuf.Put.{
  Reads, gnack_blp, send_gnack, report_gap, splice, late_check, settle, accept, find_place,
  put_unordered, enqueue, too_late, put_locked, on_ssrc, put,
}
use baresip.Jbuf.Get.{
  Output, count_lost, play, get_from, get, drain_from, drain, wait_from, next_play_wait,
}
use baresip.Jbuf.Invariant.{IsValid}
use baresip.Jbuf.Run.{Call, puts, gets, sets_srate, step, run, run-IsValid}
use baresip.Jbuf.Ordered.{SeqOrder, Ordered}
use baresip.Jbuf.Sorted.{run-Ordered}
use baresip.Jbuf.Ownership.{Owns, held, hold, refs, derefs}
use baresip.Jbuf.Handover.{all_given, run-Owns}
use baresip.Jbuf.Contents.{survivors, put-Means}
use baresip.Jbuf.Playout.{fresh_playout_time_bounds}
use baresip.Jbuf.Nack.{bit, report_gap-covers}

-- libre's comparison: `(int16_t)(x - y) < 0`.
abbrev less : ℕ → ℕ → Bool
less x y = leb (2 ^ 15) (sub16 x y)

less-SeqOrder : SeqOrder less
less-SeqOrder = record { total = λ x y hx hy ne h. ground arith }

-- The names that a run of the buffer computes with.
whole : Unit {0}
unfolding seq_diff jump delay_ms next_play call_next_play offset_min offset transit_diff next_jitter
    adapt adjust_due_to_jitter smooth skew_ms_of end_window track_skew adjust_due_to_skew
    clamp_latency next_offset jitter_of fresh_playout_time calc_playout_time take_free steal_oldest
    packet_alloc packet_deref release_all flush fill_pool alloc set_srate set_type set_gnack
    set_next_play_h gnack_blp send_gnack report_gap splice late_check settle accept find_place
    put_unordered enqueue too_late put_locked on_ssrc put count_lost play get_from get drain_from
    drain wait_from next_play_wait step run ◌*ℤ◌
whole = tt

abbrev memory : Memory
memory = record { jbuf_ok = true; lock_ok = true; packets = 8 }

abbrev new : Jbuf
new = record (fresh_jbuf 20 100 3) { pooll = zero_packet ∷ zero_packet ∷ zero_packet ∷ [] }

alloc-new : alloc less memory 20 100 3 ≡ jbuf new
unfolding whole
alloc-new = refl

-- 8 kHz, a packet each 20 ms, on a clock of 1 kHz for arrivals in samples.
abbrev header : ℕ → Header
header seq = record { seq = seq; ts = 160 * seq; ssrc = 77; ts_arrive = 160 * seq + 4000 }

abbrev reads : ℕ → Reads
reads now = record { skew = now; window = now; play = now }

abbrev put_at : ℕ → ℕ → Call
put_at seq mem = puts (header seq) (some mem) (reads 500)

abbrev script : List Call
script = sets_srate 8000 ∷ put_at 5 1 ∷ put_at 7 2 ∷ put_at 6 3 ∷ put_at 6 4 ∷ gets 5000 ∷ []

abbrev result : Option (Jbuf × List Output)
result = run less new script

seqs : List Packet → List ℕ
seqs l = map (λ f. f.hdr.seq) l

ends_with : Option (Jbuf × List Output) → List ℕ
ends_with none = []
ends_with (some r) = seqs r.0.packetl

-- 5, 7 and 6 are put in order; the duplicate of 6 costs 5; 6 is played.
script_leaves : ends_with result ≡ 7 ∷ []
unfolding whole ends_with seqs
script_leaves = refl

abbrev final : Jbuf × List Output
final = elim result [ none ↦ (new, []) | some r ↦ r ]

result-final : run less new script ≡ some final
unfolding whole
result-final = refl

new-IsValid : IsValid new
new-IsValid = omega arith

new-Owns : Owns 3 0 new
unfolding held hold refs derefs
new-Owns = record { clear = (refl, (refl, (refl, tt))); balance = refl }

run-IsValid_example : (r : Jbuf × List Output) × (run less new script ≡ some r) × IsValid r.0
run-IsValid_example = run-IsValid less new script new-IsValid

run-Owns_example : Owns 3 (all_given 3 less final.1 + 0) final.0
run-Owns_example = run-Owns 3 less 0 new script new-Owns result-final

run-Ordered_example : Ordered less final.0.packetl
run-Ordered_example = run-Ordered less less-SeqOrder new script (omega arith) tt result-final

-- Three packets are buffered and the pool is empty.
abbrev packet : ℕ → Packet
packet seq = record { playout_time = 160 * seq + 4160; hdr = header seq; mem = some seq }

abbrev full : Jbuf
full = record new {
  pooll = [];
  packetl = packet 5 ∷ packet 6 ∷ packet 7 ∷ [];
  n = 3;
  ssrc = 77;
  srate = 8000;
  running = true;
  gnack_rtp = true;
  stat = record zero_stat { c_packets = 3 };
}

abbrev after_duplicate : Jbuf × Errno
after_duplicate = elim (put less full (header 6) (some 9) (reads 500)) [
  | none ↦ (full, einval)
  | some r ↦ r
]

after_duplicate_lem : put less full (header 6) (some 9) (reads 500) ≡ some after_duplicate
unfolding whole
after_duplicate_lem = refl

-- A duplicate of 6 in a full buffer: EALREADY, and 5 is gone.
put-Means_example : after_duplicate.0.packetl ≡ packet 6 ∷ packet 7 ∷ []
unfolding whole survivors
put-Means_example =
    put-Means less full (header 6) (some 9) (reads 500) after_duplicate (omega arith)
      after_duplicate_lem

plays_5 : (get less full 5000).2 ≡ some (header 5, some 5)
unfolding whole
plays_5 = refl

report_gap-covers_example :
    (blp : ℕ) × ((report_gap full 65534 3).gnacks
      ≡ record { ssrc = 77; pid = 65535; blp = blp } ∷ [])
    × ((65534 + jump 3 65534) % 2 ^ 16 ≡ 3)
    × ((i : ℕ) → i < 16 → bit blp i ≡ (if ltb (i + 2) (jump 3 65534) then 1 else 0))
unfolding whole
report_gap-covers_example =
    report_gap-covers full 65534 3 (omega arith) (omega arith) refl (omega arith)

fresh_playout_time_bounds_example :
    let (jb', playout_time) = fresh_playout_time full (packet 8) in
    (d : ℕ) × (160 ≤ d) × (d ≤ 800) × (playout_time ≡ (1280 + jb'.p.offset + d) % 2 ^ 32)
fresh_playout_time_bounds_example = fresh_playout_time_bounds full (packet 8) (omega arith)

-- The packet 0 is due, and the late packet 65535 comes after it.
abbrev wrapped : Jbuf
wrapped = record full { packetl = packet 0 ∷ []; pooll = zero_packet ∷ zero_packet ∷ []; n = 1 }

plays_0 : (get less wrapped 5000).2 ≡ some (header 0, some 0)
unfolding whole
plays_0 = refl

abbrev late_put : Option (Jbuf × Errno)
late_put = put less (get less wrapped 5000).0 (header 65535) (some 9) (reads 500)

abbrev after_late : Jbuf × Errno
after_late = elim late_put [ none ↦ (wrapped, einval) | some r ↦ r ]

late_put-some : late_put ≡ some after_late
unfolding whole
late_put-some = refl

abbrev drifted : Jbuf
drifted = record full {
  p = record zero_playout { active_delay = 8000; delay_estimate = 7000; max_skew_ms = negsuc 50 };
}

drifts : (adjust_due_to_skew drifted (packet 5) 20_000 20_001).1 ≢ pos 0
unfolding whole
drifts = λ e. cc (e)
