-- ===== src/Jbuf/Playout.antt =====
-- src/jbuf.c: what the clock arithmetic amounts to.
use baresip.Prelude.{ℕ, ◌+◌, ◌%◌, ◌^◌, ◌<◌, ◌≤◌, ◌≡◌, ◌≢◌, ◌⊎◌, min, max, arith, sub64}
use baresip.Prelude.Int.{pos, negsuc}
use baresip.Jbuf.State.{Packet, Jbuf}
use baresip.Jbuf.Clock.{
  offset, offset_min, smooth, clamp_latency, lat, next_offset, jitter_of, adapt,
  adjust_due_to_jitter, fresh_playout_time, adjust_due_to_skew, track_skew, end_window,
}

-- Of two clock offsets less than half the 32-bit range apart, `offset_min` returns the smaller
-- one, also where one of them has wrapped around.
offset_min-min :
    (x y : ℕ)
    → x < y + 2 ^ 31
    → y < x + 2 ^ 31
    → offset_min (x % 2 ^ 32) (y % 2 ^ 32) ≡ min x y % 2 ^ 32
unfolding offset_min
offset_min-min x y h k = ground arith

-- The smoothed delay lies between the old estimate and the new delay.
smooth_bounds :
    (estimate delay : ℕ)
    → (min estimate delay ≤ smooth estimate delay) × (smooth estimate delay ≤ max estimate delay)
unfolding smooth
smooth_bounds estimate delay = omega arith

clamp_latency_bounds :
    (lo hi x : ℕ) → lo ≤ hi → (lo ≤ clamp_latency lo hi x) × (clamp_latency lo hi x ≤ hi)
unfolding clamp_latency
clamp_latency_bounds lo hi x h = ground arith

jitter_of_offset : (jb : Jbuf) (f : Packet) → (jitter_of jb f).0.p.offset ≡ jb.p.offset
unfolding jitter_of adjust_due_to_jitter adapt
jitter_of_offset jb f = ground arith

-- The first fragment of a frame is played `d` samples behind its send time on the receiver's
-- clock, with `d` between the configured minimum and maximum, where these are in order.
pub fresh_playout_time_bounds :
    (jb : Jbuf) (f : Packet)
    → lat jb.srate jb.mind ≤ lat jb.srate jb.maxd
    → let (jb', playout_time) = fresh_playout_time jb f in
      (d : ℕ) × (lat jb.srate jb.mind ≤ d)
      × (d ≤ lat jb.srate jb.maxd)
      × (playout_time ≡ (f.hdr.ts + jb'.p.offset + d) % 2 ^ 32)
unfolding fresh_playout_time
fresh_playout_time_bounds jb f h =
    let jb' = record jb { p = record (jb.p) { offset = next_offset jb.p.offset (offset f) } } in
    let j = (jitter_of jb' f).1 in
    let (lo, hi) = clamp_latency_bounds (lat jb.srate jb.mind) (lat jb.srate jb.maxd) j h in
    (
      clamp_latency (lat jb.srate jb.mind) (lat jb.srate jb.maxd) j,
      lo,
      hi,
      rw (jitter_of_offset) (omega arith),
    )

-- `adjust_due_to_skew` interferes with the playout only at the end of a drift window, and then the
-- current estimate becomes the new reference delay.
skew-window :
    (jb : Jbuf) (f : Packet) (now later : ℕ)
    → (adjust_due_to_skew jb f now later).1 ≢ pos 0
    → let (jb', adjust) = adjust_due_to_skew jb f now later in
      ((adjust ≡ pos 20) ⊎ (adjust ≡ negsuc 19))
      × (jb.p.active_delay ≢ 0)
      × (10_000 < sub64 now jb.p.skewt)
      × (jb'.p.active_delay ≡ smooth jb.p.delay_estimate (offset f))
      × (jb'.p.skewt ≡ later)
unfolding adjust_due_to_skew track_skew end_window
skew-window jb f now later h = ground arith
