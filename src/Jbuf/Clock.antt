-- ===== src/Jbuf/Clock.antt =====
-- src/jbuf.c: the playout clock. Delay and skew estimation, and the playout time of a packet.
-- A division by `srate` is reached from `jbuf_put` only with a rate that is not 0, since it returns
-- early otherwise; `jbuf_next_play` has no such check, which its model in Get reports as none.
use baresip.Prelude.{
  ℕ, ◌+◌, ◌*◌, ◌/◌, ◌%◌, ◌^◌, ◌==◌, Option, none, some, add32, sub32, sub64, u32_mod, u64_mod, ltb,
  leb, if◌then◌else◌,
}
use baresip.Prelude.Int.{ℤ, pos, ◌*ℤ◌, negsuc, ltb_ℤ, tdiv, pattern32, signed32}
use baresip.Jbuf.State.{
  Packet, Jbuf, adaptive, builtin, custom, late_treshold, max_drift, drift_window, int_min,
}

-- `delay_clock * 1000LL` fits 64 bits; the result is cut to an `int32_t`.
unfoldable pub delay_ms : ℤ → ℕ → ℤ
unfolding ◌*ℤ◌
delay_ms delay_clock srate = signed32 (pattern32 (tdiv (delay_clock *ℤ pos 1000) srate))

-- The default playout clock, in samples: `tmr_jiffies() * (srate / 1000)`.
unfoldable pub next_play : Jbuf → ℕ → ℕ
next_play jb now = now * (jb.srate / 1000) % u64_mod

-- The call of `next_play_h`, cut to 32 bits as all callers do.
unfoldable pub call_next_play : Jbuf → ℕ → ℕ
call_next_play jb now = elim jb.next_play_h [
  | builtin ↦ next_play jb now % u32_mod
  | custom h ↦ h now % u32_mod
]

-- Smaller of two clock offsets: bit 31 of `a - b`.
unfoldable pub offset_min : ℕ → ℕ → ℕ
offset_min a b = if leb (2 ^ 31) (sub32 a b) then a else b

-- `(uint32_t)ts_arrive - ts`: the transit time, which is also the clock offset.
unfoldable pub offset : Packet → ℕ
offset f = sub32 (f.hdr.ts_arrive % u32_mod) f.hdr.ts

-- `int d = transit - last_transit; if (d < 0) d = -d;` on bit patterns.
unfoldable pub transit_diff : ℕ → ℕ → ℕ
transit_diff transit last = let d = sub32 transit last in if leb (2 ^ 31) d then sub32 0 d else d

-- `jitter += d - ((jitter + 8) >> 4)`, if the deviation is large enough.
unfoldable pub next_jitter : ℕ → ℕ → ℕ → ℕ → ℕ
next_jitter jitter d d_ms mind =
    if ltb (mind / 2) d_ms then add32 jitter (sub32 d (add32 jitter 8 / 16)) else jitter

-- After the first frame. The late packets trigger an adaption of the offset.
unfoldable pub adapt : Jbuf → ℕ → Jbuf × ℕ
adapt jb transit =
    let d = transit_diff transit jb.p.last_transit in
    let d_ms = pattern32 (delay_ms (signed32 d) jb.srate) in
    let sum = next_jitter jb.p.jitter d d_ms jb.mind in
    let jitter = sum / 16 in
    let late = leb late_treshold jb.p.late_pkts in
    let off' = if late then 2 * jitter else jb.p.jitter_offset in
    (
      record jb {
        p = record (jb.p) {
          last_transit = transit;
          jitter = sum;
          jitter_offset = off';
          late_pkts = if late then 0 else jb.p.late_pkts;
        };
        stat = record (jb.stat) { c_jitter = pattern32 (delay_ms (signed32 jitter) jb.srate) };
      },
      off',
    )

-- `adjust_due_to_jitter`.
unfoldable pub adjust_due_to_jitter : Jbuf → Packet → Jbuf × ℕ
adjust_due_to_jitter jb f =
    if jb.p.last_transit == 0
    then (record jb { p = record (jb.p) { last_transit = offset f } }, 0)
    else adapt jb (offset f)

-- `((31LL * delay_estimate) + delay) / 32`; this fits 32 bits again.
unfoldable pub smooth : ℕ → ℕ → ℕ
smooth estimate delay = (31 * estimate + delay) / 32

-- The skew in ms, of which the buffer keeps the maximum over a window.
unfoldable pub skew_ms_of : Jbuf → ℕ → ℤ
skew_ms_of jb estimate = delay_ms (signed32 (sub32 jb.p.active_delay estimate)) jb.srate

-- The end of a drift window: the maximum starts anew. A drift beyond the bound makes the current
-- estimate the new reference, and is returned with its sign.
unfoldable pub end_window : Jbuf → ℤ → ℕ → Jbuf × ℤ
end_window jb max_skew now =
    let fresh = record jb { p = record (jb.p) { skewt = now; max_skew_ms = int_min } } in
    let moved = record jb {
      p = record (jb.p) { skewt = now; max_skew_ms = int_min; active_delay = jb.p.delay_estimate };
    } in
    if ltb_ℤ (pos max_drift) max_skew
    then (moved, negsuc 19)
    else if ltb_ℤ max_skew (negsuc 19)
    then (moved, pos max_drift)
    else (fresh, pos 0)

-- The branch of `adjust_due_to_skew` after the first packet. The clock is read at the test (`now`)
-- and again when the window starts anew (`later`).
unfoldable pub track_skew : Jbuf → Packet → ℕ → ℕ → Jbuf × ℤ
track_skew jb f now later =
    let estimate = smooth jb.p.delay_estimate (offset f) in
    let skew_ms = skew_ms_of jb estimate in
    let max_skew = if ltb_ℤ jb.p.max_skew_ms skew_ms then skew_ms else jb.p.max_skew_ms in
    let jb' = record jb {
      p = record (jb.p) { delay_estimate = estimate; max_skew_ms = max_skew };
      stat = record (jb.stat) { c_skew = skew_ms };
    } in
    if ltb drift_window (sub64 now jb.p.skewt) then end_window jb' max_skew later else (jb', pos 0)

-- `adjust_due_to_skew`.
unfoldable pub adjust_due_to_skew : Jbuf → Packet → ℕ → ℕ → Jbuf × ℤ
adjust_due_to_skew jb f now later =
    if jb.p.active_delay == 0
    then (
      record jb {
        p = record (jb.p) {
          active_delay = offset f;
          delay_estimate = offset f;
          max_skew_ms = int_min;
          skewt = now;
        };
      },
      pos 0,
    )
    else track_skew jb f now later

-- The clamp of `calc_playout_time`, as the code orders its tests.
unfoldable pub clamp_latency : ℕ → ℕ → ℕ → ℕ
clamp_latency min_lat max_lat jitter_offset =
    if ltb jitter_offset min_lat
    then min_lat
    else if ltb max_lat jitter_offset
    then max_lat
    else jitter_offset

abbrev pub lat : ℕ → ℕ → ℕ
lat srate delay = srate / 1000 * delay % u32_mod

-- The new clock offset of the buffer. 0 stands for "not set".
unfoldable pub next_offset : ℕ → ℕ → ℕ
next_offset old new = if old == 0 then new else offset_min old new

-- The jitter compensation of an adaptive buffer.
unfoldable pub jitter_of : Jbuf → Packet → Jbuf × ℕ
jitter_of jb f = elim jb.jbtype [ adaptive ↦ adjust_due_to_jitter jb f | _ ↦ (jb, 0) ]

-- `calc_playout_time` for the first fragment of a frame.
unfoldable pub fresh_playout_time : Jbuf → Packet → Jbuf × ℕ
fresh_playout_time jb f =
    let base = next_offset jb.p.offset (offset f) in
    let (jb', jitter_offset) = jitter_of (record jb { p = record (jb.p) { offset = base } }) f in
    let delay = clamp_latency (lat jb.srate jb.mind) (lat jb.srate jb.maxd) jitter_offset in
    (
      record jb' {
        stat = record (jb'.stat) { c_delay = pattern32 (delay_ms (signed32 delay) jb.srate) };
      },
      add32 (add32 f.hdr.ts base) delay,
    )

-- `calc_playout_time`; `prev` is the packet before `f` in the list. Fragments of one frame share
-- the playout time.
unfoldable pub calc_playout_time : Jbuf → Option Packet → Packet → Jbuf × ℕ
calc_playout_time jb none f = fresh_playout_time jb f
calc_playout_time jb (some prevp) f =
    if prevp.hdr.ts == f.hdr.ts then (jb, prevp.playout_time) else fresh_playout_time jb f
