-- ===== src/Jbuf/Put.antt =====
-- src/jbuf.c: `jbuf_put`. The comparison of sequence numbers is libre's and a parameter. The clock
-- readings of one call are arguments.
use baresip.Prelude.{
  ℕ, ◌-◌, ◌^◌, ◌%◌, Bool, true, ◌&&◌, not, Option, none, some, List, [], ◌∷◌, ◌==◌, ltb, min, add16,
  add32, if◌then◌else◌,
}
use baresip.Prelude.Int.{ℤ, pos, ltb_ℤ}
use baresip.Jbuf.State.{Header, Packet, Jbuf, Errno, success, einval, etimedout, ealready, etime}
use baresip.Jbuf.Clock.{call_next_play, calc_playout_time, adjust_due_to_skew}
use baresip.Jbuf.Seq.{jump}
use baresip.Jbuf.Pool.{mem_ref, packet_alloc, packet_deref, flush}

-- The readings of `tmr_jiffies` that a call of `jbuf_put` makes, in order.
pub record Reads : Type 0 where
  pub skew : ℕ
  pub window : ℕ
  pub play : ℕ

-- `send_gnack`: the bit mask of at most 16 further packets that are missing.
unfoldable pub gnack_blp : ℕ → ℕ
gnack_blp blp_pkts = (2 ^ min blp_pkts 16 - 1) % 2 ^ 16

unfoldable pub send_gnack : Jbuf → ℕ → ℕ → Jbuf
send_gnack jb pid blp_pkts = record jb {
  gnacks = record { ssrc = jb.ssrc; pid = pid; blp = gnack_blp blp_pkts } ∷ jb.gnacks;
  stat = record (jb.stat) { n_gnacks = add32 jb.stat.n_gnacks 1 };
}

-- A jump of the sequence number reports what is missing. `seq_diff > 1` is on an `int16_t`.
unfoldable pub report_gap : Jbuf → ℕ → ℕ → Jbuf
report_gap jb last_seq seq =
    if jb.gnack_rtp && ltb 1 (jump seq last_seq)
    then send_gnack jb (add16 last_seq 1) (jump seq last_seq - 2)
    else jb

-- The list that has the packets `before`, nearest first, in front of `after`.
unfoldable pub splice : List Packet → List Packet → List Packet
splice [] after = after
splice (b ∷ before) after = splice before (b ∷ after)

abbrev pub head? : List Packet → Option Packet
head? [] = none
head? (f ∷ fs) = some f

-- Where a packet goes: between the packets `before`, nearest first, and those `after` it; or it
-- is a duplicate.
pub data Place : Type 0 where
  between : List Packet → List Packet → Place
  duplicate : Place

-- The check of the playout time at the end of `jbuf_put`. A late packet stays in the buffer.
unfoldable pub late_check : Jbuf → ℕ → ℕ → Jbuf
late_check jb playout_time now =
    if ltb playout_time (call_next_play jb now)
    then record jb {
      p = record (jb.p) { late_pkts = add16 jb.p.late_pkts 1 };
      stat = record (jb.stat) { n_late = add32 jb.stat.n_late 1 };
    }
    else jb

-- The part behind the skew adjustment: keep the packet, or drop it where the receiver's clock is
-- the slower one.
unfoldable pub settle : Jbuf → Packet → List Packet → List Packet → ℤ → ℕ → Jbuf × Errno
settle jb f before after skew_adjust now =
    let kept = record jb { packetl = splice before (f ∷ after) } in
    if ltb_ℤ (pos 0) skew_adjust
    then (record kept { p = record (jb.p) { offset = 0 } }, success)
    else if ltb_ℤ skew_adjust (pos 0)
    then (
      packet_deref (record jb { p = record (jb.p) { offset = 0 } }) (splice before after) f,
      etime,
    )
    else (late_check kept f.playout_time now, success)

-- The buffer and the packet at the label `success` of `jbuf_put`.
abbrev pub entering : Jbuf → Header → Option ℕ → Jbuf
entering jb hdr mem = record jb {
  running = true;
  seq_put = hdr.seq;
  mem_calls = mem_ref mem jb.mem_calls;
}

abbrev pub filled : Packet → Header → Option ℕ → Packet
filled f hdr mem = record f { hdr = hdr; mem = mem }

-- The label `success` of `jbuf_put`: the packet `f` stands between `before` and `after`.
unfoldable pub accept :
    Jbuf → Packet → List Packet → List Packet → Header → Option ℕ → Reads → Jbuf × Errno
accept jb f before after hdr mem t =
    let (jb', playout_time) =
      calc_playout_time (entering jb hdr mem) (head? before) (filled f hdr mem) in
    let f' = record f { hdr = hdr; mem = mem; playout_time = playout_time } in
    let (jb'', skew_adjust) = adjust_due_to_skew jb' f' t.skew t.window in
    settle jb'' f' before after skew_adjust t.play

-- A packet that comes too late by its sequence number.
abbrev pub late_lost : Jbuf → ℕ → Jbuf
late_lost jb ssrc = record jb {
  ssrc = ssrc;
  p = record (jb.p) { late_pkts = add16 jb.p.late_pkts 1 };
  stat = record (jb.stat) { n_late_lost = add32 jb.stat.n_late_lost 1 };
}

-- A packet that is let in.
abbrev pub count_put : Jbuf → ℕ → Jbuf
count_put jb ssrc = record jb {
  ssrc = ssrc;
  stat = record (jb.stat) { n_put = add32 jb.stat.n_put 1 };
}

-- The buffer that `jbuf_put` goes on with: a new SSRC flushes it.
unfoldable pub on_ssrc : Jbuf → ℕ → Jbuf
on_ssrc jb ssrc = if not (jb.ssrc == 0) && not (jb.ssrc == ssrc) then flush jb else jb

module _ (seq_less : ℕ → ℕ → Bool) where
  -- The loop over the list from its tail; `after` holds the packets passed.
  unfoldable pub find_place : ℕ → List Packet → List Packet → Place
  find_place seq [] after = between [] after
  find_place seq (le ∷ before) after =
      if seq_less le.hdr.seq seq
      then between (le ∷ before) after
      else if seq == le.hdr.seq
      then duplicate
      else find_place seq before (le ∷ after)

  -- The out-of-sequence branch. A duplicate is put back into the pool at once.
  unfoldable pub put_unordered : Jbuf → Packet → Place → Header → Option ℕ → Reads → Jbuf × Errno
  put_unordered jb f (between before after) hdr mem t =
      accept (record jb { stat = record (jb.stat) { n_oos = add32 jb.stat.n_oos 1 } }) f before
        after hdr mem t
  put_unordered jb f duplicate hdr mem t = (
    packet_deref (record jb { stat = record (jb.stat) { n_dups = add32 jb.stat.n_dups 1 } })
        jb.packetl f,
    ealready,
  )

  -- The three branches on the tail; `backward` is the packet list from its tail.
  unfoldable pub enqueue : Jbuf → Packet → List Packet → Header → Option ℕ → Reads → Jbuf × Errno
  enqueue jb f [] hdr mem t = accept jb f [] [] hdr mem t
  enqueue jb f (tail ∷ before) hdr mem t =
      if seq_less tail.hdr.seq hdr.seq
      then accept (report_gap jb tail.hdr.seq hdr.seq) f (tail ∷ before) [] hdr mem t
      else put_unordered jb f (find_place hdr.seq (tail ∷ before) []) hdr mem t

  -- Too late by sequence: not behind the last packet played. 0 stands for "none played".
  unfoldable pub too_late : Jbuf → ℕ → Bool
  too_late jb seq = jb.running && (not (jb.seq_get == 0) && seq_less seq (add16 jb.seq_get 1))

  -- `jbuf_put` from the lock on.
  unfoldable pub put_locked : Jbuf → Header → Option ℕ → Reads → Option (Jbuf × Errno)
  put_locked jb hdr mem t =
      if jb.srate == 0
      then some (jb, einval)
      else if too_late jb hdr.seq
      then some (late_lost jb hdr.ssrc, etimedout)
      else elim (packet_alloc (count_put jb hdr.ssrc)) [
        | none ↦ none
        | some (f, jb') ↦ some (enqueue jb' f (splice jb'.packetl []) hdr mem t)
      ]

  -- `jbuf_put`. `none` is the fault of `packet_alloc`.
  unfoldable pub put : Jbuf → Header → Option ℕ → Reads → Option (Jbuf × Errno)
  put jb hdr mem t =
      if hdr.ts_arrive == 0 then some (jb, einval) else put_locked (on_ssrc jb hdr.ssrc) hdr mem t
