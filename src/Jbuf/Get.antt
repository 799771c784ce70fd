-- ===== src/Jbuf/Get.antt =====
-- src/jbuf.c: `jbuf_get`, `jbuf_drain` and `jbuf_next_play`.
-- The reading of the clock is an argument.
use baresip.Prelude.{
  ℕ, ◌-◌, Bool, ◌&&◌, not, Option, none, some, List, [], ◌∷◌, ◌==◌, ltb, leb, add16, add32, sub32,
  if◌then◌else◌,
}
use baresip.Prelude.Int.{ℤ, pos, negsuc, signed32}
use baresip.Jbuf.State.{Header, Packet, Jbuf, Errno, success, enoent, eagain, eproto}
use baresip.Jbuf.Clock.{delay_ms, call_next_play}
use baresip.Jbuf.Seq.{jump}
use baresip.Jbuf.Pool.{mem_ref, packet_deref}

-- What a call writes through its pointers `hdr` and `mem`.
abbrev pub Output : Type 0
Output = Option (Header × Option ℕ)

-- The packets between the last one played and this one count as lost.
module _ (seq_less : ℕ → ℕ → Bool) where
  unfoldable pub count_lost : Jbuf → ℕ → Jbuf
  count_lost jb seq =
      if not (jb.seq_get == 0) && (not (seq_less seq jb.seq_get) && ltb 1 (jump seq jb.seq_get))
      then record jb {
        stat = record (jb.stat) { n_lost = add32 jb.stat.n_lost (jump seq jb.seq_get - 1) };
      }
      else jb

  -- The packet `f` leaves the buffer and `rest` stays.
  unfoldable pub play : Jbuf → Packet → List Packet → Jbuf
  play jb f rest =
      let jb' = count_lost (record jb { mem_calls = mem_ref f.mem jb.mem_calls }) f.hdr.seq in
      packet_deref (record jb' { seq_get = f.hdr.seq }) rest f

  -- Can the next packet be played too?
  abbrev pub again : List Packet → ℕ → Errno
  again [] next_playout = success
  again (nextp ∷ rest) next_playout =
      if leb nextp.playout_time next_playout then eagain else success

  unfoldable pub get_from : Jbuf → List Packet → ℕ → Jbuf × Errno × Output
  get_from jb [] next_playout = (jb, enoent, none)
  get_from jb (f ∷ rest) next_playout =
      if ltb next_playout f.playout_time
      then (jb, enoent, none)
      else (play jb f rest, again rest next_playout, some (f.hdr, f.mem))

  -- `jbuf_get`.
  unfoldable pub get : Jbuf → ℕ → Jbuf × Errno × Output
  get jb now =
      get_from (record jb { stat = record (jb.stat) { n_get = add32 jb.stat.n_get 1 } }) jb.packetl
        (call_next_play jb now)

unfoldable pub drain_from : Jbuf → List Packet → Jbuf × Errno × Output
drain_from jb [] = (jb, enoent, none)
drain_from jb (f ∷ rest) = if jb.n == 0 then (jb, enoent, none) else (
  packet_deref (record jb { seq_get = f.hdr.seq; mem_calls = mem_ref f.mem jb.mem_calls }) rest f,
  success,
  some (f.hdr, f.mem),
)

-- `jbuf_drain`.
unfoldable pub drain : Jbuf → Jbuf × Errno × Output
drain jb = drain_from jb jb.packetl

-- What `jbuf_next_play` returns: a negative errno value, or a delay in ms.
pub data Wait : Type 0 where
  error : Errno → Wait
  delay : ℤ → Wait

abbrev round_up : ℤ → Wait
round_up (pos ms) = if ms == 0 then delay (pos 1) else delay (pos ms)
round_up (negsuc ms) = delay (negsuc ms)

unfoldable pub wait_from : Jbuf → Packet → ℕ → Option Wait
wait_from jb f current =
    if not (f.hdr.seq == add16 jb.seq_get 1)
    then some (error eproto)
    else if leb f.playout_time current
    then some (delay (pos 0))
    else if jb.srate == 0
    then none
    else some (round_up (delay_ms (signed32 (sub32 f.playout_time current)) jb.srate))

-- `jbuf_next_play`; without a clock rate the delay is a division by zero.
unfoldable pub next_play_wait : Jbuf → ℕ → Option Wait
next_play_wait jb now = elim jb.packetl [
  | [] ↦ some (error enoent)
  | f ∷ rest ↦ wait_from jb f (call_next_play jb now)
]
