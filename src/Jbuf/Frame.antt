-- ===== src/Jbuf/Frame.antt =====
-- src/jbuf.c: what the clock adjustments leave alone.
use baresip.Prelude.{ℕ, Bool, ◌≡◌, Option, none, some, arith}
use baresip.Jbuf.State.{Packet, Jbuf}
use baresip.Jbuf.Clock.{
  adapt, adjust_due_to_jitter, end_window, track_skew, adjust_due_to_skew, jitter_of,
  fresh_playout_time, calc_playout_time, next_offset, offset,
}
use baresip.Jbuf.Get.{count_lost}
use baresip.Jbuf.Put.{send_gnack, report_gap, late_check}

-- The second buffer has the packets, the references and the settings of the first.
pub record SameCore (jb jb' : Jbuf) : Type 0 where
  pub pooll : jb'.pooll ≡ jb.pooll
  pub packetl : jb'.packetl ≡ jb.packetl
  pub n : jb'.n ≡ jb.n
  pub maxsz : jb'.maxsz ≡ jb.maxsz
  pub c_packets : jb'.stat.c_packets ≡ jb.stat.c_packets
  pub mem_calls : jb'.mem_calls ≡ jb.mem_calls
  pub srate : jb'.srate ≡ jb.srate
  pub seq_get : jb'.seq_get ≡ jb.seq_get
  pub ssrc : jb'.ssrc ≡ jb.ssrc
  pub running : jb'.running ≡ jb.running

adapt-SameCore : (jb : Jbuf) (transit : ℕ) → SameCore jb (adapt jb transit).0
unfolding adapt
adapt-SameCore jb transit = ground arith

adjust_due_to_jitter-SameCore : (jb : Jbuf) (f : Packet) → SameCore jb (adjust_due_to_jitter jb f).0
unfolding adjust_due_to_jitter
adjust_due_to_jitter-SameCore jb f = ground (arith, adapt-SameCore jb (offset f))

jitter_of-SameCore : (jb : Jbuf) (f : Packet) → SameCore jb (jitter_of jb f).0
unfolding jitter_of
jitter_of-SameCore jb f = ground (arith, adjust_due_to_jitter-SameCore jb f)

fresh_playout_time-SameCore : (jb : Jbuf) (f : Packet) → SameCore jb (fresh_playout_time jb f).0
unfolding fresh_playout_time
fresh_playout_time-SameCore jb f = ground (
  arith,
  jitter_of-SameCore
      (record jb { p = record (jb.p) { offset = next_offset jb.p.offset (offset f) } }) f,
)

pub calc_playout_time-SameCore :
    (jb : Jbuf) (prev : Option Packet) (f : Packet) → SameCore jb (calc_playout_time jb prev f).0
unfolding calc_playout_time
calc_playout_time-SameCore jb none f = fresh_playout_time-SameCore jb f
calc_playout_time-SameCore jb (some prevp) f = ground (arith, fresh_playout_time-SameCore jb f)

track_skew-SameCore :
    (jb : Jbuf) (f : Packet) (now later : ℕ) → SameCore jb (track_skew jb f now later).0
unfolding track_skew end_window
track_skew-SameCore jb f now later = ground arith

pub adjust_due_to_skew-SameCore :
    (jb : Jbuf) (f : Packet) (now later : ℕ) → SameCore jb (adjust_due_to_skew jb f now later).0
unfolding adjust_due_to_skew
adjust_due_to_skew-SameCore jb f now later = ground (arith, track_skew-SameCore jb f now later)

pub report_gap-SameCore : (jb : Jbuf) (last seq : ℕ) → SameCore jb (report_gap jb last seq)
unfolding report_gap send_gnack
report_gap-SameCore jb last seq = ground arith

pub late_check-SameCore : (jb : Jbuf) (t now : ℕ) → SameCore jb (late_check jb t now)
unfolding late_check
late_check-SameCore jb t now = ground arith

pub count_lost-SameCore :
    (less : ℕ → ℕ → Bool) (jb : Jbuf) (seq : ℕ) → SameCore jb (count_lost less jb seq)
unfolding count_lost
count_lost-SameCore less jb seq = ground arith
