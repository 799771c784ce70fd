-- ===== src/Jbuf/Accept.antt =====
-- src/jbuf.c: what the label `success` of `jbuf_put` does to the packets, on its three branches.
use baresip.Prelude.{ℕ, ◌≡◌, ◌⊎◌, Option, none, List, ◌∷◌, [], ◌++◌, true, arith, sub32}
use baresip.Prelude.Int.{ℤ}
use baresip.Jbuf.State.{Packet, Header, Jbuf, Errno, success, etime}
use baresip.Jbuf.Clock.{calc_playout_time, adjust_due_to_skew}
use baresip.Jbuf.Pool.{mem_ref, mem_deref, packet_deref}
use baresip.Jbuf.Put.{Reads, splice, head?, entering, filled, settle, accept}
use baresip.Jbuf.Frame.{
  SameCore, calc_playout_time-SameCore, adjust_due_to_skew-SameCore, late_check-SameCore,
}

-- The packet as it is stored, with its playout time.
unfoldable pub stored : Jbuf → Packet → List Packet → Header → Option ℕ → Packet
stored jb f before hdr mem = record f {
  hdr = hdr;
  mem = mem;
  playout_time = (calc_playout_time (entering jb hdr mem) (head? before) (filled f hdr mem)).1;
}

-- The packet `g` was put between `before` and `after`, and its payload referenced.
pub record Kept (jb : Jbuf) (g : Packet) (before after : List Packet) (r : Jbuf × Errno)
    : Type 0 where
  pub errno : r.1 ≡ success
  pub packetl : r.0.packetl ≡ splice before (g ∷ after)
  pub pooll : r.0.pooll ≡ jb.pooll
  pub n : r.0.n ≡ jb.n
  pub c_packets : r.0.stat.c_packets ≡ jb.stat.c_packets
  pub maxsz : r.0.maxsz ≡ jb.maxsz
  pub srate : r.0.srate ≡ jb.srate
  pub seq_get : r.0.seq_get ≡ jb.seq_get
  pub running : r.0.running ≡ true
  pub mem_calls : r.0.mem_calls ≡ mem_ref g.mem jb.mem_calls

-- The packet `g` went back to the pool, and its payload was released again.
pub record Dropped (jb : Jbuf) (g : Packet) (before after : List Packet) (r : Jbuf × Errno)
    : Type 0 where
  pub errno : r.1 ≡ etime
  pub packetl : r.0.packetl ≡ splice before after
  pub pooll : r.0.pooll ≡ jb.pooll ++ (record g { mem = none } ∷ [])
  pub n : r.0.n ≡ sub32 jb.n 1
  pub c_packets : r.0.stat.c_packets ≡ sub32 jb.stat.c_packets 1
  pub maxsz : r.0.maxsz ≡ jb.maxsz
  pub srate : r.0.srate ≡ jb.srate
  pub seq_get : r.0.seq_get ≡ jb.seq_get
  pub running : r.0.running ≡ true
  pub mem_calls : r.0.mem_calls ≡ mem_deref g.mem (mem_ref g.mem jb.mem_calls)

module _ (jb jb' : Jbuf) (g : Packet) (same : SameCore (entering jb g.hdr g.mem) jb')
    (before after : List Packet) where
  settle_cases :
      (k : ℤ) (now : ℕ)
      → Kept jb g before after (settle jb' g before after k now)
        ⊎ Dropped jb g before after (settle jb' g before after k now)
  unfolding settle packet_deref
  settle_cases k now = ground (
    arith,
    late_check-SameCore (record jb' { packetl = splice before (g ∷ after) }) g.playout_time now,
  )

SameCore-trans : {a b c : Jbuf} → SameCore a b → SameCore b c → SameCore a c
SameCore-trans h k = ground arith

-- The packet is kept, or dropped where the receiver's clock is behind.
pub accept_cases :
    (jb : Jbuf) (f : Packet) (before after : List Packet) (hdr : Header) (mem : Option ℕ)
    (t : Reads)
    → let g = stored jb f before hdr mem in
      Kept jb g before after (accept jb f before after hdr mem t)
      ⊎ Dropped jb g before after (accept jb f before after hdr mem t)
unfolding accept stored
accept_cases jb f before after hdr mem t =
    let jb' = (calc_playout_time (entering jb hdr mem) (head? before) (filled f hdr mem)).0 in
    let g = stored jb f before hdr mem in
    settle_cases jb (adjust_due_to_skew jb' g t.skew t.window).0 g
      (SameCore-trans
        (calc_playout_time-SameCore (entering jb hdr mem) (head? before) (filled f hdr mem))
        (adjust_due_to_skew-SameCore jb' g t.skew t.window))
      before after (adjust_due_to_skew jb' g t.skew t.window).1 t.play
