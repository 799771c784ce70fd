-- ===== src/Jbuf/Pool.antt =====
-- src/jbuf.c: the packet pool, allocation and flush. A `struct jbuf *` that is NULL is outside the
-- model; the memory that libre has left is an argument.
use baresip.Prelude.{
  ℕ, zero, suc, Bool, false, ◌&&◌, not, Option, none, some, List, [], ◌∷◌, ◌++◌, add32, sub32, leb,
  if◌then◌else◌,
}
use baresip.Prelude.Int.{pos}
use baresip.Jbuf.State.{
  Packet, Playout, Stat, Jbuf, Errno, success, enomem, enosys, fixed, NextPlay, builtin, JbufType,
  MemOp, ref, deref,
}

-- `mem_ref` and `mem_deref` do nothing on NULL.
abbrev pub mem_ref : Option ℕ → List MemOp → List MemOp
mem_ref none calls = calls
mem_ref (some m) calls = ref m ∷ calls

abbrev pub mem_deref : Option ℕ → List MemOp → List MemOp
mem_deref none calls = calls
mem_deref (some m) calls = deref m ∷ calls

-- A packet leaves the pool, and `rest` stays there.
unfoldable pub take_free : Jbuf → List Packet → Jbuf
take_free jb rest = record jb {
  pooll = rest;
  n = add32 jb.n 1;
  stat = record (jb.stat) { c_packets = add32 jb.stat.c_packets 1 };
}

-- The oldest packet `f0` leaves the buffer with its payload, and `rest` stays.
unfoldable pub steal_oldest : Jbuf → Packet → List Packet → Jbuf
steal_oldest jb f0 rest = record jb {
  packetl = rest;
  stat = record (jb.stat) { n_overflow = add32 jb.stat.n_overflow 1 };
  mem_calls = mem_deref f0.mem jb.mem_calls;
}

-- `packet_alloc`: a free packet, or the oldest buffered one. `none` is the read through a NULL
-- list head, where the buffer has no packet at all.
unfoldable pub packet_alloc : Jbuf → Option (Packet × Jbuf)
packet_alloc jb = elim jb.pooll [
  | f ∷ rest ↦ some (f, take_free jb rest)
  | [] ↦ elim jb.packetl [
    | [] ↦ none
    | f0 ∷ rest ↦ some (record f0 { mem = none }, steal_oldest jb f0 rest)
  ]
]

-- `packet_deref`: `rest` is the packet list once `f` is unlinked.
unfoldable pub packet_deref : Jbuf → List Packet → Packet → Jbuf
packet_deref jb rest f = record jb {
  packetl = rest;
  pooll = jb.pooll ++ (record f { mem = none } ∷ []);
  n = sub32 jb.n 1;
  stat = record (jb.stat) { c_packets = sub32 jb.stat.c_packets 1 };
  mem_calls = mem_deref f.mem jb.mem_calls;
}

-- The loop of `jbuf_flush` over the packet list.
unfoldable pub release_all : Jbuf → List Packet → Jbuf
release_all jb [] = jb
release_all jb (f ∷ rest) = release_all (packet_deref jb rest f) rest

abbrev pub zero_playout : Playout
zero_playout = record {
  offset = 0;
  last_transit = 0;
  jitter = 0;
  jitter_offset = 0;
  delay_estimate = 0;
  active_delay = 0;
  late_pkts = 0;
  skewt = 0;
  max_skew_ms = pos 0;
}

abbrev pub zero_stat : Stat
zero_stat = record {
  n_put = 0;
  n_get = 0;
  n_oos = 0;
  n_dups = 0;
  n_late = 0;
  n_late_lost = 0;
  n_lost = 0;
  n_overflow = 0;
  n_flush = 0;
  n_gnacks = 0;
  c_delay = 0;
  c_jitter = 0;
  c_skew = pos 0;
  c_packets = 0;
}

-- `jbuf_flush`: only the number of flushes survives in the statistics.
unfoldable pub flush : Jbuf → Jbuf
flush jb = record (release_all jb jb.packetl) {
  n = 0;
  running = false;
  seq_get = 0;
  p = zero_playout;
  stat = record zero_stat { n_flush = add32 jb.stat.n_flush 1 };
}

abbrev pub zero_packet : Packet
zero_packet = record {
  playout_time = 0;
  hdr = record { seq = 0; ts = 0; ssrc = 0; ts_arrive = 0 };
  mem = none;
}

-- The allocation loop of `jbuf_alloc`; each packet goes to the end of the pool.
unfoldable pub fill_pool : ℕ → List Packet → List Packet
fill_pool zero pool = pool
fill_pool (suc i) pool = fill_pool i (pool ++ (zero_packet ∷ []))

abbrev pub fresh_jbuf : ℕ → ℕ → ℕ → Jbuf
fresh_jbuf mind maxd maxsz = record {
  gnack_rtp = false;
  pooll = [];
  packetl = [];
  n = 0;
  mind = mind;
  maxd = maxd;
  maxsz = maxsz;
  seq_put = 0;
  seq_get = 0;
  ssrc = 0;
  srate = 0;
  p = zero_playout;
  next_play_h = builtin;
  running = false;
  jbtype = fixed;
  stat = zero_stat;
  mem_calls = [];
  gnacks = [];
}

-- What the allocator and the mutexes of the platform have left for one call.
pub record Memory : Type 0 where
  pub jbuf_ok : Bool
  pub lock_ok : Bool
  pub packets : ℕ

pub data Allocated : Type 0 where
  jbuf : Jbuf → Allocated
  failed : Errno → Allocated

module _ (seq_less : ℕ → ℕ → Bool) where
  -- The self-test of `jbuf_alloc`.
  abbrev pub seq_less_ok : Bool
  seq_less_ok = seq_less 10 20 && not (seq_less 20 10) && seq_less 65535 0

  -- `jbuf_alloc`. A lock that cannot be had is reported by its own error, here ENOMEM.
  unfoldable pub alloc : Memory → ℕ → ℕ → ℕ → Allocated
  alloc m mind maxd maxsz =
      if not seq_less_ok
      then failed enosys
      else if not (m.jbuf_ok && m.lock_ok && leb maxsz m.packets)
      then failed enomem
      else jbuf (record (fresh_jbuf mind maxd maxsz) { pooll = fill_pool maxsz [] })

-- The setters, and the getters.
unfoldable pub set_srate : Jbuf → ℕ → Jbuf
set_srate jb srate = record jb { srate = srate }

unfoldable pub set_type : Jbuf → JbufType → Jbuf × Errno
set_type jb jbtype = (record jb { jbtype = jbtype }, success)

unfoldable pub set_gnack : Jbuf → Bool → Jbuf
set_gnack jb rtp = record jb { gnack_rtp = rtp }

unfoldable pub set_next_play_h : Jbuf → NextPlay → Jbuf
set_next_play_h jb h = record jb { next_play_h = h }

unfoldable pub packets : Jbuf → ℕ
packets jb = jb.n

unfoldable stats : Jbuf → Stat × Errno
stats jb = (jb.stat, success)
