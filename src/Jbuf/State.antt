-- ===== src/Jbuf/State.antt =====
-- src/jbuf.c: the data of the adaptive jitter buffer, and the errors that its functions return.
-- A C integer is the number of its bit pattern, but `int32_t` values that are compared are ℤ.
-- `packetl` and `pooll` are the linked lists, from head to tail.
use baresip.Prelude.{ℕ, ◌^◌, ◌-◌, Bool, Option, List}
use baresip.Prelude.Int.{ℤ, negsuc}

abbrev pub late_treshold : ℕ
late_treshold = 3

abbrev pub max_drift : ℕ
max_drift = 20

abbrev pub drift_window : ℕ
drift_window = 10_000

abbrev pub int_min : ℤ
int_min = negsuc (2 ^ 31 - 1)

-- What the functions return: 0, or an errno value.
pub data Errno : Type 0 where
  success einval enoent eagain ealready etimedout etime enomem enosys eproto : Errno

pub data JbufType : Type 0 where
  off fixed adaptive : JbufType

-- The fields of libre's `struct rtp_header` that jbuf.c reads. `ts_arrive` is 64 bits wide.
pub record Header : Type 0 where
  pub seq : ℕ
  pub ts : ℕ
  pub ssrc : ℕ
  pub ts_arrive : ℕ

-- `mem` is the address of the reference counted payload, `none` for NULL.
pub record Packet : Type 0 where
  pub playout_time : ℕ
  pub hdr : Header
  pub mem : Option ℕ

-- The struct `p` of `struct jbuf`.
pub record Playout : Type 0 where
  pub offset : ℕ
  pub last_transit : ℕ
  pub jitter : ℕ
  pub jitter_offset : ℕ
  pub delay_estimate : ℕ
  pub active_delay : ℕ
  pub late_pkts : ℕ
  pub skewt : ℕ
  pub max_skew_ms : ℤ

pub record Stat : Type 0 where
  pub n_put : ℕ
  pub n_get : ℕ
  pub n_oos : ℕ
  pub n_dups : ℕ
  pub n_late : ℕ
  pub n_late_lost : ℕ
  pub n_lost : ℕ
  pub n_overflow : ℕ
  pub n_flush : ℕ
  pub n_gnacks : ℕ
  pub c_delay : ℕ
  pub c_jitter : ℕ
  pub c_skew : ℤ
  pub c_packets : ℕ

-- The playout clock: the function `next_play` of jbuf.c, or one that a test installs. A client
-- cannot read a `struct jbuf`, so its function sees the time only.
pub data NextPlay : Type 0 where
  builtin : NextPlay
  custom : (ℕ → ℕ) → NextPlay

-- A call of libre's `mem_ref` or `mem_deref` on the payload at an address.
pub data MemOp : Type 0 where
  ref deref : ℕ → MemOp

-- A call of libre's `rtcp_send_gnack`.
pub record Gnack : Type 0 where
  pub ssrc : ℕ
  pub pid : ℕ
  pub blp : ℕ

-- `struct jbuf`. `gnack_rtp` says whether a socket is set. `mem_calls` and `gnacks` record the
-- calls of libre, newest first.
pub record Jbuf : Type 0 where
  pub gnack_rtp : Bool
  pub pooll : List Packet
  pub packetl : List Packet
  pub n : ℕ
  pub mind : ℕ
  pub maxd : ℕ
  pub maxsz : ℕ
  pub seq_put : ℕ
  pub seq_get : ℕ
  pub ssrc : ℕ
  pub srate : ℕ
  pub p : Playout
  pub next_play_h : NextPlay
  pub running : Bool
  pub jbtype : JbufType
  pub stat : Stat
  pub mem_calls : List MemOp
  pub gnacks : List Gnack
