-- ===== src/Timestamp.antt =====
-- src/timestamp.c: wrap-around of 32-bit RTP timestamps, and the extended timestamps.
pub mod Epoch
pub mod Receive
mod Tests
use mathlib.Core.Option
use baresip.Prelude.{
  ℕ, ◌-◌, ◌*◌, ◌^◌, Bool, true, false, Option, none, some, add32, ltb, if◌then◌else◌, ◌||◌, sub32,
  add64, sub64,
}
use baresip.Prelude.Int.{ℤ, pos, negsuc, ◌-ℤ◌, ltb_ℤ, signed32}

-- What `timestamp_wrap` returns: 0, 1 or -1.
pub data Wrap : Type 0 where
  no_wrap forward backward : Wrap

-- `struct timestamp_recv`.
pub record TimestampRecv : Type 0 where
  pub first : ℕ
  pub last : ℕ
  pub is_set : Bool
  pub num_wraps : ℕ

-- An `int` subtraction: `none` is its overflow, which C leaves undefined.
unfoldable int_sub : ℤ → ℤ → Option ℤ
unfolding ◌-ℤ◌
int_sub a b =
    let d = a -ℤ b in
    if ltb_ℤ d (negsuc (2 ^ 31 - 1)) || ltb_ℤ (pos (2 ^ 31 - 1)) d then none else some d

unfoldable forward_if : Option ℤ → Option Wrap
forward_if none = none
forward_if (some delta) = if ltb_ℤ (pos 0) delta then some forward else some no_wrap

-- `timestamp_wrap`.
unfoldable pub wrap : ℕ → ℕ → Option Wrap
unfolding int_sub forward_if
wrap ts_new ts_old =
    if ltb ts_new ts_old
    then forward_if (int_sub (signed32 ts_new) (signed32 ts_old))
    else if ltb_ℤ (pos 0) (signed32 (sub32 ts_old ts_new))
    then some backward
    else some no_wrap

-- `timestamp_set`.
unfoldable pub set_first : TimestampRecv → ℕ → TimestampRecv
set_first ts rtp_ts = record ts { first = rtp_ts; last = rtp_ts; is_set = true }

-- `timestamp_calc_extended`.
unfoldable calc_extended : ℕ → ℕ → ℕ
calc_extended num_wraps ts = add64 (num_wraps * 2 ^ 32) ts

-- `timestamp_duration`.
unfoldable pub duration : TimestampRecv → ℕ
unfolding calc_extended
duration ts = if ts.is_set then sub64 (calc_extended ts.num_wraps ts.last) ts.first else 0

-- The switch of `update_rtp_timestamp` (src/video.c): a packet that wraps backwards is left out.
unfoldable pub advance_video : TimestampRecv → ℕ → Wrap → TimestampRecv
advance_video ts rtp_ts backward = ts
advance_video ts rtp_ts no_wrap = record ts { last = rtp_ts }
advance_video ts rtp_ts forward = record ts { num_wraps = add32 ts.num_wraps 1; last = rtp_ts }

-- `update_rtp_timestamp`. `none` is an overflow in `timestamp_wrap`.
unfoldable pub receive_video : TimestampRecv → ℕ → Option TimestampRecv
receive_video ts rtp_ts =
    if ts.is_set
    then Option.map (advance_video ts rtp_ts) (wrap rtp_ts ts.last)
    else some (record (set_first ts rtp_ts) { last = rtp_ts })

-- The switch of the audio receiver (src/aureceiver.c), with whether the packet is discarded. A
-- discarded packet becomes the last one too.
unfoldable pub advance_audio : TimestampRecv → ℕ → Wrap → TimestampRecv × Bool
advance_audio ts rtp_ts backward = (record ts { last = rtp_ts }, true)
advance_audio ts rtp_ts no_wrap = (record ts { last = rtp_ts }, false)
advance_audio ts rtp_ts forward =
    (record ts { num_wraps = add32 ts.num_wraps 1; last = rtp_ts }, false)

-- The timestamp part of `aurecv_receive` (src/aureceiver.c).
unfoldable pub receive_audio : TimestampRecv → ℕ → Option (TimestampRecv × Bool)
receive_audio ts rtp_ts =
    let ts' = if ts.is_set then ts else set_first ts rtp_ts in
    Option.map (advance_audio ts' rtp_ts) (wrap rtp_ts ts'.last)
