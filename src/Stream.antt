-- ===== src/Stream.antt =====
-- src/stream.c: the directions of a media stream, hold, and the switches of its two halves. The SDP
-- media line is libre's; its getters return what the setters stored, and the direction that two
-- sides have in common is a parameter.
use baresip.Prelude.{
  ℕ, ◌-◌, ◌+◌, ◌*◌, ◌%◌, ◌^◌, Bool, true, false, ◌&&◌, ◌||◌, not, Option, none, some, List, [], ◌∷◌,
  ◌++◌, ◌==◌, ltb, if◌then◌else◌,
}
pub mod Hold
pub mod Timeout
mod Tests

-- `enum sdp_dir`, as seen from the local side.
pub data SdpDir : Type 0 where
  inactive recvonly sendonly sendrecv : SdpDir

-- The bits of a direction, `SDP_RECVONLY` and `SDP_SENDONLY`.
abbrev pub receives : SdpDir → Bool
receives inactive = false
receives recvonly = true
receives sendonly = false
receives sendrecv = true

abbrev pub sends : SdpDir → Bool
sends inactive = false
sends recvonly = false
sends sendonly = true
sends sendrecv = true

abbrev pub is_inactive : SdpDir → Bool
is_inactive inactive = true
is_inactive recvonly = false
is_inactive sendonly = false
is_inactive sendrecv = false

abbrev dir_of : Bool → Bool → SdpDir
dir_of false false = inactive
dir_of false true = recvonly
dir_of true false = sendonly
dir_of true true = sendrecv

-- The bitwise `&` of two directions.
abbrev pub dir_and : SdpDir → SdpDir → SdpDir
dir_and a b = dir_of (sends a && sends b) (receives a && receives b)

abbrev pub dir_eq : SdpDir → SdpDir → Bool
dir_eq inactive b = is_inactive b
dir_eq recvonly b = receives b && not (sends b)
dir_eq sendonly b = sends b && not (receives b)
dir_eq sendrecv b = sends b && receives b

-- The media line: the local and the remote direction, whether it is disabled, whether it has media,
-- and the payload type of the remote format that is in use, if any, with whether a codec stands
-- behind that.
pub record Media : Type 0 where
  pub ldir : SdpDir
  pub rdir : SdpDir
  pub disabled : Bool
  pub has_media : Bool
  pub rformat : Option (ℕ × Bool)

-- The parts of `struct stream` that its switches depend on. `mnat_wait` and `menc_wait` say whether
-- there is a media NAT or a media encryption that makes the stream wait.
pub record Stream : Type 0 where
  pub ldir : SdpDir
  pub sdp : Media
  pub hold : Bool
  pub terminated : Bool
  pub mnat_wait : Bool
  pub mnat_connected : Bool
  pub menc_wait : Bool
  pub menc_secure : Bool
  pub raddr_isset : Bool
  pub pt_enc : Option ℕ
  pub tx_enabled : Bool
  pub rx_enabled : Bool
  pub rtp_timeout : ℕ
  pub tmr_rtp : Bool
  pub ts_last : ℕ
  pub errorh : Bool

pub data StreamErr : Type 0 where
  ok eagain enotsup : StreamErr

-- `<` on two 32-bit words that the code has cast to `int`.
abbrev pub int_ltb : ℕ → ℕ → Bool
int_ltb a b = ltb ((a + 2 ^ 31) % 2 ^ 32) ((b + 2 ^ 31) % 2 ^ 32)

-- `mnat_ready` and the two conditions on it in `stream_is_ready`.
unfoldable pub mnat_ready : Stream → Bool
mnat_ready strm = if strm.mnat_wait then strm.mnat_connected else true

-- The setters of libre's media line.
abbrev set_media_ldir : Media → SdpDir → Media
set_media_ldir m dir = record m { ldir = dir }

-- `stream_hold`. Flushing the receiver changes none of these fields.
abbrev held_dir : SdpDir → SdpDir
held_dir recvonly = inactive
held_dir sendrecv = sendonly
held_dir inactive = inactive
held_dir sendonly = sendonly

unfoldable pub stream_hold : Stream → Bool → Stream
stream_hold s hold = record s {
  hold = hold;
  sdp = set_media_ldir s.sdp (if hold then held_dir s.ldir else s.ldir);
}

-- `stream_set_ldir`.
unfoldable pub stream_set_ldir : Stream → SdpDir → Stream
stream_set_ldir s dir = record s {
  ldir = dir;
  sdp = record s.sdp { disabled = is_inactive dir; ldir = dir };
}

-- `stream_enable_rtp_timeout`.
unfoldable pub stream_enable_rtp_timeout : Stream → ℕ → ℕ → Stream
stream_enable_rtp_timeout strm timeout_ms now =
    let has_codec : Bool = elim strm.sdp.rformat [ none ↦ false | some (pt, codec) ↦ codec ] in
    if not strm.sdp.has_media || strm.sdp.disabled || not has_codec then strm else record strm {
      rtp_timeout = timeout_ms;
      tmr_rtp = not (timeout_ms == 0);
      ts_last = if timeout_ms == 0 then strm.ts_last else now;
    }

module _ (sdp_media_dir : Media → SdpDir) where
  -- `stream_is_ready`.
  unfoldable pub stream_is_ready : Stream → Bool
  stream_is_ready strm =
      mnat_ready strm
      && (not strm.menc_wait || strm.menc_secure)
      && strm.raddr_isset
      && not (is_inactive (sdp_media_dir strm.sdp))
      && not strm.terminated

  -- `stream_enable_tx`.
  unfoldable pub stream_enable_tx : Stream → Bool → Stream × StreamErr
  stream_enable_tx strm enable =
      if not enable
      then (record strm { tx_enabled = false }, ok)
      else if not (stream_is_ready strm)
      then (strm, eagain)
      else if not (sends strm.sdp.rdir)
      then (strm, enotsup)
      else if dir_eq strm.sdp.ldir recvonly
      then (strm, enotsup)
      else if is_inactive strm.sdp.ldir
      then (strm, enotsup)
      else (record strm { tx_enabled = true }, ok)

  -- `stream_enable_rx`, less the thread of the receiver.
  unfoldable pub stream_enable_rx : Stream → Bool → Stream × StreamErr
  stream_enable_rx strm enable =
      if not enable
      then (record strm { rx_enabled = false }, ok)
      else if not (receives (sdp_media_dir strm.sdp))
      then (strm, enotsup)
      else (record strm { rx_enabled = true }, ok)

  -- `stream_enable`.
  unfoldable pub stream_enable : Stream → Bool → Stream
  stream_enable strm enable = (stream_enable_tx (stream_enable_rx strm enable).0 enable).0

  -- `stream_update`: what the media line says of the remote side, and how the start of the media
  -- encryption went where there is one, are arguments. Bundling is left out.
  unfoldable pub stream_update : Stream → Bool → Option ℕ → Stream × ℕ
  stream_update s raddr_isset start_menc =
      let stopped = stream_enable s false in
      let updated : Stream = record stopped {
        pt_enc = elim s.sdp.rformat [ none ↦ none | some (pt, codec) ↦ some pt ];
        raddr_isset = if s.sdp.has_media then raddr_isset else s.raddr_isset;
      } in
      let menc = if mnat_ready s then start_menc else none in
      let err : ℕ = elim menc [ none ↦ 0 | some err ↦ err ] in
      (if err == 0 then stream_enable updated true else updated, err)

  -- `stream_set_secure` of a stream that is no base of a bundle.
  unfoldable pub stream_set_secure : Stream → Bool → Stream
  stream_set_secure strm secure = (stream_enable_tx (record strm { menc_secure = secure }) true).0

  -- `stream_close`: the error handler is called at most once.
  unfoldable pub stream_close : Stream → Stream × Bool
  stream_close strm =
      let stopped = stream_enable (record strm { terminated = true }) false in
      (record stopped { errorh = false }, strm.errorh)

  -- `check_rtp_handler`: the timer is started again in any case. The answer says whether the error
  -- handler was called.
  unfoldable pub check_rtp_handler : Stream → ℕ → Stream × Bool
  check_rtp_handler strm now =
      let diff_ms = (now + 2 ^ 64 - strm.ts_last) % 2 ^ 32 in
      let strm : Stream = record strm { tmr_rtp = true } in
      if strm.ts_last == 0
      then (strm, false)
      else if not (dir_eq (sdp_media_dir strm.sdp) sendrecv)
      then (strm, false)
      else if int_ltb (3600 * 1000) diff_ms
      then (record strm { ts_last = 0 }, false)
      else if int_ltb strm.rtp_timeout diff_ms
      then stream_close strm
      else (strm, false)
