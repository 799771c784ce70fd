-- ===== src/Stream/Tests.antt =====
-- src/stream.c: runs on concrete streams.
use baresip.Prelude.{◌≡◌, refl, true, false, ◌&&◌, not, none, some, arith, ltb, ◌-◌, ◌==◌}
use baresip.Stream.{
  SdpDir, sendrecv, sends, receives, dir_and, dir_eq, Media, Stream, stream_update, stream_is_ready,
  check_rtp_handler, mnat_ready, stream_enable, stream_enable_tx, stream_enable_rx,
}
use baresip.Stream.Hold.{stream_update-enabled}
use baresip.Stream.Timeout.{check_rtp_handler-called}

abbrev common : Media → SdpDir
common m = dir_and m.ldir m.rdir

abbrev audio_line : Media
audio_line = record {
  ldir = sendrecv;
  rdir = sendrecv;
  disabled = false;
  has_media = true;
  rformat = some (8, true);
}

abbrev audio : Stream
audio = record {
  ldir = sendrecv;
  sdp = audio_line;
  hold = false;
  terminated = false;
  mnat_wait = false;
  mnat_connected = false;
  menc_wait = false;
  menc_secure = false;
  raddr_isset = true;
  pt_enc = none;
  tx_enabled = false;
  rx_enabled = false;
  rtp_timeout = 5000;
  tmr_rtp = true;
  ts_last = 1000;
  errorh = true;
}

update_run : (stream_update common audio true none).0.tx_enabled ≡ true
unfolding stream_update stream_enable stream_enable_tx stream_enable_rx stream_is_ready mnat_ready
update_run = refl

stream_update-enabled_example :
    let (s', err) = stream_update common audio true none in
    (s'.rx_enabled ≡ ((err == 0) && receives (common audio.sdp)))
    × (s'.tx_enabled
        ≡ ((err == 0) && stream_is_ready common s' && sends audio.sdp.rdir && sends audio.sdp.ldir))
stream_update-enabled_example = stream_update-enabled common audio true none

check_rtp_handler-called_example : (check_rtp_handler common audio 7000).1 ≡ (
    true
    && dir_eq (common audio.sdp) sendrecv
    && ltb 5000 (7000 - 1000)
    && not (ltb 3600000 (7000 - 1000)))
check_rtp_handler-called_example =
    check_rtp_handler-called common audio 7000 (λ e. absurd (omega (arith, e))) (omega arith)
      (omega arith) (omega arith)
