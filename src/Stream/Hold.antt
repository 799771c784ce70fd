-- ===== src/Stream/Hold.antt =====
-- src/stream.c: which halves of a stream run after an update.
use baresip.Prelude.{ℕ, ◌≡◌, refl, Bool, ◌&&◌, not, Option, arith, ◌==◌}
use baresip.Stream.{
  SdpDir, inactive, recvonly, sendonly, sendrecv, receives, sends, is_inactive, dir_eq, Media,
  Stream, mnat_ready, stream_is_ready, stream_enable_tx, stream_enable_rx, stream_enable,
  stream_update,
}

-- The receiver does not matter to the sender.
sending_dir : (dir : SdpDir) → (not (dir_eq dir recvonly) && not (is_inactive dir)) ≡ sends dir
sending_dir inactive = refl
sending_dir recvonly = refl
sending_dir sendonly = refl
sending_dir sendrecv = refl

module _ (sdp_media_dir : Media → SdpDir) where
  -- An update of a stream does not touch its media line.
  pub stream_update_sdp :
      (s : Stream) (raddr : Bool) (start : Option ℕ)
      → (stream_update sdp_media_dir s raddr start).0.sdp ≡ s.sdp
  unfolding stream_update stream_enable stream_enable_tx stream_enable_rx
  stream_update_sdp s raddr start = ground arith

  -- After an update without an error of the media encryption, a stream receives exactly if the
  -- common direction says so, and sends exactly if the stream is ready, the other side receives and
  -- the local direction is to send. After an error it does neither.
  pub stream_update-enabled :
      (s : Stream) (raddr : Bool) (start : Option ℕ)
      → let (s', err) = stream_update sdp_media_dir s raddr start in
        (s'.rx_enabled ≡ ((err == 0) && receives (sdp_media_dir s.sdp)))
        × (s'.tx_enabled ≡ (
            (err == 0) && stream_is_ready sdp_media_dir s' && sends s.sdp.rdir && sends s.sdp.ldir))
  unfolding stream_update stream_enable stream_enable_tx stream_enable_rx stream_is_ready mnat_ready
  stream_update-enabled s raddr start = ground (arith, sending_dir s.sdp.ldir)
