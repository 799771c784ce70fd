-- ===== src/Stream/Timeout.antt =====
-- src/stream.c: the RTP timeout.
use baresip.Prelude.{
  ℕ, ◌≡◌, ◌≢◌, refl, ◌<◌, ◌≤◌, ◌+◌, ◌-◌, ◌^◌, ◌%◌, true, false, ◌&&◌, not, arith, List, [], ◌∷◌,
  suc, ltb, if◌then◌else◌, Bool-cases, inl, inr,
}
use baresip.Stream.{
  SdpDir, sendrecv, dir_eq, Media, Stream, int_ltb, stream_enable, stream_enable_tx,
  stream_enable_rx, stream_close, check_rtp_handler,
}

-- The timer fires at each of the times; how often was the error handler called?
unfoldable pub ticks : (Media → SdpDir) → Stream → List ℕ → Stream × ℕ
ticks dir strm [] = (strm, 0)
ticks dir strm (now ∷ nows) =
    let (strm', called) = check_rtp_handler dir strm now in
    let (last, n) = ticks dir strm' nows in (last, if called then suc n else n)

module _ (sdp_media_dir : Media → SdpDir) where
  enable_false_errorh : (s : Stream) → (stream_enable sdp_media_dir s false).errorh ≡ s.errorh
  unfolding stream_enable stream_enable_tx stream_enable_rx
  enable_false_errorh s = ground arith

  check_errorh :
      (s : Stream) (now : ℕ)
      → let (s', called) = check_rtp_handler sdp_media_dir s now in
        (called ≡ true → (s.errorh ≡ true) × (s'.errorh ≡ false))
        × (s.errorh ≡ false → s'.errorh ≡ false)
  unfolding check_rtp_handler stream_close
  check_errorh s now = ground arith

  closed_ticks :
      (s : Stream) (nows : List ℕ) → s.errorh ≡ false → (ticks sdp_media_dir s nows).1 ≡ 0
  unfolding ticks
  closed_ticks s [] e = refl
  closed_ticks s (now ∷ nows) e =
      let s' = (check_rtp_handler sdp_media_dir s now).0 in
      let (quiet, stays) = check_errorh s now in
      ground (arith, quiet, closed_ticks s' nows (stays e))

  -- However often the timer fires and at whatever times, the error handler of a stream is called at
  -- most once.
  pub ticks-once : (s : Stream) (nows : List ℕ) → (ticks sdp_media_dir s nows).1 ≤ 1
  unfolding ticks
  ticks-once s [] = omega arith
  ticks-once s (now ∷ nows) =
      let s' = (check_rtp_handler sdp_media_dir s now).0 in
      elim (Bool-cases ((check_rtp_handler sdp_media_dir s now).1)) [
        | inl called ↦
            let closed = closed_ticks s' nows ((check_errorh s now).0 called).1 in
            ground (arith, called, closed)
        | inr silent ↦ ground (arith, silent, ticks-once s' nows)
      ]

  close_stops :
      (s : Stream)
      → let s' = (stream_close sdp_media_dir s).0 in
        (s'.tx_enabled ≡ false) × (s'.rx_enabled ≡ false)
  unfolding stream_close stream_enable stream_enable_tx stream_enable_rx
  close_stops s = ground arith

  -- `int_ltb` compares as on numbers below 2^31.
  int_ltb_small : (a b : ℕ) → a < 2 ^ 31 → b < 2 ^ 31 → int_ltb a b ≡ ltb a b
  int_ltb_small a b ha hb = ground arith

  elapsed :
      (now last : ℕ)
      → last ≤ now
      → now < last + 2 ^ 31
      → (now + 2 ^ 64 - last) % 2 ^ 32 ≡ now - last
  elapsed now last h h' = omega arith

  -- In the 24 days after the last packet, the error handler is called at a tick exactly if it was
  -- not called before, the stream sends and receives, and the time since the packet is longer than
  -- the timeout but at most an hour; the timeout is less than 2^31 ms.
  pub check_rtp_handler-called :
      (s : Stream) (now : ℕ)
      → s.ts_last ≢ 0
      → s.ts_last ≤ now
      → now < s.ts_last + 2 ^ 31
      → s.rtp_timeout < 2 ^ 31
      → (check_rtp_handler sdp_media_dir s now).1 ≡ (
          s.errorh
          && dir_eq (sdp_media_dir s.sdp) sendrecv
          && ltb s.rtp_timeout (now - s.ts_last)
          && not (ltb 3600000 (now - s.ts_last)))
  unfolding check_rtp_handler stream_close
  check_rtp_handler-called s now seen h h' small =
      let same = elapsed now s.ts_last h h' in
      let hour = int_ltb_small 3600000 (now - s.ts_last) (omega arith) (omega (arith, h')) in
      let over = int_ltb_small s.rtp_timeout (now - s.ts_last) small (omega (arith, h')) in
      rw (same, hour, over) ground (arith, seen)
