-- ===== src/Jbuf/Late.antt =====
-- src/jbuf.c: a packet behind the playout point. `seq_get` is 0 while nothing was played, and also
-- after the packet with the sequence number 0.
use baresip.Prelude.{
  ℕ, ◌≡◌, ◌≢◌, ◌∙◌, Bool, true, Option, some, List, [], ◌∷◌, arith, Bool-cases, add16, add32, inl,
  inr,
}
use baresip.Jbuf.State.{Packet, Header, Jbuf, Errno, etimedout}
use baresip.Jbuf.Clock.{call_next_play}
use baresip.Jbuf.Pool.{mem_ref, packet_deref, flush}
use baresip.Jbuf.Accept.{accept_cases}
use baresip.Jbuf.PutCases.{Way, unset, late, queued, put-Way}
use baresip.Jbuf.Put.{
  Place, between, duplicate, accept, put_unordered, enqueue, Reads, too_late, put_locked, on_ssrc,
  put, late_lost,
}
use baresip.Jbuf.Get.{play, get_from, get}
use baresip.Jbuf.Frame.{count_lost-SameCore}

-- What a successful `jbuf_get` leaves behind.
pub record Played (jb jb' : Jbuf) (hdr : Header) : Type 0 where
  pub seq_get : jb'.seq_get ≡ hdr.seq
  pub running : jb'.running ≡ jb.running
  pub srate : jb'.srate ≡ jb.srate
  pub ssrc : jb'.ssrc ≡ jb.ssrc

module _ (less : ℕ → ℕ → Bool) where
  play-Played :
      (jb : Jbuf) (f : Packet) (rest : List Packet) → Played jb (play less jb f rest) f.hdr
  unfolding play packet_deref
  play-Played jb f rest = ground (
    arith,
    count_lost-SameCore less (record jb { mem_calls = mem_ref f.mem jb.mem_calls }) f.hdr.seq,
  )

  get_from-Played :
      (jb : Jbuf) (l : List Packet) (next : ℕ) (hdr : Header) (mem : Option ℕ)
      → (get_from less jb l next).2 ≡ some (hdr, mem)
      → Played jb (get_from less jb l next).0 hdr
  unfolding get_from
  get_from-Played jb [] next hdr mem e = absurd (cc)
  get_from-Played jb (f ∷ rest) next hdr mem e = ground (arith, play-Played jb f rest)

  -- Once a packet with a sequence number other than 0 was played, each packet that is not behind it
  -- is refused with ETIMEDOUT and counted, and the buffered packets stay, as long as the stream and
  -- its clock rate are the same.
  pub get-put_late :
      (jb : Jbuf) (now : ℕ) (hdr : Header) (mem : Option ℕ)
      → (get less jb now).2 ≡ some (hdr, mem)
      → jb.running ≡ true
      → jb.srate ≢ 0
      → hdr.seq ≢ 0
      → (hdr' : Header) (mem' : Option ℕ) (t : Reads) → hdr'.ts_arrive ≢ 0
      → hdr'.ssrc ≡ jb.ssrc
      → less hdr'.seq (add16 hdr.seq 1) ≡ true
      → let jb' = (get less jb now).0 in
        put less jb' hdr' mem' t ≡ some (late_lost jb' hdr'.ssrc, etimedout)
  unfolding get put put_locked too_late on_ssrc
  get-put_late jb now hdr mem e on rate nonzero hdr' mem' t arrived same behind =
      let jb₀ = record jb { stat = record (jb.stat) { n_get = add32 jb.stat.n_get 1 } } in
      let p = get_from-Played jb₀ jb.packetl (call_next_play jb now) hdr mem e in ground (arith, p)

  on_ssrc_zero : (jb : Jbuf) (ssrc : ℕ) → jb.seq_get ≡ 0 → (on_ssrc jb ssrc).seq_get ≡ 0
  unfolding on_ssrc flush
  on_ssrc_zero jb ssrc e = ground arith

  accept-timely :
      (jb : Jbuf) (f : Packet) (before after : List Packet) (hdr : Header) (mem : Option ℕ)
      (t : Reads)
      → (accept jb f before after hdr mem t).1 ≢ etimedout
  accept-timely jb f before after hdr mem t = elim (accept_cases jb f before after hdr mem t) [
    | inl kept ↦ λ h. cc (kept.errno)
    | inr dropped ↦ λ h. cc (dropped.errno)
  ]

  put_unordered-timely :
      (jb : Jbuf) (f : Packet) (place : Place) (hdr : Header) (mem : Option ℕ) (t : Reads)
      → (put_unordered less jb f place hdr mem t).1 ≢ etimedout
  unfolding put_unordered
  put_unordered-timely jb f (between before after) hdr mem t =
      accept-timely _ f before after hdr mem t
  put_unordered-timely jb f duplicate hdr mem t = λ h. cc

  enqueue-timely :
      (jb : Jbuf) (f : Packet) (backward : List Packet) (hdr : Header) (mem : Option ℕ) (t : Reads)
      → (enqueue less jb f backward hdr mem t).1 ≢ etimedout
  unfolding enqueue
  enqueue-timely jb f [] hdr mem t = accept-timely jb f [] [] hdr mem t
  enqueue-timely jb f (last ∷ before) hdr mem t = elim (Bool-cases (less last.hdr.seq hdr.seq)) [
    | inl later ↦ rw later (accept-timely _ f (last ∷ before) [] hdr mem t)
    | inr sooner ↦ rw sooner (put_unordered-timely jb f _ hdr mem t)
  ]

  Way-timely :
      {jb : Jbuf} {hdr : Header} {mem : Option ℕ} {t : Reads} {r : Jbuf × Errno}
      → jb.seq_get ≡ 0
      → Way less jb hdr mem t r
      → r.1 ≢ etimedout
  unfolding too_late
  Way-timely z (unset _ e) = λ h. cc (e)
  Way-timely z (late is_late e) = absurd (ground arith)
  Way-timely {hdr = hdr} {mem = mem} {t = t} z (queued f jb' _ source e) =
      rw e (enqueue-timely jb' f _ hdr mem t)

  -- The packet with the sequence number 0 does not guard the playout point: after it was played, no
  -- packet is refused as too late, whatever its sequence number.
  pub get-put_zero :
      (jb : Jbuf) (now : ℕ) (hdr : Header) (mem : Option ℕ)
      → (get less jb now).2 ≡ some (hdr, mem)
      → hdr.seq ≡ 0
      → (hdr' : Header) (mem' : Option ℕ) (t : Reads) (r : Jbuf × Errno)
      → put less (get less jb now).0 hdr' mem' t ≡ some r
      → r.1 ≢ etimedout
  unfolding get
  get-put_zero jb now hdr mem e zero_seq hdr' mem' t r found =
      let jb₀ = record jb { stat = record (jb.stat) { n_get = add32 jb.stat.n_get 1 } } in
      let p = get_from-Played jb₀ jb.packetl (call_next_play jb now) hdr mem e in
      elim (put-Way less _ hdr' mem' t r found) [
        | inl refused ↦ λ h. cc (refused.1)
        | inr way ↦ Way-timely (on_ssrc_zero _ hdr'.ssrc (p.seq_get ∙ zero_seq)) way
      ]
