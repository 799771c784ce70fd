-- ===== src/Jbuf/PutCases.antt =====
-- src/jbuf.c: the ways through `jbuf_put`, for proofs about all of them.
use baresip.Prelude.{
  ℕ, ◌≡◌, ◌⊎◌, Bool, true, false, Option, some, [], arith, ◌==◌, Bool-cases, Option-cases, inl, inr,
}
use baresip.Jbuf.State.{Packet, Header, Jbuf, Errno, einval, etimedout}
use baresip.Jbuf.Pool.{packet_alloc}
use baresip.Jbuf.Alloc.{Source, packet_alloc-Source}
use baresip.Jbuf.Put.{
  Reads, splice, enqueue, too_late, put_locked, on_ssrc, put, count_put, late_lost,
}

module _ (less : ℕ → ℕ → Bool) (jb : Jbuf) (hdr : Header) (mem : Option ℕ) (t : Reads) where
  -- The way that a call behind the lock took.
  pub data Way (r : Jbuf × Errno) : Type 0 where
    unset : jb.srate ≡ 0 → r ≡ (jb, einval) → Way r
    late : too_late less jb hdr.seq ≡ true → r ≡ (late_lost jb hdr.ssrc, etimedout) → Way r
    queued :
        (f : Packet) (jb' : Jbuf)
        → too_late less jb hdr.seq ≡ false
        → Source (count_put jb hdr.ssrc) f jb'
        → r ≡ enqueue less jb' f (splice jb'.packetl []) hdr mem t
        → Way r

  pub put_locked-Way : (r : Jbuf × Errno) → put_locked less jb hdr mem t ≡ some r → Way r
  unfolding put_locked
  put_locked-Way r e = elim (Bool-cases (jb.srate == 0)) [
    | inl set ↦ unset (ground arith) (ground arith)
    | inr set ↦ elim (Bool-cases (too_late less jb hdr.seq)) [
      | inl is_late ↦ late is_late (ground arith)
      | inr fresh ↦ elim (Option-cases (packet_alloc (count_put jb hdr.ssrc))) [
        | inl fault ↦ absurd (ground arith)
        | inr ((f, jb'), found) ↦
            queued f jb' fresh (packet_alloc-Source _ f jb' found) (ground arith)
      ]
    ]
  ]

-- `jbuf_put` as a whole: a call that is refused at once, or one that goes on behind the lock.
pub put-Way :
    (less : ℕ → ℕ → Bool) (jb : Jbuf) (hdr : Header) (mem : Option ℕ) (t : Reads) (r : Jbuf × Errno)
    → put less jb hdr mem t ≡ some r
    → ((hdr.ts_arrive ≡ 0) × (r ≡ (jb, einval))) ⊎ Way less (on_ssrc jb hdr.ssrc) hdr mem t r
unfolding put
put-Way less jb hdr mem t r e = elim (Bool-cases (hdr.ts_arrive == 0)) [
  | inl refused ↦ inl (ground arith, ground arith)
  | inr set ↦ inr (put_locked-Way less (on_ssrc jb hdr.ssrc) hdr mem t r (rw set at e))
]
