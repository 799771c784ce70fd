-- ===== src/Jbuf/Invariant.antt =====
-- src/jbuf.c: the pool and the packet list always make up the packets that were allocated.
use baresip.Prelude.{
  ℕ, suc, ◌+◌, ◌^◌, ◌<◌, ◌≡◌, refl, sym, inl, inr, Bool, subst, ap, ◌∙◌, Option, none, some, List,
  [], ◌∷◌, ◌==◌, arith, length, length-append, Bool-cases,
}
use baresip.Jbuf.State.{Packet, Header, Jbuf, Errno, einval, etimedout}
use baresip.Jbuf.Pool.{packet_alloc, take_free, steal_oldest, packet_deref, release_all, flush}
use baresip.Jbuf.Alloc.{packet_alloc_free, packet_alloc_full}
use baresip.Jbuf.Put.{
  Reads, splice, Place, between, duplicate, find_place, accept, put_unordered, enqueue, too_late,
  put_locked, late_lost, count_put, on_ssrc, put,
}
use baresip.Jbuf.Frame.{report_gap-SameCore}
use baresip.Jbuf.Splice.{length-splice, splice_back, Splits, find_place-Splits}
use baresip.Jbuf.Accept.{stored, accept_cases}

pub record IsValid (jb : Jbuf) : Type 0 where
  pub counted : jb.n ≡ length jb.packetl
  pub pooled : length jb.pooll + length jb.packetl ≡ jb.maxsz
  pub small : jb.maxsz < 2 ^ 32
  pub room : 0 < jb.maxsz
  pub shown : jb.stat.c_packets ≡ jb.n

-- The same while one packet is taken from the pool and stands in no list.
pub record IsClaimed (jb : Jbuf) : Type 0 where
  pub counted : jb.n ≡ suc (length jb.packetl)
  pub pooled : length jb.pooll + suc (length jb.packetl) ≡ jb.maxsz
  pub small : jb.maxsz < 2 ^ 32
  pub room : 0 < jb.maxsz
  pub shown : jb.stat.c_packets ≡ jb.n

pub packet_deref-IsValid :
    (jb : Jbuf) (rest : List Packet) (f : Packet)
    → IsClaimed (record jb { packetl = rest })
    → IsValid (packet_deref jb rest f)
unfolding packet_deref
packet_deref-IsValid jb rest f v =
    ground (arith, length-append jb.pooll (record f { mem = none } ∷ []))

take_free-IsClaimed :
    (jb : Jbuf) (f : Packet) (rest : List Packet)
    → IsValid jb
    → jb.pooll ≡ f ∷ rest
    → IsClaimed (take_free jb rest)
unfolding take_free
take_free-IsClaimed jb f rest v e = ground arith

steal_oldest-IsClaimed :
    (jb : Jbuf) (f0 : Packet) (rest : List Packet)
    → IsValid jb
    → jb.packetl ≡ f0 ∷ rest
    → IsClaimed (steal_oldest jb f0 rest)
unfolding steal_oldest
steal_oldest-IsClaimed jb f0 rest v e = ground arith

-- A valid buffer always has a packet for `packet_alloc`.
packet_alloc_total :
    (jb : Jbuf)
    → IsValid jb
    → (f : Packet) × (jb' : Jbuf) × (packet_alloc jb ≡ some (f, jb')) × IsClaimed jb'
packet_alloc_total jb v = go jb.pooll jb.packetl refl refl
  where
    go :
        (pool l : List Packet)
        → jb.pooll ≡ pool
        → jb.packetl ≡ l
        → (f : Packet) × (jb' : Jbuf) × (packet_alloc jb ≡ some (f, jb')) × IsClaimed jb'
    go (f ∷ rest) l e d =
        (f, take_free jb rest, packet_alloc_free jb f rest e, take_free-IsClaimed jb f rest v e)
    go [] (f0 ∷ rest) e d = (
      record f0 { mem = none },
      steal_oldest jb f0 rest,
      packet_alloc_full jb f0 rest e d,
      steal_oldest-IsClaimed jb f0 rest v d,
    )
    go [] [] e d = absurd (omega (arith, ap length e, ap length d, v.pooled, v.room))

accept-IsValid :
    (jb : Jbuf) (f : Packet) (before after : List Packet) (hdr : Header) (mem : Option ℕ)
    (t : Reads)
    → IsClaimed jb
    → splice before after ≡ jb.packetl
    → IsValid (accept jb f before after hdr mem t).0
accept-IsValid jb f before after hdr mem t v e =
    let g = stored jb f before hdr mem in
    ground (
      arith,
      accept_cases jb f before after hdr mem t,
      length-splice before after,
      length-splice before (g ∷ after),
      length-append jb.pooll (record g { mem = none } ∷ []),
    )

module _ (seq_less : ℕ → ℕ → Bool) where
  put_unordered-IsValid :
      (jb : Jbuf) (f : Packet) (place : Place) (hdr : Header) (mem : Option ℕ) (t : Reads)
      → IsClaimed jb
      → Splits jb.packetl place
      → IsValid (put_unordered seq_less jb f place hdr mem t).0
  unfolding put_unordered
  put_unordered-IsValid jb f (between before after) hdr mem t v e =
      accept-IsValid _ f before after hdr mem t (ground arith) e
  put_unordered-IsValid jb f duplicate hdr mem t v e =
      packet_deref-IsValid _ jb.packetl f (ground arith)

  enqueue-IsValid :
      (jb : Jbuf) (f : Packet) (backward : List Packet) (hdr : Header) (mem : Option ℕ) (t : Reads)
      → IsClaimed jb
      → splice backward [] ≡ jb.packetl
      → IsValid (enqueue seq_less jb f backward hdr mem t).0
  unfolding enqueue
  enqueue-IsValid jb f [] hdr mem t v e = accept-IsValid jb f [] [] hdr mem t v e
  enqueue-IsValid jb f (tail ∷ before) hdr mem t v e =
      let same = report_gap-SameCore jb tail.hdr.seq hdr.seq in
      elim (Bool-cases (seq_less tail.hdr.seq hdr.seq)) [
        | inl later ↦
            rw later (
              accept-IsValid _ f (tail ∷ before) [] hdr mem t (ground arith) (e ∙ sym same.packetl))
        | inr sooner ↦ rw sooner (
            put_unordered-IsValid jb f _ hdr mem t v (
              subst (λ l. Splits l (find_place seq_less hdr.seq (tail ∷ before) [])) e
                (find_place-Splits seq_less hdr.seq (tail ∷ before) [])))
      ]

  put_locked-IsValid :
      (jb : Jbuf) (hdr : Header) (mem : Option ℕ) (t : Reads)
      → IsValid jb
      → (r : Jbuf × Errno) × (put_locked seq_less jb hdr mem t ≡ some r) × IsValid r.0
  unfolding put_locked
  put_locked-IsValid jb hdr mem t v = elim (Bool-cases (jb.srate == 0)) [
    | inl unset ↦ ((jb, einval), rw unset, v)
    | inr set ↦ elim (Bool-cases (too_late seq_less jb hdr.seq)) [
      | inl late ↦ ((late_lost jb hdr.ssrc, etimedout), rw (set, late), ground arith)
      | inr fresh ↦
          let (f, jb', e, claimed) = packet_alloc_total (count_put jb hdr.ssrc) (ground arith) in
          (
            enqueue seq_less jb' f (splice jb'.packetl []) hdr mem t,
            rw (set, fresh) (rw e),
            enqueue-IsValid jb' f _ hdr mem t claimed (splice_back jb'.packetl),
          )
    ]
  ]

pub release_all-packetl :
    (jb : Jbuf) (l : List Packet) → jb.packetl ≡ l → (release_all jb l).packetl ≡ []
unfolding release_all packet_deref
release_all-packetl jb [] e = e
release_all-packetl jb (f ∷ rest) e = release_all-packetl (packet_deref jb rest f) rest refl

length-release_all :
    (jb : Jbuf) (l : List Packet)
    → (length (release_all jb l).pooll ≡ length jb.pooll + length l)
      × ((release_all jb l).maxsz ≡ jb.maxsz)
unfolding release_all packet_deref
length-release_all jb [] = (omega arith, refl)
length-release_all jb (f ∷ rest) =
    let ih = length-release_all (packet_deref jb rest f) rest in
    (omega (arith, ih.0, length-append jb.pooll (record f { mem = none } ∷ [])), ih.1)

-- `jbuf_flush` gives every packet back to the pool.
pub flush-IsValid : (jb : Jbuf) → IsValid jb → IsValid (flush jb)
unfolding flush
flush-IsValid jb v =
    ground (arith, release_all-packetl jb jb.packetl refl, length-release_all jb jb.packetl)

on_ssrc-IsValid : (jb : Jbuf) (ssrc : ℕ) → IsValid jb → IsValid (on_ssrc jb ssrc)
unfolding on_ssrc
on_ssrc-IsValid jb ssrc v = ground (arith, flush-IsValid jb)

module _ (seq_less : ℕ → ℕ → Bool) where
  -- On a valid buffer `jbuf_put` never reads through NULL, and on all of its
  -- branches the pool and the packet list still make up the allocated packets, which `n` and
  -- `c_packets` count.
  pub put-IsValid :
      (jb : Jbuf) (hdr : Header) (mem : Option ℕ) (t : Reads)
      → IsValid jb
      → (r : Jbuf × Errno) × (put seq_less jb hdr mem t ≡ some r) × IsValid r.0
  unfolding put
  put-IsValid jb hdr mem t v = elim (Bool-cases (hdr.ts_arrive == 0)) [
    | inl unset ↦ ((jb, einval), rw unset, v)
    | inr set ↦ rw set (
        put_locked-IsValid seq_less (on_ssrc jb hdr.ssrc) hdr mem t (on_ssrc-IsValid jb hdr.ssrc v))
  ]
