-- ===== src/Jbuf/Contents.antt =====
-- src/jbuf.c: which packets are buffered after a call of `jbuf_put`, for each of its results.
use mathlib.Core.List.{Perm}
use mathlib.Core.List.Perm
use baresip.Prelude.{
  ℕ, ◌≡◌, ◌≢◌, refl, ◌∙◌, Bool, Option, some, List, [], ◌∷◌, inl, inr, Bool-cases, subst,
}
use baresip.Jbuf.State.{Packet, Header, Jbuf, Errno, success, einval, ealready, etimedout, etime}
use baresip.Jbuf.Pool.{take_free, steal_oldest, packet_deref}
use baresip.Jbuf.Alloc.{Source, free, oldest}
use baresip.Jbuf.Put.{
  Reads, splice, Place, between, duplicate, find_place, report_gap, put_unordered, enqueue, on_ssrc,
  put, count_put, accept,
}
use baresip.Jbuf.Splice.{splice_back, Splits, find_place-Splits}
use baresip.Jbuf.Accept.{stored, accept_cases}
use baresip.Jbuf.PutCases.{Way, unset, late, queued, put-Way}

abbrev pub tail : List Packet → List Packet
tail [] = []
tail (f ∷ fs) = fs

-- The packets that stay when one is allocated: with an empty pool the oldest one is dropped.
unfoldable pub survivors : Jbuf → List Packet
survivors jb = elim jb.pooll [ [] ↦ tail jb.packetl | f ∷ fs ↦ jb.packetl ]

splice-perm :
    (before : List Packet) {xs ys : List Packet}
    → Perm xs ys
    → Perm (splice before xs) (splice before ys)
unfolding splice
splice-perm [] p = p
splice-perm (b ∷ before) p = splice-perm before (Perm.cons b p)

splice-middle :
    (before : List Packet) (g : Packet) (after : List Packet)
    → Perm (splice before (g ∷ after)) (g ∷ splice before after)
unfolding splice
splice-middle [] g after = Perm.refl _
splice-middle (b ∷ before) g after =
    Perm.trans (splice-perm before (Perm.swap g b after)) (splice-middle before g (b ∷ after))

-- The packet with this header and payload joined the packets of `base`.
abbrev Stored : List Packet → Header → Option ℕ → List Packet → Type 0
Stored base hdr mem l = (g : Packet) × (g.hdr ≡ hdr) × (g.mem ≡ mem) × Perm l (g ∷ base)

-- What each result means for the buffered packets; `before` are those at the call, `base` those
-- that outlive an allocation.
abbrev Means : List Packet → List Packet → Header → Option ℕ → Errno → List Packet → Type 0
Means before base hdr mem success l = Stored base hdr mem l
Means before base hdr mem ealready l = l ≡ base
Means before base hdr mem etime l = l ≡ base
Means before base hdr mem einval l = l ≡ before
Means before base hdr mem etimedout l = l ≡ before
Means before base hdr mem _ l = ⊥

Source-survivors :
    (jb : Jbuf) (f : Packet) (jb' : Jbuf) → Source jb f jb' → jb'.packetl ≡ survivors jb
unfolding survivors take_free steal_oldest
Source-survivors jb f jb' (free rest e d) = rw (d, e)
Source-survivors jb f jb' (oldest f0 rest e l p d) = rw (d, e, l)

module _ (before base : List Packet) (hdr : Header) (mem : Option ℕ) (t : Reads) where
  accept-Means :
      (jb : Jbuf) (f : Packet) (front back : List Packet)
      → splice front back ≡ base
      → let r = accept jb f front back hdr mem t in Means before base hdr mem r.1 r.0.packetl
  unfolding stored
  accept-Means jb f front back e =
      let g = stored jb f front hdr mem in
      elim (accept_cases jb f front back hdr mem t) [
        | inl kept ↦
            rw (kept.errno, kept.packetl)
              (
                g,
                refl,
                refl,
                subst (λ l. Perm (splice front (g ∷ back)) (g ∷ l)) e (splice-middle front g back),
              )
        | inr dropped ↦ rw (dropped.errno, dropped.packetl) e
      ]

  module _ (less : ℕ → ℕ → Bool) where
    put_unordered-Means :
        (jb : Jbuf) (f : Packet) (place : Place)
        → jb.packetl ≡ base
        → Splits base place
        → let r = put_unordered less jb f place hdr mem t in
          Means before base hdr mem r.1 r.0.packetl
    unfolding put_unordered packet_deref
    put_unordered-Means jb f (between front back) d e = accept-Means _ f front back e
    put_unordered-Means jb f duplicate d e = d

    enqueue-Means :
        (jb : Jbuf) (f : Packet) (backward : List Packet)
        → jb.packetl ≡ base
        → splice backward [] ≡ base
        → let r = enqueue less jb f backward hdr mem t in Means before base hdr mem r.1 r.0.packetl
    unfolding enqueue
    enqueue-Means jb f [] d e = accept-Means jb f [] [] e
    enqueue-Means jb f (last ∷ front) d e = elim (Bool-cases (less last.hdr.seq hdr.seq)) [
      | inl later ↦
          rw later (accept-Means (report_gap jb last.hdr.seq hdr.seq) f (last ∷ front) [] e)
      | inr sooner ↦ rw sooner (
          put_unordered-Means jb f _ d (
            subst (λ l. Splits l (find_place less hdr.seq (last ∷ front) [])) e
              (find_place-Splits less hdr.seq (last ∷ front) [])))
    ]

module _ (less : ℕ → ℕ → Bool) where
  Way-Means :
      {jb : Jbuf} {hdr : Header} {mem : Option ℕ} {t : Reads} {r : Jbuf × Errno}
      → Way less jb hdr mem t r
      → Means jb.packetl (survivors jb) hdr mem r.1 r.0.packetl
  unfolding survivors
  Way-Means (unset _ e) = rw e refl
  Way-Means (late _ e) = rw e refl
  Way-Means {jb = jb} {hdr = hdr} {mem = mem} {t = t} (queued f jb' _ source e) =
      let left = Source-survivors (count_put jb hdr.ssrc) f jb' source in
      rw e (
        enqueue-Means jb.packetl (survivors jb) hdr mem t less jb' f _ left
          (splice_back jb'.packetl ∙ left))

  -- What a call of `jbuf_put` for a packet with an arrival time does to the buffered packets, by
  -- its result, where it does not fault. 0: the new packet joins those that survive the allocation,
  -- in some order. EALREADY and ETIME: the survivors only. ETIMEDOUT, and EINVAL without a clock
  -- rate: all packets stay. A new SSRC flushes the buffer first. No other result occurs.
  pub put-Means :
      (jb : Jbuf) (hdr : Header) (mem : Option ℕ) (t : Reads) (r : Jbuf × Errno)
      → hdr.ts_arrive ≢ 0
      → put less jb hdr mem t ≡ some r
      → let start = on_ssrc jb hdr.ssrc in
        Means start.packetl (survivors start) hdr mem r.1 r.0.packetl
  put-Means jb hdr mem t r h e = elim (put-Way less jb hdr mem t r e) [
    | inl refused ↦ absurd (h refused.0)
    | inr way ↦ Way-Means way
  ]
