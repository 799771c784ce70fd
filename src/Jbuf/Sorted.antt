-- ===== src/Jbuf/Sorted.antt =====
-- src/jbuf.c: every call keeps the packet list in the order of the sequence numbers.
use mathlib.Core.Option.{some-injective}
use baresip.Prelude.{
  ltb, ℕ, not, ◌&&◌, ◌^◌, ◌<◌, ◌≡◌, refl, sym, subst, Bool, Option, some, List, [], ◌∷◌, ◌==◌,
  Bool-cases, inl, inr,
}
use baresip.Jbuf.State.{Packet, Header, Jbuf, Errno}
use baresip.Jbuf.Pool.{
  take_free, steal_oldest, packet_deref, flush, set_srate, set_type, set_gnack, set_next_play_h,
}
use baresip.Jbuf.Alloc.{Source, free, oldest}
use baresip.Jbuf.Put.{
  Reads, splice, Place, between, duplicate, find_place, accept, put_unordered, enqueue, on_ssrc,
  put,
}
use baresip.Jbuf.PutCases.{Way, unset, late, queued, put-Way}
use baresip.Jbuf.Get.{Output, play, get_from, get, drain_from, drain}
use baresip.Jbuf.Run.{
  Call, puts, gets, drains, flushes, sets_srate, sets_type, sets_gnack, sets_next_play, step, run,
  step_puts, run_cons,
}
use baresip.Jbuf.Splice.{splice_back, Splits, find_place-Splits}
use baresip.Jbuf.Accept.{stored, accept_cases}
use baresip.Jbuf.Invariant.{release_all-packetl}
use baresip.Jbuf.Ordered.{
  SeqOrder, Precedes, Ordered, Joins, Fits, splice-Ordered, splice-Ordered_inv, find_place-Fits,
}

module _ (less : ℕ → ℕ → Bool) where
  Precedes-Joins :
      (before after : List Packet) (f : Packet)
      → Precedes less before f.hdr.seq
      → Joins less before (f ∷ after)
  Precedes-Joins [] after f p = tt
  Precedes-Joins (b ∷ before) after f p = p

  -- A packet goes in at a place that fits, or the list stays as it was.
  accept-Ordered :
      (jb : Jbuf) (f : Packet) (before after : List Packet) (hdr : Header) (mem : Option ℕ)
      (t : Reads)
      → hdr.seq < 2 ^ 16
      → Ordered less (splice before after)
      → Fits less hdr.seq (between before after)
      → Ordered less (accept jb f before after hdr mem t).0.packetl
  unfolding stored
  accept-Ordered jb f before after hdr mem t h o fits =
      elim (accept_cases jb f before after hdr mem t) [
        | inl kept ↦
            let (b, j, a) = splice-Ordered_inv less before after o in
            rw kept.packetl (
              splice-Ordered less before (stored jb f before hdr mem ∷ after) b
                (Precedes-Joins before after _ fits.0) (h, fits.1, a))
        | inr dropped ↦ rw dropped.packetl o
      ]

  Ordered-tail : (f : Packet) (fs : List Packet) → Ordered less (f ∷ fs) → Ordered less fs
  Ordered-tail f fs o = o.2

  packet_alloc-Ordered :
      (jb : Jbuf) {f : Packet} {jb' : Jbuf}
      → Ordered less jb.packetl
      → Source jb f jb'
      → Ordered less jb'.packetl
  unfolding take_free steal_oldest
  packet_alloc-Ordered jb o (free rest e d) = rw d o
  packet_alloc-Ordered jb o (oldest f0 rest e l d k) = rw k (Ordered-tail f0 rest (rw l at o))

  flush-Ordered : (jb : Jbuf) → Ordered less (flush jb).packetl
  unfolding flush
  flush-Ordered jb = rw (release_all-packetl jb jb.packetl refl) tt

  on_ssrc-Ordered :
      (jb : Jbuf) (ssrc : ℕ) → Ordered less jb.packetl → Ordered less (on_ssrc jb ssrc).packetl
  unfolding on_ssrc
  on_ssrc-Ordered jb ssrc o = elim (Bool-cases (not (jb.ssrc == 0) && not (jb.ssrc == ssrc))) [
    | inl new ↦ rw new (flush-Ordered jb)
    | inr same ↦ rw same o
  ]

  module _ (law : SeqOrder less) where
    put_unordered-Ordered :
        (jb : Jbuf) (f : Packet) (place : Place) (hdr : Header) (mem : Option ℕ) (t : Reads)
        → hdr.seq < 2 ^ 16
        → Ordered less jb.packetl
        → Splits jb.packetl place
        → Fits less hdr.seq place
        → Ordered less (put_unordered less jb f place hdr mem t).0.packetl
    unfolding put_unordered packet_deref
    put_unordered-Ordered jb f (between before after) hdr mem t h o e fits =
        accept-Ordered _ f before after hdr mem t h (rw e o) fits
    put_unordered-Ordered jb f duplicate hdr mem t h o e fits = o

    enqueue-Ordered :
        (jb : Jbuf) (f : Packet) (backward : List Packet) (hdr : Header) (mem : Option ℕ)
        (t : Reads)
        → hdr.seq < 2 ^ 16
        → Ordered less jb.packetl
        → splice backward [] ≡ jb.packetl
        → Ordered less (enqueue less jb f backward hdr mem t).0.packetl
    unfolding enqueue splice
    enqueue-Ordered jb f [] hdr mem t h o e = accept-Ordered jb f [] [] hdr mem t h tt (tt, tt)
    enqueue-Ordered jb f (tail ∷ before) hdr mem t h o e =
        let o' = subst (Ordered less) (sym e) o in
        elim (Bool-cases (less tail.hdr.seq hdr.seq)) [
          | inl later ↦ rw later (accept-Ordered _ f (tail ∷ before) [] hdr mem t h o' (later, tt))
          | inr sooner ↦ rw sooner (
              put_unordered-Ordered jb f _ hdr mem t h o
                (subst (λ l. Splits l (find_place less hdr.seq (tail ∷ before) [])) e
                  (find_place-Splits less hdr.seq (tail ∷ before) []))
                (find_place-Fits less law hdr.seq (tail ∷ before) [] h
                  (splice-Ordered_inv less (tail ∷ before) [] o').0 tt))
        ]

    Way-Ordered :
        {jb : Jbuf} {hdr : Header} {mem : Option ℕ} {t : Reads} {r : Jbuf × Errno}
        → hdr.seq < 2 ^ 16
        → Ordered less jb.packetl
        → Way less jb hdr mem t r
        → Ordered less r.0.packetl
    Way-Ordered h o (unset _ e) = rw e o
    Way-Ordered h o (late _ e) = rw e o
    Way-Ordered {hdr = hdr} {mem = mem} {t = t} h o (queued f jb' _ source e) = rw e (
        enqueue-Ordered jb' f _ hdr mem t h (packet_alloc-Ordered _ o source)
          (splice_back jb'.packetl))

    -- `jbuf_put` keeps the packets in the order of their sequence numbers, wherever the new packet
    -- goes, whatever the buffer drops for it, and on every way out.
    pub put-Ordered :
        (jb : Jbuf) (hdr : Header) (mem : Option ℕ) (t : Reads) {r : Jbuf × Errno}
        → hdr.seq < 2 ^ 16
        → Ordered less jb.packetl
        → put less jb hdr mem t ≡ some r
        → Ordered less r.0.packetl
    put-Ordered jb hdr mem t h o e = elim (put-Way less jb hdr mem t _ e) [
      | inl refused ↦ rw refused.1 o
      | inr way ↦ Way-Ordered h (on_ssrc-Ordered jb hdr.ssrc o) way
    ]

  abbrev Sorted : Jbuf → Type 0
  Sorted jb = Ordered less jb.packetl

  play-Ordered :
      (jb : Jbuf) (f : Packet) (rest : List Packet)
      → Ordered less (f ∷ rest)
      → Sorted (play less jb f rest)
  unfolding play packet_deref
  play-Ordered jb f rest o = o.2

  get_from-Ordered :
      (jb : Jbuf) (l : List Packet) (next : ℕ)
      → Ordered less l
      → jb.packetl ≡ l
      → Sorted (get_from less jb l next).0
  unfolding get_from
  get_from-Ordered jb [] next o e = rw e tt
  get_from-Ordered jb (f ∷ rest) next o e = elim (Bool-cases (ltb next f.playout_time)) [
    | inl wait ↦ rw (wait, get_from) (rw e o)
    | inr due ↦ rw (due, get_from) (play-Ordered jb f rest o)
  ]

  drain_from-Ordered :
      (jb : Jbuf) (l : List Packet) → Ordered less l → jb.packetl ≡ l → Sorted (drain_from jb l).0
  unfolding drain_from packet_deref
  drain_from-Ordered jb [] o e = rw e tt
  drain_from-Ordered jb (f ∷ rest) o e = elim (Bool-cases (jb.n == 0)) [
    | inl empty ↦ rw (empty, drain_from) (rw e o)
    | inr more ↦ rw (more, drain_from) o.2
  ]

  -- The calls carry 16-bit sequence numbers.
  abbrev pub InRange : List Call → Type 0
  InRange [] = Unit
  InRange (puts hdr mem t ∷ cs) = (hdr.seq < 2 ^ 16) × InRange cs
  InRange (c ∷ cs) = InRange cs

  module _ (law : SeqOrder less) where
    step-Ordered :
        (jb : Jbuf) (c : Call) {s : Jbuf × Output}
        → InRange (c ∷ [])
        → Sorted jb
        → step less jb c ≡ some s
        → Sorted s.0
    unfolding step get drain set_srate set_type set_gnack set_next_play_h
    step-Ordered jb (puts hdr mem t) {s = s} h o e =
        let (q, found, out) = step_puts less jb hdr mem t s e in
        rw out (put-Ordered law jb hdr mem t h.0 o found)
    step-Ordered jb (gets now) h o e =
        subst (λ s. Sorted s.0) (some-injective _ _ e) (get_from-Ordered _ jb.packetl _ o refl)
    step-Ordered jb drains h o e =
        subst (λ s. Sorted s.0) (some-injective _ _ e) (drain_from-Ordered jb jb.packetl o refl)
    step-Ordered jb flushes h o e =
        subst (λ s. Sorted s.0) (some-injective _ _ e) (flush-Ordered jb)
    step-Ordered jb (sets_srate srate) h o e = subst (λ s. Sorted s.0) (some-injective _ _ e) o
    step-Ordered jb (sets_type jbtype) h o e = subst (λ s. Sorted s.0) (some-injective _ _ e) o
    step-Ordered jb (sets_gnack rtp) h o e = subst (λ s. Sorted s.0) (some-injective _ _ e) o
    step-Ordered jb (sets_next_play f) h o e = subst (λ s. Sorted s.0) (some-injective _ _ e) o

    InRange-cons : (c : Call) (cs : List Call) → InRange (c ∷ cs) → InRange (c ∷ []) × InRange cs
    InRange-cons (puts hdr mem t) cs h = ((h.0, tt), h.1)
    InRange-cons _ cs h = (tt, h)

    -- Where of two different sequence numbers one comes before the other: a sequence of calls with
    -- 16-bit sequence numbers that does not fault leaves the buffered packets in the order of their
    -- sequence numbers, if they stood in it before.
    pub run-Ordered :
        (jb : Jbuf) (cs : List Call) {r : Jbuf × List Output}
        → InRange cs
        → Ordered less jb.packetl
        → run less jb cs ≡ some r
        → Ordered less r.0.packetl
    unfolding run
    run-Ordered jb [] h o e = subst (λ r. Sorted r.0) (some-injective _ _ e) o
    run-Ordered jb (c ∷ cs) {r = r} h o e =
        let (s, q, first, others, out) = run_cons less jb c cs r e in
        let (now, later) = InRange-cons c cs h in
        rw out (run-Ordered s.0 cs later (step-Ordered jb c now o first) others)
