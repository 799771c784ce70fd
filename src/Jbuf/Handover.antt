-- ===== src/Jbuf/Handover.antt =====
-- src/jbuf.c: no call leaks a reference on a payload, or releases one that it does not own.
use mathlib.Core.Option.{some-injective}
use baresip.Prelude.{
  ℕ, ◌+◌, ◌==◌, ◌≡◌, refl, ap, sym, ◌∙◌, Bool, Option, none, some, List, [], ◌∷◌, arith, inl, inr,
  Bool-cases, not, ◌&&◌, subst, ltb,
}
use baresip.Jbuf.State.{Packet, Header, Jbuf, Errno}
use baresip.Jbuf.Pool.{
  mem_ref, packet_deref, release_all, flush, set_srate, set_type, set_gnack, set_next_play_h,
}
use baresip.Jbuf.Put.{
  Reads, splice, Place, between, duplicate, find_place, put_unordered, enqueue, on_ssrc, put,
  count_put,
}
use baresip.Jbuf.Get.{Output, count_lost, play, get_from, get, drain_from, drain}
use baresip.Jbuf.Frame.{count_lost-SameCore, report_gap-SameCore}
use baresip.Jbuf.Splice.{splice_back, Splits, find_place-Splits}
use baresip.Jbuf.PutCases.{Way, unset, late, queued, put-Way}
use baresip.Jbuf.Run.{
  Call, puts, gets, drains, flushes, sets_srate, sets_type, sets_gnack, sets_next_play, step, run,
  step_puts, run_cons,
}
use baresip.Jbuf.Ownership.{
  hold, held, given, Owns, ref_counts, packet_deref-Owns, accept-Owns, Source-Owns,
}

module _ (m : ℕ) where
  module _ (less : ℕ → ℕ → Bool) where
    put_unordered-Owns :
        (k : ℕ) (jb : Jbuf) (f : Packet) (place : Place) (hdr : Header) (mem : Option ℕ) (t : Reads)
        → f.mem ≡ none
        → Splits jb.packetl place
        → Owns m k jb
        → Owns m k (put_unordered less jb f place hdr mem t).0
    unfolding put_unordered hold
    put_unordered-Owns k jb f (between before after) hdr mem t c e o =
        accept-Owns m k _ f before after hdr mem t e
          (record { clear = o.clear; balance = o.balance })
    put_unordered-Owns k jb f duplicate hdr mem t c e o =
        packet_deref-Owns m k _ jb.packetl f o.clear (rw c (omega (arith, o.balance)))

    enqueue-Owns :
        (k : ℕ) (jb : Jbuf) (f : Packet) (backward : List Packet) (hdr : Header) (mem : Option ℕ)
        (t : Reads)
        → f.mem ≡ none
        → splice backward [] ≡ jb.packetl
        → Owns m k jb
        → Owns m k (enqueue less jb f backward hdr mem t).0
    unfolding enqueue
    enqueue-Owns k jb f [] hdr mem t c e o = accept-Owns m k jb f [] [] hdr mem t e o
    enqueue-Owns k jb f (tail ∷ before) hdr mem t c e o =
        let same = report_gap-SameCore jb tail.hdr.seq hdr.seq in
        elim (Bool-cases (less tail.hdr.seq hdr.seq)) [
          | inl later ↦ rw later (
              accept-Owns m k _ f (tail ∷ before) [] hdr mem t (e ∙ sym same.packetl) (record {
                clear = rw same.pooll o.clear;
                balance = rw (same.mem_calls, same.packetl) o.balance;
              }))
          | inr sooner ↦ rw sooner (
              put_unordered-Owns k jb f _ hdr mem t c
                (subst (λ l. Splits l (find_place less hdr.seq (tail ∷ before) [])) e
                  (find_place-Splits less hdr.seq (tail ∷ before) []))
                o)
        ]

    Way-Owns :
        (k : ℕ) {jb : Jbuf} {hdr : Header} {mem : Option ℕ} {t : Reads} {r : Jbuf × Errno}
        → Owns m k jb
        → Way less jb hdr mem t r
        → Owns m k r.0
    Way-Owns k o (unset _ e) = rw e o
    Way-Owns k o (late _ e) = rw e (record { clear = o.clear; balance = o.balance })
    Way-Owns k {jb = jb} {hdr = hdr} {mem = mem} {t = t} o (queued f jb' _ source e) =
        let (o', c) =
          Source-Owns m k (count_put jb hdr.ssrc) f jb'
            (record { clear = o.clear; balance = o.balance }) source in
        rw e (enqueue-Owns k jb' f _ hdr mem t c (splice_back jb'.packetl) o')

  release_all-Owns :
      (k : ℕ) (jb : Jbuf) (l : List Packet)
      → jb.packetl ≡ l
      → Owns m k jb
      → Owns m k (release_all jb l)
  unfolding release_all packet_deref held
  release_all-Owns k jb [] e o = o
  release_all-Owns k jb (f ∷ rest) e o =
      release_all-Owns k (packet_deref jb rest f) rest (refl)
        (packet_deref-Owns m k jb rest f o.clear (omega (arith, ap (held m) e, o.balance)))

  pub flush-Owns : (k : ℕ) (jb : Jbuf) → Owns m k jb → Owns m k (flush jb)
  unfolding flush
  flush-Owns k jb o =
      let o' = release_all-Owns k jb jb.packetl refl o in
      record { clear = o'.clear; balance = o'.balance }

  on_ssrc-Owns : (k : ℕ) (jb : Jbuf) (ssrc : ℕ) → Owns m k jb → Owns m k (on_ssrc jb ssrc)
  unfolding on_ssrc
  on_ssrc-Owns k jb ssrc o = elim (Bool-cases (not (jb.ssrc == 0) && not (jb.ssrc == ssrc))) [
    | inl new ↦ rw new (flush-Owns k jb o)
    | inr same ↦ rw same o
  ]

  drain_from-Owns :
      (k : ℕ) (jb : Jbuf) (l : List Packet)
      → Owns m k jb
      → jb.packetl ≡ l
      → Owns m (given m (drain_from jb l).2 + k) (drain_from jb l).0
  unfolding drain_from given held
  drain_from-Owns k jb [] o e = record { clear = o.clear; balance = omega (arith, o.balance) }
  drain_from-Owns k jb (f ∷ rest) o e = elim (Bool-cases (jb.n == 0)) [
    | inl empty ↦
        rw (empty, drain_from) (record { clear = o.clear; balance = omega (arith, o.balance) })
    | inr some_left ↦
        rw (some_left, drain_from)
          (packet_deref-Owns m (hold m f.mem + k)
            (record jb { seq_get = f.hdr.seq; mem_calls = mem_ref f.mem jb.mem_calls }) rest f
            o.clear (omega (arith, ref_counts m f.mem jb.mem_calls, ap (held m) e, o.balance)))
  ]

  pub drain-Owns :
      (k : ℕ) (jb : Jbuf) → Owns m k jb → Owns m (given m (drain jb).2 + k) (drain jb).0
  unfolding drain
  drain-Owns k jb o = drain_from-Owns k jb jb.packetl o refl

  module _ (less : ℕ → ℕ → Bool) where
    -- `jbuf_put` takes one reference for a packet that it keeps and none for any other, whatever it
    -- drops on the way.
    pub put-Owns :
        (k : ℕ) (jb : Jbuf) (hdr : Header) (mem : Option ℕ) (t : Reads) {r : Jbuf × Errno}
        → Owns m k jb
        → put less jb hdr mem t ≡ some r
        → Owns m k r.0
    put-Owns k jb hdr mem t {r = r} o e = elim (put-Way less jb hdr mem t r e) [
      | inl refused ↦ rw refused.1 o
      | inr way ↦ Way-Owns less k (on_ssrc-Owns k jb hdr.ssrc o) way
    ]

    play-Owns :
        (k : ℕ) (jb : Jbuf) (f : Packet) (rest : List Packet)
        → Owns m k jb
        → jb.packetl ≡ f ∷ rest
        → Owns m (hold m f.mem + k) (play less jb f rest)
    unfolding play held
    play-Owns k jb f rest o e =
        let taken = record jb { mem_calls = mem_ref f.mem jb.mem_calls } in
        let same = count_lost-SameCore less taken f.hdr.seq in
        packet_deref-Owns m (hold m f.mem + k)
          (record (count_lost less taken f.hdr.seq) { seq_get = f.hdr.seq }) rest f
          (rw same.pooll o.clear)
          (rw same.mem_calls
            (omega (arith, ref_counts m f.mem jb.mem_calls, ap (held m) e, o.balance)))

    get_from-Owns :
        (k : ℕ) (jb : Jbuf) (l : List Packet) (next : ℕ)
        → Owns m k jb
        → jb.packetl ≡ l
        → Owns m (given m (get_from less jb l next).2 + k) (get_from less jb l next).0
    unfolding get_from given
    get_from-Owns k jb [] next o e = record { clear = o.clear; balance = omega (arith, o.balance) }
    get_from-Owns k jb (f ∷ rest) next o e = elim (Bool-cases (ltb next f.playout_time)) [
      | inl wait ↦
          rw (wait, get_from) (record { clear = o.clear; balance = omega (arith, o.balance) })
      | inr due ↦ rw (due, get_from) (play-Owns k jb f rest o e)
    ]

    pub get-Owns :
        (k : ℕ) (jb : Jbuf) (now : ℕ)
        → Owns m k jb
        → Owns m (given m (get less jb now).2 + k) (get less jb now).0
    unfolding get
    get-Owns k jb now o =
        get_from-Owns k _ jb.packetl _ (record { clear = o.clear; balance = o.balance }) refl

    -- How often the calls handed out the payload.
    pub all_given : List Output → ℕ
    all_given [] = 0
    all_given (out ∷ outs) = given m out + all_given outs

    Owns-zero : (k : ℕ) {jb : Jbuf} → Owns m k jb → Owns m (0 + k) jb
    Owns-zero k o = record { clear = o.clear; balance = omega (arith, o.balance) }

    Owns-sum : (a b k : ℕ) {jb : Jbuf} → Owns m (a + (b + k)) jb → Owns m (b + a + k) jb
    Owns-sum a b k o = record { clear = o.clear; balance = omega (arith, o.balance) }

    abbrev Handed : ℕ → Jbuf × Output → Type 0
    Handed k r = Owns m (given m r.1 + k) r.0

    step-Owns :
        (k : ℕ) (jb : Jbuf) (c : Call) {r : Jbuf × Output}
        → Owns m k jb
        → step less jb c ≡ some r
        → Owns m (given m r.1 + k) r.0
    unfolding step set_srate set_type set_gnack set_next_play_h given
    step-Owns k jb (puts hdr mem t) {r = r} o e =
        let (q, found, out) = step_puts less jb hdr mem t r e in
        rw out (Owns-zero k (put-Owns k jb hdr mem t o found))
    step-Owns k jb (gets now) o e = subst (Handed k) (some-injective _ _ e) (get-Owns k jb now o)
    step-Owns k jb drains o e = subst (Handed k) (some-injective _ _ e) (drain-Owns k jb o)
    step-Owns k jb flushes o e =
        subst (Handed k) (some-injective _ _ e) (Owns-zero k (flush-Owns k jb o))
    step-Owns k jb (sets_srate srate) o e =
        subst (Handed k) (some-injective _ _ e)
          (record { clear = o.clear; balance = omega (arith, o.balance) })
    step-Owns k jb (sets_type jbtype) o e =
        subst (Handed k) (some-injective _ _ e)
          (record { clear = o.clear; balance = omega (arith, o.balance) })
    step-Owns k jb (sets_gnack rtp) o e =
        subst (Handed k) (some-injective _ _ e)
          (record { clear = o.clear; balance = omega (arith, o.balance) })
    step-Owns k jb (sets_next_play h) o e =
        subst (Handed k) (some-injective _ _ e)
          (record { clear = o.clear; balance = omega (arith, o.balance) })

    -- A sequence of calls that does not fault keeps the account of the references on a payload `m`:
    -- each one that the buffer took was released, belongs to a packet that is still buffered, or
    -- was handed to the caller, and the packets in the pool hold none.
    pub run-Owns :
        (k : ℕ) (jb : Jbuf) (cs : List Call) {r : Jbuf × List Output}
        → Owns m k jb
        → run less jb cs ≡ some r
        → Owns m (all_given r.1 + k) r.0
    unfolding run all_given
    run-Owns k jb [] o e =
        subst (λ r. Owns m (all_given r.1 + k) r.0) (some-injective _ _ e) (Owns-zero k o)
    run-Owns k jb (c ∷ cs) {r = r} o e =
        let (s, q, first, others, out) = run_cons less jb c cs r e in
        rw out (
          Owns-sum (all_given q.1) (given m s.1) k
            (run-Owns (given m s.1 + k) s.0 cs (step-Owns k jb c o first) others))
