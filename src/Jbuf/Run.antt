-- ===== src/Jbuf/Run.antt =====
-- src/jbuf.c: every sequence of calls on a jitter buffer that `jbuf_alloc` returned.
use mathlib.Core.Option
use baresip.Prelude.{
  ℕ, zero, suc, ◌+◌, ◌^◌, ◌<◌, ◌≡◌, refl, Bool, Option, none, some, List, [], ◌∷◌, Option-cases,
  inl, inr, ◌++◌, arith, length, length-append,
}
use baresip.Jbuf.State.{Packet, Header, Jbuf, JbufType, NextPlay, Errno}
use baresip.Jbuf.Pool.{
  zero_packet, mem_ref, flush, fill_pool, Memory, jbuf, alloc, set_srate, set_type, set_gnack,
  set_next_play_h,
}
use baresip.Jbuf.Put.{Reads, put}
use baresip.Jbuf.Get.{Output, count_lost, play, get_from, get, drain_from, drain}
use baresip.Jbuf.Invariant.{IsValid, IsClaimed, packet_deref-IsValid, put-IsValid, flush-IsValid}

length-fill_pool : (k : ℕ) (pool : List Packet) → length (fill_pool k pool) ≡ length pool + k
unfolding fill_pool
length-fill_pool zero pool = omega arith
length-fill_pool (suc k) pool =
    omega (
      arith,
      length-fill_pool k (pool ++ (zero_packet ∷ [])),
      length-append pool (zero_packet ∷ []),
    )

module _ (seq_less : ℕ → ℕ → Bool) where
  count_lost-IsClaimed :
      (jb : Jbuf) (seq : ℕ) → IsClaimed jb → IsClaimed (count_lost seq_less jb seq)
  unfolding count_lost
  count_lost-IsClaimed jb seq v = ground arith

  play-IsValid :
      (jb : Jbuf) (f : Packet) (rest : List Packet)
      → IsValid jb
      → jb.packetl ≡ f ∷ rest
      → IsValid (play seq_less jb f rest)
  unfolding play count_lost
  play-IsValid jb f rest v e = packet_deref-IsValid _ rest f (ground arith)

  get_from-IsValid :
      (jb : Jbuf) (l : List Packet) (next : ℕ)
      → IsValid jb
      → jb.packetl ≡ l
      → IsValid (get_from seq_less jb l next).0
  unfolding get_from
  get_from-IsValid jb [] next v e = v
  get_from-IsValid jb (f ∷ rest) next v e = ground (arith, play-IsValid jb f rest v e)

  pub get-IsValid : (jb : Jbuf) (now : ℕ) → IsValid jb → IsValid (get seq_less jb now).0
  unfolding get
  get-IsValid jb now v = get_from-IsValid _ jb.packetl _ (ground arith) refl

drain_from-IsValid :
    (jb : Jbuf) (l : List Packet) → IsValid jb → jb.packetl ≡ l → IsValid (drain_from jb l).0
unfolding drain_from
drain_from-IsValid jb [] v e = v
drain_from-IsValid jb (f ∷ rest) v e = ground (
  arith,
  packet_deref-IsValid (record jb { seq_get = f.hdr.seq; mem_calls = mem_ref f.mem jb.mem_calls })
      rest f,
)

drain-IsValid : (jb : Jbuf) → IsValid jb → IsValid (drain jb).0
unfolding drain
drain-IsValid jb v = drain_from-IsValid jb jb.packetl v refl

-- A buffer that `jbuf_alloc` returns is valid, if it is asked for at least one packet and
-- for fewer than 2^32.
alloc-IsValid :
    (seq_less : ℕ → ℕ → Bool) (m : Memory) (mind maxd maxsz : ℕ) {jb : Jbuf}
    → 0 < maxsz
    → maxsz < 2 ^ 32
    → alloc seq_less m mind maxd maxsz ≡ jbuf jb
    → IsValid jb
unfolding alloc
alloc-IsValid seq_less m mind maxd maxsz pos h e = ground (arith, length-fill_pool maxsz [])

-- What the users of a buffer may call, in any order.
pub data Call : Type 0 where
  puts : Header → Option ℕ → Reads → Call
  gets : ℕ → Call
  drains flushes : Call
  sets_srate : ℕ → Call
  sets_type : JbufType → Call
  sets_gnack : Bool → Call
  sets_next_play : NextPlay → Call

abbrev without_output : Option Jbuf → Option (Jbuf × Output)
without_output o = Option.map (λ jb. (jb, none)) o

module _ (seq_less : ℕ → ℕ → Bool) where
  -- One call, and what it handed out. `none` is a fault.
  unfoldable pub step : Jbuf → Call → Option (Jbuf × Output)
  step jb (puts hdr mem t) = without_output (Option.map (λ r. r.0) (put seq_less jb hdr mem t))
  step jb (gets now) = let (jb', err, out) = get seq_less jb now in some (jb', out)
  step jb drains = let (jb', err, out) = drain jb in some (jb', out)
  step jb flushes = some (flush jb, none)
  step jb (sets_srate srate) = some (set_srate jb srate, none)
  step jb (sets_type jbtype) = some ((set_type jb jbtype).0, none)
  step jb (sets_gnack rtp) = some (set_gnack jb rtp, none)
  step jb (sets_next_play h) = some (set_next_play_h jb h, none)

  unfoldable pub run : Jbuf → List Call → Option (Jbuf × List Output)
  run jb [] = some (jb, [])
  run jb (c ∷ cs) = elim (step jb c) [
    | none ↦ none
    | some (jb', out) ↦ Option.map (λ r. (r.0, out ∷ r.1)) (run jb' cs)
  ]

  step-IsValid :
      (jb : Jbuf) (c : Call) → IsValid jb → (r : Jbuf × Output) × (step jb c ≡ some r) × IsValid r.0
  unfolding step set_srate set_type set_gnack set_next_play_h
  step-IsValid jb (puts hdr mem t) v =
      let (r, e, valid) = put-IsValid seq_less jb hdr mem t v in ((r.0, none), rw e, valid)
  step-IsValid jb (gets now) v = (_, refl, get-IsValid seq_less jb now v)
  step-IsValid jb drains v = (_, refl, drain-IsValid jb v)
  step-IsValid jb flushes v = (_, refl, flush-IsValid jb v)
  step-IsValid jb (sets_srate srate) v = (_, refl, ground arith)
  step-IsValid jb (sets_type jbtype) v = (_, refl, ground arith)
  step-IsValid jb (sets_gnack rtp) v = (_, refl, ground arith)
  step-IsValid jb (sets_next_play h) v = (_, refl, ground arith)

  -- No sequence of calls on a valid buffer reads through NULL, and all of them leave it valid: the
  -- pool and the packet list make up the allocated packets, as `n` and `c_packets` say.
  pub run-IsValid :
      (jb : Jbuf) (cs : List Call)
      → IsValid jb
      → (r : Jbuf × List Output) × (run jb cs ≡ some r) × IsValid r.0
  unfolding run
  run-IsValid jb [] v = ((jb, []), refl, v)
  run-IsValid jb (c ∷ cs) v =
      let (s, e, valid) = step-IsValid jb c v in
      let (r, e', valid') = run-IsValid s.0 cs valid in
      ((r.0, s.1 ∷ r.1), rw (e, run) (rw e'), valid')

  -- A call of `jbuf_put` that does not fault, in a sequence.
  pub step_puts :
      (jb : Jbuf) (hdr : Header) (mem : Option ℕ) (t : Reads) (s : Jbuf × Output)
      → step jb (puts hdr mem t) ≡ some s
      → (r : Jbuf × Errno) × (put seq_less jb hdr mem t ≡ some r) × (s ≡ (r.0, none))
  unfolding step
  step_puts jb hdr mem t s e = elim (Option-cases (put seq_less jb hdr mem t)) [
    | inl fault ↦ absurd (ground (arith, e, fault))
    | inr (r, found) ↦ (r, found, ground arith)
  ]

  -- A sequence of calls that does not fault, taken apart.
  pub run_cons :
      (jb : Jbuf) (c : Call) (cs : List Call) (r : Jbuf × List Output)
      → run jb (c ∷ cs) ≡ some r
      → (s : Jbuf × Output) × (q : Jbuf × List Output) × (step jb c ≡ some s)
        × (run s.0 cs ≡ some q)
        × (r ≡ (q.0, s.1 ∷ q.1))
  unfolding run
  run_cons jb c cs r e = elim (Option-cases (step jb c)) [
    | inl fault ↦ absurd (ground arith)
    | inr (s, found) ↦ elim (Option-cases (run s.0 cs)) [
      | inl fault ↦ absurd (ground arith)
      | inr (q, found') ↦ (s, q, found, found', ground arith)
    ]
  ]
