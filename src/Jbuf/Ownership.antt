-- ===== src/Jbuf/Ownership.antt =====
-- src/jbuf.c: the references that the buffer takes on payloads, and gives back.
use baresip.Prelude.{
  ℕ, ◌+◌, ◌==◌, ◌≡◌, refl, ap, Option, none, some, List, [], ◌∷◌, ◌++◌, arith, if◌then◌else◌, inl,
  inr, subst,
}
use baresip.Jbuf.State.{Packet, Header, Jbuf, MemOp, ref, deref}
use baresip.Jbuf.Pool.{mem_ref, mem_deref, take_free, steal_oldest, packet_deref}
use baresip.Jbuf.Alloc.{Source, free, oldest}
use baresip.Jbuf.Put.{Reads, splice, accept}
use baresip.Jbuf.Get.{Output}
use baresip.Jbuf.Accept.{stored, accept_cases}

module _ (m : ℕ) where
  -- 1 for a pointer to the payload at `m`, else 0.
  unfoldable pub hold : Option ℕ → ℕ
  hold none = 0
  hold (some x) = if x == m then 1 else 0

  -- How many packets of a list point to it.
  unfoldable pub held : List Packet → ℕ
  held [] = 0
  held (f ∷ fs) = hold f.mem + held fs

  -- How often it was referenced, and released.
  unfoldable pub refs : List MemOp → ℕ
  refs [] = 0
  refs (ref x ∷ cs) = hold (some x) + refs cs
  refs (deref x ∷ cs) = refs cs

  unfoldable pub derefs : List MemOp → ℕ
  derefs [] = 0
  derefs (ref x ∷ cs) = derefs cs
  derefs (deref x ∷ cs) = hold (some x) + derefs cs

  -- How often a call handed it out.
  unfoldable pub given : Output → ℕ
  given none = 0
  given (some (hdr, mem)) = hold mem

  pub ref_counts :
      (o : Option ℕ) (cs : List MemOp)
      → (refs (mem_ref o cs) ≡ hold o + refs cs) × (derefs (mem_ref o cs) ≡ derefs cs)
  unfolding refs derefs hold
  ref_counts none cs = (omega arith, refl)
  ref_counts (some x) cs = (refl, refl)

  pub deref_counts :
      (o : Option ℕ) (cs : List MemOp)
      → (refs (mem_deref o cs) ≡ refs cs) × (derefs (mem_deref o cs) ≡ hold o + derefs cs)
  unfolding refs derefs hold
  deref_counts none cs = (refl, omega arith)
  deref_counts (some x) cs = (refl, refl)

  held-splice : (before after : List Packet) → held (splice before after) ≡ held before + held after
  unfolding held splice
  held-splice [] after = omega arith
  held-splice (b ∷ before) after = omega (arith, held-splice before (b ∷ after))

  -- A packet in the pool points to nothing.
  abbrev pub Clear : List Packet → Type 0
  Clear [] = Unit
  Clear (f ∷ fs) = (f.mem ≡ none) × Clear fs

  Clear-append : (fs : List Packet) (f : Packet) → Clear fs → f.mem ≡ none → Clear (fs ++ (f ∷ []))
  Clear-append [] f c e = (e, tt)
  Clear-append (g ∷ fs) f c e = (c.0, Clear-append fs f c.1 e)

  -- Every reference taken is released again, is held by a buffered packet, or is one of the `k`
  -- that were handed out.
  pub record Owns (k : ℕ) (jb : Jbuf) : Type 0 where
    pub clear : Clear jb.pooll
    pub balance : refs jb.mem_calls ≡ derefs jb.mem_calls + held jb.packetl + k

  pub packet_deref-Owns :
      (k : ℕ) (jb : Jbuf) (rest : List Packet) (f : Packet)
      → Clear jb.pooll
      → refs jb.mem_calls ≡ derefs jb.mem_calls + (hold f.mem + held rest) + k
      → Owns k (packet_deref jb rest f)
  unfolding packet_deref
  packet_deref-Owns k jb rest f c b = record {
    clear = Clear-append jb.pooll _ c refl;
    balance = omega (arith, deref_counts f.mem jb.mem_calls);
  }

  pub accept-Owns :
      (k : ℕ) (jb : Jbuf) (f : Packet) (before after : List Packet) (hdr : Header) (mem : Option ℕ)
      (t : Reads)
      → splice before after ≡ jb.packetl
      → Owns k jb
      → Owns k (accept jb f before after hdr mem t).0
  unfolding stored held
  accept-Owns k jb f before after hdr mem t e o =
      let g = stored jb f before hdr mem in
      let calls = mem_ref mem jb.mem_calls in
      let taken = ref_counts mem jb.mem_calls in
      elim (accept_cases jb f before after hdr mem t) [
        | inl kept ↦ record {
          clear = rw kept.pooll o.clear;
          balance =
              rw (kept.mem_calls, kept.packetl)
                (omega (
                  arith,
                  taken,
                  held-splice before (g ∷ after),
                  held-splice before after,
                  ap held e,
                ));
        }
        | inr dropped ↦ record {
          clear = rw dropped.pooll (Clear-append jb.pooll _ o.clear refl);
          balance =
              rw (dropped.mem_calls, dropped.packetl)
                (omega (arith, taken, deref_counts mem calls, ap held e));
        }
      ]

  -- A packet that is taken holds no payload, and the books still balance.
  pub Source-Owns :
      (k : ℕ) (jb : Jbuf) (f : Packet) (jb' : Jbuf)
      → Owns k jb
      → Source jb f jb'
      → Owns k jb' × (f.mem ≡ none)
  unfolding take_free steal_oldest held
  Source-Owns k jb f jb' o (free rest e d) =
      let c = subst Clear e o.clear in (rw d (record { clear = c.1; balance = o.balance }), c.0)
  Source-Owns k jb f jb' o (oldest f0 rest e l p d) = (
    rw d (record {
      clear = o.clear;
      balance = omega (arith, deref_counts f0.mem jb.mem_calls, ap held l, o.balance);
    }),
    rw p refl,
  )
