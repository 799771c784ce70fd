-- ===== src/Jbuf/Ordered.antt =====
-- src/jbuf.c: the order of the packet list. Each packet comes before its successor, by libre's
-- comparison of sequence numbers, of which only totality on 16-bit numbers is used.
use baresip.Prelude.{
  ℕ, ◌^◌, ◌<◌, ◌≡◌, ◌≢◌, Bool, true, false, List, [], ◌∷◌, arith, ◌==◌, Bool-cases, inl, inr,
}
use baresip.Jbuf.State.{Packet}
use baresip.Jbuf.Put.{splice, Place, between, duplicate, find_place}

-- Of two different sequence numbers one comes before the other.
pub record SeqOrder (less : ℕ → ℕ → Bool) : Type 0 where
  pub total : (x y : ℕ) → x < 2 ^ 16 → y < 2 ^ 16 → x ≢ y → less y x ≡ false → less x y ≡ true

module _ (less : ℕ → ℕ → Bool) where
  -- The sequence number `seq` comes before the first packet of the list.
  abbrev pub Follows : ℕ → List Packet → Type 0
  Follows seq [] = Unit
  Follows seq (f ∷ fs) = less seq f.hdr.seq ≡ true

  -- The same seen from behind, on a list from its tail.
  abbrev pub Precedes : List Packet → ℕ → Type 0
  Precedes [] seq = Unit
  Precedes (f ∷ fs) seq = less f.hdr.seq seq ≡ true

  abbrev pub Ordered : List Packet → Type 0
  Ordered [] = Unit
  Ordered (f ∷ fs) = (f.hdr.seq < 2 ^ 16) × Follows f.hdr.seq fs × Ordered fs

  abbrev pub Backward : List Packet → Type 0
  Backward [] = Unit
  Backward (f ∷ fs) = (f.hdr.seq < 2 ^ 16) × Precedes fs f.hdr.seq × Backward fs

  abbrev pub Joins : List Packet → List Packet → Type 0
  Joins [] after = Unit
  Joins (f ∷ fs) after = Follows f.hdr.seq after

  pub splice-Ordered :
      (before after : List Packet)
      → Backward before
      → Joins before after
      → Ordered after
      → Ordered (splice before after)
  unfolding splice
  splice-Ordered [] after b j o = o
  splice-Ordered (f ∷ []) after b j o = splice-Ordered [] (f ∷ after) tt tt (b.0, j, o)
  splice-Ordered (f ∷ g ∷ fs) after b j o = splice-Ordered (g ∷ fs) (f ∷ after) b.2 b.1 (b.0, j, o)

  -- An ordered list stays ordered when it is taken apart.
  pub splice-Ordered_inv :
      (before after : List Packet)
      → Ordered (splice before after)
      → Backward before × Joins before after × Ordered after
  unfolding splice
  splice-Ordered_inv [] after o = (tt, tt, o)
  splice-Ordered_inv (f ∷ []) after o = ((o.0, tt, tt), o.1, o.2)
  splice-Ordered_inv (f ∷ g ∷ fs) after o =
      let (b, j, (bound, follows, rest)) = splice-Ordered_inv (g ∷ fs) (f ∷ after) o in
      ((bound, j, b), follows, rest)

  -- Where a packet is put, it comes behind what is before it and before what is behind it.
  abbrev pub Fits : ℕ → Place → Type 0
  Fits seq (between before after) = Precedes before seq × Follows seq after
  Fits seq duplicate = Unit

  module _ (law : SeqOrder less) where
    pub find_place-Fits :
        (seq : ℕ) (before after : List Packet)
        → seq < 2 ^ 16
        → Backward before
        → Follows seq after
        → Fits seq (find_place less seq before after)
    unfolding find_place
    find_place-Fits seq [] after h b fw = (tt, fw)
    find_place-Fits seq (le ∷ before) after h b fw = elim (Bool-cases (less le.hdr.seq seq)) [
      | inl earlier ↦ rw (earlier, find_place) (earlier, fw)
      | inr later ↦ elim (Bool-cases (seq == le.hdr.seq)) [
        | inl same ↦ rw (later, find_place) (rw same tt)
        | inr other ↦
            rw (later, find_place)
              (rw other (
                find_place-Fits seq before (le ∷ after) h b.2
                  (law.total seq le.hdr.seq h b.0 (ground arith) later)))
      ]
    ]
