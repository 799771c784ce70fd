-- ===== src/Jbuf/Nack.antt =====
-- src/jbuf.c: the generic NACK for the packets that a jump of the sequence number leaves out.
use baresip.Prelude.{
  ℕ, zero, suc, ◌+◌, ◌-◌, ◌/◌, ◌%◌, ◌^◌, ◌<◌, ◌≡◌, refl, ap, ◌∙◌, ==_iff, if◌then◌else◌, Bool, true,
  false, ◌∷◌, min, arith, ltb, ◌==◌,
}
use baresip.Jbuf.State.{Jbuf}
use baresip.Jbuf.Seq.{seq_diff, jump}
use baresip.Jbuf.Put.{gnack_blp, send_gnack, report_gap}

-- Bit `i` of a mask.
abbrev pub bit : ℕ → ℕ → ℕ
bit x i = x / 2 ^ i % 2

-- A test that holds for the numbers below `bound`, tried one by one from the largest.
holds_up_to : (ℕ → Bool) → ℕ → Bool
holds_up_to test zero = true
holds_up_to test (suc bound) = if test bound then holds_up_to test bound else false

holds_up_to_at :
    (test : ℕ → Bool) (bound i : ℕ) → i < bound → holds_up_to test bound ≡ true → test i ≡ true
unfolding holds_up_to
holds_up_to_at test zero i h e = absurd (omega arith)
holds_up_to_at test (suc bound) i h e = ground (arith, holds_up_to_at test bound i)

abbrev bit_matches : ℕ → ℕ → Bool
bit_matches k i = bit (gnack_blp k) i == (if ltb i k then 1 else 0)

blp_table : holds_up_to (λ k. holds_up_to (bit_matches k) 16) 17 ≡ true
unfolding holds_up_to gnack_blp
blp_table = refl

gnack_blp-min : (k : ℕ) → gnack_blp k ≡ gnack_blp (min k 16)
unfolding gnack_blp
gnack_blp-min k = ap (λ n. (2 ^ n - 1) % 2 ^ 16) (omega arith)

-- Bit `i` of the mask for `k` further packets is set for the first `k` of at most 16.
bit-gnack_blp : (k i : ℕ) → i < 16 → bit (gnack_blp k) i ≡ (if ltb i k then 1 else 0)
bit-gnack_blp k i h =
    let row : holds_up_to (bit_matches (min k 16)) 16 ≡ true =
      holds_up_to_at (λ k. holds_up_to (bit_matches k) 16) 17 (min k 16) (omega arith) blp_table in
    let cell : bit_matches (min k 16) i ≡ true =
      holds_up_to_at (bit_matches (min k 16)) 16 i h row in
    rw gnack_blp-min ((==_iff _ _).0 cell ∙ ap (λ b. if b then 1 else 0) (ground arith))

jump_lem :
    (seq last : ℕ)
    → last < 2 ^ 16
    → seq < 2 ^ 16
    → 0 < jump seq last
    → (last + jump seq last) % 2 ^ 16 ≡ seq
unfolding jump seq_diff
jump_lem seq last h k pos = ground arith

-- A jump of the sequence number by `g` over missing packets is reported to the sender, if a socket
-- is set: the packet behind the last one by its number, and bit `i` of the mask for the packet
-- `i + 2` behind the last one, exactly where that comes before the new packet.
pub report_gap-covers :
    (jb : Jbuf) (last seq : ℕ)
    → last < 2 ^ 16
    → seq < 2 ^ 16
    → jb.gnack_rtp ≡ true
    → 1 < jump seq last
    → (blp : ℕ) × ((report_gap jb last seq).gnacks
        ≡ record { ssrc = jb.ssrc; pid = (last + 1) % 2 ^ 16; blp = blp } ∷ jb.gnacks)
      × ((last + jump seq last) % 2 ^ 16 ≡ seq)
      × ((i : ℕ) → i < 16 → bit blp i ≡ (if ltb (i + 2) (jump seq last) then 1 else 0))
unfolding report_gap send_gnack
report_gap-covers jb last seq h k on gap = (
  gnack_blp (jump seq last - 2),
  ground arith,
  jump_lem seq last h k (omega arith),
  λ i hi. bit-gnack_blp (jump seq last - 2) i hi ∙ ap (λ b. if b then 1 else 0) (ground arith),
)
