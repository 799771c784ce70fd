-- ===== src/Jbuf/Splice.antt =====
-- src/jbuf.c: the packet list, taken apart at a place and put together again.
use baresip.Prelude.{ℕ, ◌+◌, Bool, ◌≡◌, refl, ◌∙◌, List, [], ◌∷◌, ◌++◌, arith, length}
use mathlib.Core.List.{append-nil}
use baresip.Jbuf.State.{Packet}
use baresip.Jbuf.Put.{splice, Place, between, duplicate, find_place}

pub length-splice :
    (before after : List Packet) → length (splice before after) ≡ length before + length after
unfolding splice
length-splice [] after = omega arith
length-splice (b ∷ before) after = omega (arith, length-splice before (b ∷ after))

splice_twice : (xs ys zs : List Packet) → splice (splice xs ys) zs ≡ splice ys (xs ++ zs)
unfolding splice
splice_twice [] ys zs = refl
splice_twice (x ∷ xs) ys zs = splice_twice xs (x ∷ ys) zs

-- Walking to the tail and back gives the list.
pub splice_back : (xs : List Packet) → splice (splice xs []) [] ≡ xs
unfolding splice
splice_back xs = splice_twice xs [] [] ∙ append-nil xs

-- The place that is found lies inside the list that was searched.
abbrev pub Splits : List Packet → Place → Type 0
Splits l (between before after) = splice before after ≡ l
Splits l duplicate = Unit {0}

pub find_place-Splits :
    (seq_less : ℕ → ℕ → Bool) (seq : ℕ) (before after : List Packet)
    → Splits (splice before after) (find_place seq_less seq before after)
unfolding find_place splice
find_place-Splits seq_less seq [] after = refl
find_place-Splits seq_less seq (le ∷ before) after =
    ground (arith, find_place-Splits seq_less seq before (le ∷ after))
