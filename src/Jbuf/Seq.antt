-- ===== src/Jbuf/Seq.antt =====
-- src/jbuf.c: differences of 16-bit sequence numbers, as `int16_t`.
use baresip.Prelude.{ℕ, sub16}
use baresip.Prelude.Int.{ℤ, pos_part, signed16}

-- `const int16_t seq_diff = seq - last`.
unfoldable pub seq_diff : ℕ → ℕ → ℤ
seq_diff seq last = signed16 (sub16 seq last)

-- How far the sequence number moved on: 0 where it went back.
unfoldable pub jump : ℕ → ℕ → ℕ
unfolding seq_diff
jump seq last = pos_part (seq_diff seq last)
