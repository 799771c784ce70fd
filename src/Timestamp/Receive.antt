-- ===== src/Timestamp/Receive.antt =====
-- src/video.c and src/aureceiver.c: the receivers against the sender's timestamps, counted without
-- end, of which they see the low 32 bits.
use baresip.Prelude.{
  ℕ, ◌+◌, ◌-◌, ◌%◌, ◌^◌, ◌<◌, ◌≤◌, ◌≡◌, refl, Option, none, some, arith, add32, true, false, List,
  [], ◌∷◌,
}
use baresip.Timestamp.{
  backward, wrap, TimestampRecv, set_first, duration, receive_video, receive_audio, advance_video,
  advance_audio,
}
use baresip.Timestamp.Epoch.{epoch, epoch_step, wrap-epoch, wrap_undefined}

-- The receiver's state stands for the sender's timestamp `x`, the first one being `x₀`.
pub record Tracks (ts : TimestampRecv) (x₀ x : ℕ) : Type 0 where
  pub is_set : ts.is_set ≡ true
  pub first : ts.first ≡ x₀ % 2 ^ 32
  pub last : ts.last ≡ x % 2 ^ 32
  pub start : epoch x₀ ≤ epoch x
  pub num_wraps : ts.num_wraps ≡ epoch x - epoch x₀

-- A step forwards is always defined, and seen as the change of the epoch.
wrap_ahead :
    (x x' : ℕ) → x ≤ x' → x' < x + 2 ^ 31 → wrap (x' % 2 ^ 32) (x % 2 ^ 32) ≡ some (epoch_step x' x)
wrap_ahead x x' h k = wrap-epoch x' x (omega arith) (omega arith) (λ e.
    omega (arith, (wrap_undefined (x' % 2 ^ 32) (x % 2 ^ 32) (omega arith) (omega arith)).0 e))

advance-Tracks :
    {ts : TimestampRecv} (x₀ x x' : ℕ)
    → Tracks ts x₀ x
    → x ≤ x'
    → x' < x + 2 ^ 31
    → epoch x' < epoch x₀ + 2 ^ 32
    → Tracks (advance_video ts (x' % 2 ^ 32) (epoch_step x' x)) x₀ x'
unfolding advance_video
advance-Tracks x₀ x x' t h k small = ground arith

-- The video receiver follows a sender whose timestamps advance by less than 2^31 at a time.
receive_video-Tracks :
    {ts : TimestampRecv} (x₀ x x' : ℕ)
    → Tracks ts x₀ x
    → x ≤ x'
    → x' < x + 2 ^ 31
    → epoch x' < epoch x₀ + 2 ^ 32
    → (ts' : TimestampRecv) × (receive_video ts (x' % 2 ^ 32) ≡ some ts') × Tracks ts' x₀ x'
unfolding receive_video
receive_video-Tracks {ts = ts} x₀ x x' t h k small = (
  advance_video ts (x' % 2 ^ 32) (epoch_step x' x),
  rw (t.is_set, t.last, wrap_ahead x x' h k),
  advance-Tracks x₀ x x' t h k small,
)

duration-Tracks :
    {ts : TimestampRecv} (x₀ x : ℕ)
    → Tracks ts x₀ x
    → x₀ ≤ x
    → x < x₀ + 2 ^ 63
    → duration ts ≡ x - x₀
unfolding duration
duration-Tracks x₀ x t h k = ground arith

-- A sender's timestamps, each at least the one before, and less than 2^31 ahead of it.
abbrev Advances : ℕ → List ℕ → Type 0
Advances x [] = Unit
Advances x (x' ∷ xs) = (x ≤ x') × (x' < x + 2 ^ 31) × Advances x' xs

abbrev last_of : ℕ → List ℕ → ℕ
last_of x [] = x
last_of x (x' ∷ xs) = last_of x' xs

last_of_le : (x : ℕ) (xs : List ℕ) → Advances x xs → x ≤ last_of x xs
last_of_le x [] a = omega arith
last_of_le x (x' ∷ xs) a = omega (arith, a.0, last_of_le x' xs a.2)

-- The packets of a stream, one after the other.
unfoldable pub receive_all : TimestampRecv → List ℕ → Option TimestampRecv
receive_all ts [] = some ts
receive_all ts (x ∷ xs) = elim (receive_video ts (x % 2 ^ 32)) [
  | none ↦ none
  | some ts' ↦ receive_all ts' xs
]

receive_all-Tracks :
    {ts : TimestampRecv} (x₀ x : ℕ) (xs : List ℕ)
    → Tracks ts x₀ x
    → Advances x xs
    → epoch (last_of x xs) < epoch x₀ + 2 ^ 32
    → (ts' : TimestampRecv) × (receive_all ts xs ≡ some ts') × Tracks ts' x₀ (last_of x xs)
unfolding receive_all
receive_all-Tracks {ts = ts} x₀ x [] t a small = (ts, refl, t)
receive_all-Tracks x₀ x (x' ∷ xs) t a small =
    let before = last_of_le x' xs a.2 in
    let (ts', e, t') = receive_video-Tracks x₀ x x' t a.0 a.1 (omega arith) in
    let (ts'', e', t'') = receive_all-Tracks {ts = ts'} x₀ x' xs t' a.2 small in
    (ts'', rw (e, receive_all) e', t'')

receive_video_first :
    (ts : TimestampRecv) (r : ℕ)
    → ts.is_set ≡ false
    → receive_video ts r ≡ some (record ts { first = r; last = r; is_set = true })
unfolding receive_video set_first
receive_video_first ts r new = ground arith

-- The duration that a new video receiver reports for a stream that began at `x₀` is the distance
-- that the sender's timestamps have come, over any number of wrap-arounds, if each timestamp is at
-- most 2^31 - 1 ahead of the one before and the distance is below 2^63.
pub duration-receive_all :
    (ts : TimestampRecv) (x₀ : ℕ) (xs : List ℕ)
    → ts.is_set ≡ false
    → ts.num_wraps ≡ 0
    → Advances x₀ xs
    → last_of x₀ xs < x₀ + 2 ^ 63
    → (ts' : TimestampRecv) × (receive_all ts (x₀ ∷ xs) ≡ some ts')
      × (duration ts' ≡ last_of x₀ xs - x₀)
unfolding receive_all
duration-receive_all ts x₀ xs new zero_wraps a small =
    let r = x₀ % 2 ^ 32 in
    let started = record ts { first = r; last = r; is_set = true } in
    let t : Tracks started x₀ x₀ = record {
      is_set = refl;
      first = refl;
      last = refl;
      start = omega arith;
      num_wraps = omega arith;
    } in
    let (ts', e, t') = receive_all-Tracks {ts = started} x₀ x₀ xs t a (omega arith) in
    (
      ts',
      rw (receive_video_first ts r new, receive_all) e,
      duration-Tracks x₀ (last_of x₀ xs) t' (last_of_le x₀ xs a) small,
    )

wrap_behind :
    (x y : ℕ)
    → y < x
    → x < y + 2 ^ 31
    → epoch x ≡ epoch y + 1
    → wrap (y % 2 ^ 32) (x % 2 ^ 32) ≡ some backward
unfolding wrap
wrap_behind x y h k e = ground arith

-- The audio receiver counts a wrap-around twice if a packet `y` from before it arrives after one
-- from behind it: `y` is discarded, and the next packet in order, less than 2^31 ahead of `y`,
-- leaves the count one too high.
audio_counts_twice :
    {ts : TimestampRecv} (x₀ x y z : ℕ)
    → Tracks ts x₀ x
    → y < x
    → x ≤ z
    → z < y + 2 ^ 31
    → epoch x ≡ epoch y + 1
    → epoch z ≡ epoch x
    → epoch x < epoch x₀ + 2 ^ 31
    → (ts' ts'' : TimestampRecv) × (receive_audio ts (y % 2 ^ 32) ≡ some (ts', true))
      × (receive_audio ts' (z % 2 ^ 32) ≡ some (ts'', false))
      × (ts''.num_wraps ≡ epoch z - epoch x₀ + 1)
unfolding receive_audio advance_audio
audio_counts_twice {ts = ts} x₀ x y z t h k close ex ez small =
    let back = wrap_behind x y h (omega arith) ex in
    let ahead = wrap_ahead y z (omega arith) close in
    (
      record ts { last = y % 2 ^ 32 },
      record ts { last = z % 2 ^ 32; num_wraps = add32 ts.num_wraps 1 },
      rw (t.is_set, t.last, back),
      rw (t.is_set, ahead) (ground arith),
      ground arith,
    )
