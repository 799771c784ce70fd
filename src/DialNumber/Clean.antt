-- ===== src/DialNumber/Clean.antt =====
-- src/dial_number.c: what `clean_number` leaves of a number.
use mathlib.Core.Option.{some-injective}
use baresip.Prelude.{
  subst, ◌⊎◌, ℕ, suc, ◌<◌, ◌==◌, ◌||◌, ◌≡◌, ◌≢◌, ◌↔◌, refl, ap, if◌then◌else◌, true, false, none,
  some, List, [], ◌∷◌, ◌++◌, arith, Bool-cases, inl, inr,
}
use baresip.DialNumber.{
  isalpha, isdigit, is_text, zero_here, blank_second, blank_zero, is_international, keep, stays,
  clean_number,
}

-- Digits only, or a `+` and digits.
abbrev Digits : List ℕ → Type 0
Digits [] = Unit
Digits (c ∷ str) = (isdigit c ≡ true) × Digits str

abbrev pub IsDialable : List ℕ → Type 0
IsDialable [] = Unit
IsDialable (c ∷ str) = ((c == b'+' || isdigit c) ≡ true) × Digits str

stays-digit : (k c : ℕ) → 0 < k → stays k c ≡ true → isdigit c ≡ true
unfolding stays
stays-digit k c h e = ground arith

keep-Digits : (k : ℕ) (str : List ℕ) → 0 < k → Digits (keep k str)
unfolding keep
keep-Digits k [] h = tt
keep-Digits k (c ∷ str) h = elim (Bool-cases (stays k c)) [
  | inl kept ↦ rw kept (stays-digit k c h kept, keep-Digits (suc k) str (omega arith))
  | inr skipped ↦ rw skipped (keep-Digits k str h)
]

plus_or_digit : (c : ℕ) → stays 0 c ≡ true → (c == b'+' || isdigit c) ≡ true
unfolding stays
plus_or_digit c e = ground arith

keep-IsDialable : (str : List ℕ) → IsDialable (keep 0 str)
unfolding keep
keep-IsDialable [] = tt
keep-IsDialable (c ∷ str) = elim (Bool-cases (stays 0 c)) [
  | inl kept ↦ rw kept (plus_or_digit c kept, keep-Digits 1 str (omega arith))
  | inr skipped ↦ rw skipped (keep-IsDialable str)
]

-- What `clean_number` accepts becomes digits, with a `+` at most in front.
pub clean_number-IsDialable : (str : List ℕ) {r : List ℕ} → clean_number str ≡ some r → IsDialable r
unfolding clean_number
clean_number-IsDialable str e = elim (Bool-cases (is_text str)) [
  | inl text ↦ absurd (ground arith)
  | inr number ↦
      subst IsDialable (some-injective _ _ (rw number at e))
        (keep-IsDialable (if is_international str then blank_zero str else str))
]

Digits-is_text : (str : List ℕ) → Digits str → is_text str ≡ false
unfolding is_text
Digits-is_text [] d = refl
Digits-is_text (c ∷ str) d = ground (arith, d.0, Digits-is_text str d.1)

Digits-blank_zero : (str : List ℕ) → Digits str → blank_zero str ≡ str
unfolding blank_zero zero_here
Digits-blank_zero [] d = refl
Digits-blank_zero (c ∷ str) d = ground (arith, d.0, Digits-blank_zero str d.1)

Digits-keep : (k : ℕ) (str : List ℕ) → Digits str → keep k str ≡ str
unfolding keep stays
Digits-keep k [] d = refl
Digits-keep k (c ∷ str) d = ground (arith, d.0, Digits-keep (suc k) str d.1)

-- A number that is clean already stays as it is, so cleaning twice changes nothing more.
IsDialable-clean_number : (str : List ℕ) → IsDialable str → clean_number str ≡ some str
unfolding clean_number is_text is_international blank_zero zero_here keep stays
IsDialable-clean_number [] d = refl
IsDialable-clean_number (c ∷ str) d =
    ground (arith, Digits-is_text str d.1, Digits-blank_zero str d.1, Digits-keep 1 str d.1)

-- A list that holds no opening bracket.
abbrev NoBracket : List ℕ → Type 0
NoBracket [] = Unit
NoBracket (c ∷ str) = (c ≢ b'(') × NoBracket str

zero_here_free : (c : ℕ) (str : List ℕ) → c ≢ b'(' → zero_here (c ∷ str) ≡ false
unfolding zero_here
zero_here_free c [] h = refl
zero_here_free c (x ∷ []) h = refl
zero_here_free c (x ∷ y ∷ []) h = refl
zero_here_free c (x ∷ y ∷ z ∷ str) h = ground arith

-- The number `p (0) c rest`, in which a blank or a digit follows the bracketed zero.
abbrev with_zero : List ℕ → ℕ → List ℕ → List ℕ
with_zero p c rest = p ++ (b'(' ∷ b'0' ∷ b')' ∷ c ∷ rest)

zero_here_bracket :
    (c : ℕ) (rest : List ℕ)
    → (c == b' ' || isdigit c) ≡ true
    → zero_here (with_zero [] c rest) ≡ true
unfolding zero_here
zero_here_bracket c rest h = h

blank_second_lem :
    (c : ℕ) (rest : List ℕ) → blank_second (with_zero [] c rest) ≡ b'(' ∷ b' ' ∷ b')' ∷ c ∷ rest
unfolding blank_second
blank_second_lem c rest = refl

blank_zero-with_zero :
    (p : List ℕ) (c : ℕ) (rest : List ℕ)
    → NoBracket p
    → (c == b' ' || isdigit c) ≡ true
    → blank_zero (with_zero p c rest) ≡ p ++ (b'(' ∷ b' ' ∷ b')' ∷ c ∷ rest)
unfolding blank_zero
blank_zero-with_zero [] c rest n h = rw (zero_here_bracket c rest h) (blank_second_lem c rest)
blank_zero-with_zero (x ∷ p) c rest n h =
    rw (zero_here_free x (with_zero p c rest) n.0) (rw (blank_zero-with_zero p c rest n.1 h))

keep_skip_nil : (k : ℕ) (rest : List ℕ) → keep k (b'(' ∷ b' ' ∷ b')' ∷ rest) ≡ keep k rest
unfolding keep stays
keep_skip_nil k rest = refl

keep_skip :
    (k : ℕ) (p rest : List ℕ) → keep k (p ++ (b'(' ∷ b' ' ∷ b')' ∷ rest)) ≡ keep k (p ++ rest)
unfolding keep
keep_skip k [] rest = keep_skip_nil k rest
keep_skip k (x ∷ p) rest = elim (Bool-cases (stays k x)) [
  | inl kept ↦ rw kept (ap (◌∷◌ x) (keep_skip (suc k) p rest))
  | inr skipped ↦ rw skipped (keep_skip k p rest)
]

-- The first zero in brackets that some write into an international number without letters is left
-- out, where a blank or a digit follows: the result is what the clean-up keeps of the number
-- without it.
clean_number-with_zero :
    (p : List ℕ) (c : ℕ) (rest : List ℕ)
    → NoBracket p
    → (c == b' ' || isdigit c) ≡ true
    → is_international (with_zero p c rest) ≡ true
    → is_text (with_zero p c rest) ≡ false
    → clean_number (with_zero p c rest) ≡ some (keep 0 (p ++ (c ∷ rest)))
unfolding clean_number
clean_number-with_zero p c rest n h int num =
    rw (num, int, blank_zero-with_zero p c rest n h) (ap some (keep_skip 0 p (c ∷ rest)))

-- Some character of the string is a letter or an `@`.
abbrev TextChar : List ℕ → Type 0
TextChar [] = ⊥
TextChar (c ∷ str) = ((isalpha c || c == b'@') ≡ true) ⊎ TextChar str

is_text-TextChar : (str : List ℕ) → (is_text str ≡ true) ↔ TextChar str
unfolding is_text
is_text-TextChar [] = (λ e. cc (e), λ t. absurd t)
is_text-TextChar (c ∷ str) =
    let ih = is_text-TextChar str in (λ e. ground (arith, ih.0), λ t. ground (arith, ih.1))

-- -1 is returned exactly for a string with a letter or an `@`.
clean_number_text : (str : List ℕ) → (clean_number str ≡ none) ↔ TextChar str
unfolding clean_number
clean_number_text str =
    (λ e. (is_text-TextChar str).0 (ground arith), λ t. rw ((is_text-TextChar str).1 t))
