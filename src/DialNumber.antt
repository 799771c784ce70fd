-- ===== src/DialNumber.antt =====
-- src/dial_number.c: `clean_number`. A C string is the list of its characters up to the final NUL.
-- The code writes the kept characters to the front of the string that it reads; it never writes
-- behind the place that it reads, so the list of the kept characters is what it leaves.
pub mod Clean
mod Tests
use baresip.Prelude.{
  ℕ, zero, suc, ◌==◌, leb, ◌&&◌, ◌||◌, if◌then◌else◌, Bool, true, false, Option, none, some, List,
  [], ◌∷◌,
}

-- The C library's `isalpha` and `isdigit` on ASCII.
abbrev pub isalpha : ℕ → Bool
isalpha c = leb b'A' c && leb c b'Z' || leb b'a' c && leb c b'z'

abbrev pub isdigit : ℕ → Bool
isdigit c = leb b'0' c && leb c b'9'

-- The first loop: something else than a number, which is left to the user.
unfoldable pub is_text : List ℕ → Bool
is_text [] = false
is_text (c ∷ str) = isalpha c || (c == b'@' || is_text str)

-- Does the string begin with "(0)" and a blank or a digit?
unfoldable pub zero_here : List ℕ → Bool
zero_here (a ∷ b ∷ c ∷ d ∷ rest) =
    a == b'(' && (b == b'0' && (c == b')' && (d == b' ' || isdigit d)))
zero_here _ = false

-- The assignment `str[i + 1] = ' '`.
unfoldable pub blank_second : List ℕ → List ℕ
blank_second (a ∷ b ∷ rest) = a ∷ b' ' ∷ rest
blank_second str = str

-- The second loop: the first "(0)" loses its zero, and the loop ends.
unfoldable pub blank_zero : List ℕ → List ℕ
blank_zero [] = []
blank_zero (c ∷ str) = if zero_here (c ∷ str) then blank_second (c ∷ str) else c ∷ blank_zero str

-- Its guard: an international number, `+` or `00`.
unfoldable pub is_international : List ℕ → Bool
is_international [] = false
is_international (a ∷ []) = a == b'+'
is_international (a ∷ b ∷ str) = a == b'+' || (a == b'0' && b == b'0')

-- The test of the third loop: a digit, or a `+` if nothing was kept so far.
unfoldable pub stays : ℕ → ℕ → Bool
stays k c = c == b'+' && k == 0 || isdigit c

-- The third loop; `k` characters are kept so far.
unfoldable pub keep : ℕ → List ℕ → List ℕ
keep k [] = []
keep k (c ∷ str) =
    let rest = keep (if stays k c then suc k else k) str in if stays k c then c ∷ rest else rest

-- `clean_number`: `none` for -1, and the string that is left. Its length is the value returned.
unfoldable pub clean_number : List ℕ → Option (List ℕ)
clean_number str =
    if is_text str
    then none
    else some (keep 0 (if is_international str then blank_zero str else str))
