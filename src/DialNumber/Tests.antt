-- ===== src/DialNumber/Tests.antt =====
-- src/dial_number.c on concrete numbers.
use Prim.Native.Char.{code}
use Prim.Native.String.{String}
use baresip.Prelude.{ℕ, ◌≡◌, refl, some, none, List, [], ◌∷◌}
use baresip.DialNumber.{
  is_text, zero_here, blank_second, blank_zero, is_international, stays, keep, clean_number,
}
use baresip.DialNumber.Clean.{IsDialable, clean_number-IsDialable}

abbrev bytes : String → List ℕ
bytes String.[] = []
bytes (String.◌∷◌ first rest) = code first ∷ bytes rest

numbers :
    (clean_number (bytes "+49 (0) 30-123") ≡ some (bytes "+4930123"))
    × (clean_number (bytes "0049 (0)30 1") ≡ some (bytes "0049301"))
    × (clean_number (bytes "(030) 12+3") ≡ some (bytes "030123"))
    × (clean_number (bytes "alice@example.org") ≡ none)
unfolding clean_number is_text is_international blank_zero blank_second zero_here keep stays
numbers = (refl, refl, refl, refl)

cleaned : clean_number (bytes "+49 30") ≡ some (bytes "+4930")
unfolding clean_number is_text is_international blank_zero blank_second zero_here keep stays
cleaned = refl

clean_number-IsDialable_example : IsDialable (bytes "+4930")
clean_number-IsDialable_example = clean_number-IsDialable (bytes "+49 30") cleaned
