-- ===== src/Account/Limits.antt =====
-- src/account.c: limits of the decoded parameters, and the end of the loops over codecs.
use baresip.Prelude.{
  ℕ, zero, suc, ◌+◌, ◌≤◌, ◌<◌, ◌≡◌, ◌⊎◌, inl, inr, refl, ◌∙◌, ap, sym, Option, none, some, List, [],
  ◌∷◌, leb, length, length-append, length-drop, Bool, false, ◌++◌, arith, if◌then◌else◌, Bool-cases,
  Option-cases,
}
use baresip.Account.{Str, Libre, CslMatch, Aucodec, Vidcodec}
use baresip.Account.Decode.{limit_rwait}
use baresip.Account.Codecs.{
  match_length, csl_parse, csl_loop, named_codec, add_codec, aucodec_loop, take_vidcodecs,
  vidcodec_loop,
}

module _ (libre : Libre) where
  -- The limited share is 0 or between 5 and 95 percent, and a limited one stays as it is.
  pub limit_rwait_bounds :
      (rwait : ℕ)
      → ((limit_rwait libre rwait ≡ 0)
          ⊎ ((5 ≤ limit_rwait libre rwait) × (limit_rwait libre rwait ≤ 95)))
        × (limit_rwait libre (limit_rwait libre rwait) ≡ limit_rwait libre rwait)
  unfolding limit_rwait
  limit_rwait_bounds rwait = ground arith

-- What `re_regex` promises of the pattern "[ \t]*[^, \t]+[ \t]*[,]*": the name has a character, and
-- the parts are parts of the text.
pub record Scans (libre : Libre) : Type 0 where
  pub has_name : (s : Str) (m : CslMatch) → libre.re_csl s ≡ some m → 0 < length m.val
  pub within : (s : Str) (m : CslMatch) → libre.re_csl s ≡ some m → match_length libre m ≤ length s

module _ (libre : Libre) (scans : Scans libre) where
  csl_parse-shrinks :
      (s name rest : Str) → csl_parse libre s ≡ some (name, rest) → length rest < length s
  unfolding csl_parse
  csl_parse-shrinks s name rest e = elim (Option-cases (libre.re_csl s)) [
    | inl unmatched ↦ absurd (ground (arith, e, unmatched))
    | inr (m, matched) ↦
        let some_name = scans.has_name s m matched in
        let inside = scans.within s m matched in
        let size = length-drop (match_length libre m) s in
        ground (arith, e, matched, some_name, inside, size)
  ]

module _ {ℓ} {A : Type ℓ} (libre : Libre) (step : Str → List A → List A × Bool) where
  -- A round of the loop, where a name is left, and where none is.
  csl_round :
      (fuel : ℕ) (pl cname rest : Str) (found : List A)
      → csl_parse libre pl ≡ some (cname, rest)
      → csl_loop libre step (suc fuel) pl found ≡ (
          if (step cname found).1
          then (step cname found).0
          else csl_loop libre step fuel rest (step cname found).0)
  unfolding csl_loop
  csl_round fuel pl cname rest found e = rw (e, csl_loop) refl

  csl_end :
      (fuel : ℕ) (pl : Str) (found : List A)
      → csl_parse libre pl ≡ none
      → csl_loop libre step fuel pl found ≡ found
  unfolding csl_loop
  csl_end zero pl found e = refl
  csl_end (suc fuel) pl found e = rw (e, csl_loop) refl

  csl_none : (pl : Str) (found : List A) → csl_loop libre step 0 pl found ≡ found
  unfolding csl_loop
  csl_none pl found = refl

  -- With fuel for each character the rounds left over change nothing.
  csl_same :
      (scans : Scans libre) (m n : ℕ) (pl : Str) (found : List A)
      → length pl ≤ m
      → length pl ≤ n
      → csl_loop libre step m pl found ≡ csl_loop libre step n pl found
  csl_same scans zero n pl found hm hn = elim (Option-cases (csl_parse libre pl)) [
    | inl e ↦ csl_end 0 pl found e ∙ sym (csl_end n pl found e)
    | inr ((cname, rest), e) ↦
        absurd (omega (arith, hm, csl_parse-shrinks libre scans pl cname rest e))
  ]
  csl_same scans (suc m) zero pl found hm hn = elim (Option-cases (csl_parse libre pl)) [
    | inl e ↦ csl_end (suc m) pl found e ∙ sym (csl_end 0 pl found e)
    | inr ((cname, rest), e) ↦
        absurd (omega (arith, hn, csl_parse-shrinks libre scans pl cname rest e))
  ]
  csl_same scans (suc m) (suc n) pl found hm hn = elim (Option-cases (csl_parse libre pl)) [
    | inl e ↦ csl_end (suc m) pl found e ∙ sym (csl_end (suc n) pl found e)
    | inr ((cname, rest), e) ↦
        let (found', full) = step cname found in
        let less = csl_parse-shrinks libre scans pl cname rest e in
        let later =
          csl_same scans m n rest found' (omega (arith, hm, less)) (omega (arith, hn, less)) in
        csl_round m pl cname rest found e
        ∙ (ap (λ l. if full then found' else l) later ∙ sym (csl_round n pl cname rest found e))
  ]

  -- A step that says when the places are full keeps the loop below the limit.
  csl_loop-bounded :
      (limit : ℕ)
      → (fits : (cname : Str) (found : List A)
          → length found < limit
          → (length (step cname found).0 ≤ limit)
            × ((step cname found).1 ≡ false → length (step cname found).0 < limit))
        (fuel : ℕ) (pl : Str) (found : List A)
      → length found < limit
      → length (csl_loop libre step fuel pl found) ≤ limit
  csl_loop-bounded limit fits zero pl found h = ground (arith, h, csl_none pl found)
  csl_loop-bounded limit fits (suc fuel) pl found h = elim (Option-cases (csl_parse libre pl)) [
    | inl e ↦ ground (arith, h, csl_end (suc fuel) pl found e)
    | inr ((cname, rest), e) ↦
        rw (csl_round fuel pl cname rest found e) elim (Bool-cases (step cname found).1) [
          | inl full ↦ rw full (fits cname found h).0
          | inr free ↦ rw free (
              csl_loop-bounded limit fits fuel rest (step cname found).0
                ((fits cname found h).1 free))
        ]
  ]

module _ (libre : Libre) where
  add_codec-fits :
      (o : Option Aucodec) (found : List Aucodec)
      → length found < 16
      → (length (add_codec libre found o).0 ≤ 16)
        × ((add_codec libre found o).1 ≡ false → length (add_codec libre found o).0 < 16)
  add_codec-fits none found h = (omega (arith, h), λ e. h)
  add_codec-fits (some ac) found h =
      let size = length-append found (ac ∷ []) in
      (omega (arith, h, size), λ e. ground (arith, size, e))

  take_vidcodecs-fits :
      (vcs : List Vidcodec) (cname : Str) (found : List Vidcodec)
      → length found < 8
      → (length (take_vidcodecs libre vcs cname found).0 ≤ 8)
        × ((take_vidcodecs libre vcs cname found).1 ≡ false
            → length (take_vidcodecs libre vcs cname found).0 < 8)
  unfolding take_vidcodecs
  take_vidcodecs-fits [] cname found h = (omega (arith, h), λ e. h)
  take_vidcodecs-fits (vc ∷ vcs) cname found h =
      let size = length-append found (vc ∷ []) in
      elim (Bool-cases (libre.strcasecmp cname vc.name)) [
        | inr other ↦ rw other (take_vidcodecs-fits vcs cname found h)
        | inl same ↦ elim (Bool-cases (leb 8 (length found + 1))) [
          | inl full ↦ rw (same, full) (omega (arith, h, size), λ e. absurd (cc (e)))
          | inr free ↦
              rw (same, free)
                (take_vidcodecs-fits vcs cname (found ++ (vc ∷ [])) (ground (arith, size, free)))
        ]
      ]

-- The list of audio codecs has at most 16 entries and the list of video codecs at most 8, which are
-- the sizes of the arrays behind them, and neither loop needs more rounds than the list of names
-- has characters, if `re_regex` finds names of at least one character inside of the text.
pub csl_loop-ends :
    (libre : Libre) (scans : Scans libre) (aucodecs : List Aucodec) (vidcodecs : List Vidcodec)
    (fuel : ℕ) (pl : Str)
    → length pl ≤ fuel
    → (length (aucodec_loop libre aucodecs fuel pl []) ≤ 16)
      × (aucodec_loop libre aucodecs fuel pl [] ≡ aucodec_loop libre aucodecs (length pl) pl [])
      × (length (vidcodec_loop libre vidcodecs fuel pl []) ≤ 8)
      × (vidcodec_loop libre vidcodecs fuel pl [] ≡ vidcodec_loop libre vidcodecs (length pl) pl [])
csl_loop-ends libre scans aucodecs vidcodecs fuel pl h =
    let audio : Str → List Aucodec → List Aucodec × Bool =
      λ cname found. add_codec libre found (named_codec libre aucodecs cname) in
    let video = take_vidcodecs libre vidcodecs in
    (
      csl_loop-bounded libre audio 16
          (λ cname found. add_codec-fits libre (named_codec libre aucodecs cname) found) fuel pl []
          (omega arith),
      csl_same libre audio scans fuel (length pl) pl [] h (omega arith),
      csl_loop-bounded libre video 8 (take_vidcodecs-fits libre vidcodecs) fuel pl [] (omega arith),
      csl_same libre video scans fuel (length pl) pl [] h (omega arith),
    )
