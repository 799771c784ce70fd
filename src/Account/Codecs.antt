-- ===== src/Account/Codecs.antt =====
-- src/account.c: the lists of codecs; src/aucodec.c: the search for an audio codec.
use baresip.Prelude.{
  ℕ, zero, suc, ◌+◌, ◌^◌, ◌%◌, ◌==◌, Bool, true, false, ◌&&◌, not, Option, none, some, List, [],
  ◌∷◌, ◌++◌, leb, length, drop, if◌then◌else◌,
}
use baresip.Account.{
  Str, Params, Exists, Libre, CslMatch, Aucodec, Vidcodec, Account, n_audio_codecs, n_video_codecs,
}

module _ (libre : Libre) where
  -- `csl_parse`: the next name of the list, in a buffer of 64 characters, and what follows.
  abbrev pub match_length : CslMatch → ℕ
  match_length m = length m.ws + length m.val + length m.ws2 + length m.cma

  unfoldable pub csl_parse : Str → Option (Str × Str)
  csl_parse pl = elim (libre.re_csl pl) [
    | none ↦ none
    | some m ↦ some (libre.pl_strcpy m.val 64, drop (match_length m) pl)
  ]

  -- The loop over the names of a list, on fuel. `step` is what is done with a name and the codecs
  -- that were found, and says whether their places are full.
  unfoldable pub csl_loop {ℓ} :
      {A : Type ℓ} → (Str → List A → List A × Bool) → ℕ → Str → List A → List A
  csl_loop step zero pl found = found
  csl_loop step (suc fuel) pl found = elim (csl_parse pl) [
    | none ↦ found
    | some (cname, rest) ↦
        let (found', full) = step cname found in
        let more = csl_loop step fuel rest found' in if full then found' else more
  ]

  -- `aucodec_find` of a name; 0 stands for any rate and any number of channels.
  unfoldable pub aucodec_find : List Aucodec → Str → ℕ → ℕ → Option Aucodec
  aucodec_find [] name srate ch = none
  aucodec_find (ac ∷ aucodecl) name srate ch =
      let next = aucodec_find aucodecl name srate ch in
      if not (libre.strcasecmp name ac.name)
      then next
      else if not (srate == 0) && not (srate == ac.srate)
      then next
      else if not (ch == 0) && not (ch == ac.ch)
      then next
      else some ac

  -- The codec that a name is for, which may be "codec/srate/ch"; the channels are a `uint8_t`.
  abbrev pub channels : Str → ℕ
  channels [] = 1
  channels (c ∷ s) = libre.u32 (c ∷ s) % 2 ^ 8

  unfoldable pub named_codec : List Aucodec → Str → Option Aucodec
  named_codec aucodecl cname = elim (libre.re_codec cname) [
    | none ↦ aucodec_find aucodecl cname 8000 1
    | some m ↦ aucodec_find aucodecl (libre.pl_strcpy m.name 64) (libre.u32 m.srate) (channels m.ch)
  ]

  -- `audio_codecs_decode`: a codec that is not registered is passed over. Each round takes at least
  -- one character, so the length is fuel enough.
  abbrev pub max_aucodecs : ℕ
  max_aucodecs = 16

  abbrev pub add_codec : List Aucodec → Option Aucodec → List Aucodec × Bool
  add_codec found none = (found, false)
  add_codec found (some ac) = (found ++ (ac ∷ []), leb max_aucodecs (length found + 1))

  abbrev pub aucodec_loop : List Aucodec → ℕ → Str → List Aucodec → List Aucodec
  aucodec_loop aucodecl = csl_loop (λ cname found. add_codec found (named_codec aucodecl cname))

  unfoldable pub audio_codecs_decode : List Aucodec → Account → Params → Exists → Account
  audio_codecs_decode aucodecl acc prm exists = record acc {
    aucodecl =
        if exists n_audio_codecs
        then elim (prm n_audio_codecs) [
          | none ↦ []
          | some acs ↦ aucodec_loop aucodecl (length acs) acs []
        ]
        else [];
  }

  -- The inner loop of `video_codecs_decode`: all registered codecs of a name are taken.
  abbrev pub max_vidcodecs : ℕ
  max_vidcodecs = 8

  unfoldable pub take_vidcodecs : List Vidcodec → Str → List Vidcodec → List Vidcodec × Bool
  take_vidcodecs [] cname found = (found, false)
  take_vidcodecs (vc ∷ vcs) cname found =
      let next = take_vidcodecs vcs cname found in
      let more = take_vidcodecs vcs cname (found ++ (vc ∷ [])) in
      if not (libre.strcasecmp cname vc.name)
      then next
      else if leb max_vidcodecs (length found + 1)
      then (found ++ (vc ∷ []), true)
      else more

  abbrev pub vidcodec_loop : List Vidcodec → ℕ → Str → List Vidcodec → List Vidcodec
  vidcodec_loop vidcodecl = csl_loop (take_vidcodecs vidcodecl)

  -- `video_codecs_decode`: where the parameter is there, video is enabled exactly if a codec is
  -- found.
  abbrev pub has_codec : List Vidcodec → Bool
  has_codec [] = false
  has_codec (x ∷ xs) = true

  unfoldable pub video_codecs_decode : List Vidcodec → Account → Params → Exists → Account
  video_codecs_decode vidcodecl acc prm exists =
      let found : List Vidcodec = elim (prm n_video_codecs) [
        | none ↦ []
        | some vcs ↦ vidcodec_loop vidcodecl (length vcs) vcs []
      ] in
      if exists n_video_codecs
      then record acc { vidcodecl = found; videoen = has_codec found }
      else record acc { vidcodecl = [] }
