-- ===== src/Account/Tests.antt =====
-- src/account.c: words, lists of codecs and addresses.
use baresip.Prelude.{
  ℕ, suc, ◌+◌, ◌-◌, ◌==◌, ◌&&◌, ◌||◌, not, Bool, true, false, ◌++◌, length-append, subst, take, ◌≤◌,
  ◌<◌, ◌≡◌, refl, Option, none, some, [], ◌∷◌, arith, length, map,
}
use baresip.Call.{AnswerMode, DtmfMode}
use baresip.Call.Lines.{same_text}
use baresip.Account.{
  Str, Libre, CslMatch, Aucodec, Vidcodec, rel100_required, beep_on, beep_local, inreq_off,
}
use baresip.Account.Words.{
  answermode_str, rel100_mode_str, dtmfmode_str, sipansbeep_str, inreq_mode_str,
}
use baresip.Account.Decode.{answermode_of, rel100_of, beep_of, dtmfmode_of, inreq_of}
use baresip.Account.Codecs.{
  match_length, aucodec_loop, vidcodec_loop, csl_loop, csl_parse, named_codec, aucodec_find,
  take_vidcodecs,
}
use baresip.Account.Complete.{
  UriLibre, LocalUri, Reads, uri_complete, complete_trimmed, missing_domain, domain_of, uri_is_ip,
  cut_at, in_brackets, uri_complete_again,
}
use baresip.Account.Modes.{tolower, decode-str}
use baresip.Account.Limits.{Scans, csl_loop-ends}

-- The pattern for names, on characters from the start of the text.
abbrev is_ws : ℕ → Bool
is_ws c = (c == 32) || (c == 9)

abbrev is_cma : ℕ → Bool
is_cma c = c == b','

abbrev is_name : ℕ → Bool
is_name c = not (is_ws c || is_cma c)

abbrev more_if : Bool → ℕ → Str × Str → Str × Str
more_if true c (a, b) = (c ∷ a, b)
more_if false c (a, b) = ([], c ∷ (a ++ b))

abbrev span : (ℕ → Bool) → Str → Str × Str
span test [] = ([], [])
span test (c ∷ s) = more_if (test c) c (span test s)

length-more_if :
    (b : Bool) (c : ℕ) (p : Str × Str)
    → length (more_if b c p).0 + length (more_if b c p).1 ≡ suc (length p.0 + length p.1)
length-more_if true c (a, b) = omega arith
length-more_if false c (a, b) = omega (arith, length-append a b)

length-span :
    (test : ℕ → Bool) (s : Str) → length (span test s).0 + length (span test s).1 ≡ length s
length-span test [] = refl
length-span test (c ∷ s) =
    omega (arith, length-more_if (test c) c (span test s), length-span test s)

abbrev csl_parts : Str → CslMatch
csl_parts s =
    let ws = span is_ws s in
    let val = span is_name ws.1 in
    let ws2 = span is_ws val.1 in
    record { ws = ws.0; val = val.0; ws2 = ws2.0; cma = (span is_cma ws2.1).0 }

abbrev named : CslMatch → Str → Option CslMatch
named m [] = none
named m (c ∷ s) = some m

abbrev re_csl : Str → Option CslMatch
re_csl s = named (csl_parts s) (csl_parts s).val

named-some : (m m' : CslMatch) (v : Str) → named m v ≡ some m' → (m ≡ m') × (0 < length v)
named-some m m' [] e = absurd (cc (e))
named-some m m' (c ∷ s) e = (cc (e), omega arith)

abbrev libre : Libre
libre = record {
  strcasecmp = λ a b. same_text (map tolower a) (map tolower b);
  u32 = λ s. 0;
  bool = λ s. none;
  re_csl = re_csl;
  re_codec = λ s. none;
  pl_strcpy = λ s n. take (n - 1) s;
}

libre-Scans : Scans libre
libre-Scans = record {
  has_name = λ s m e.
      let (same, some_name) = named-some (csl_parts s) m (csl_parts s).val e in
      subst (λ m. 0 < length m.val) same some_name;
  within = λ s m e.
      let (same, _) = named-some (csl_parts s) m (csl_parts s).val e in
      let ws = span is_ws s in
      let val = span is_name ws.1 in
      let ws2 = span is_ws val.1 in
      subst (λ m. match_length libre m ≤ length s) same
        (omega (
          arith,
          length-span is_ws s,
          length-span is_name ws.1,
          length-span is_ws val.1,
          length-span is_cma ws2.1,
        ));
}

decode-str_example :
    (answermode_of libre (some (answermode_str AnswerMode.early_video)) ≡ AnswerMode.early_video)
    × (rel100_of libre (some (rel100_mode_str rel100_required)) ≡ rel100_required)
    × (beep_of libre beep_on (some (sipansbeep_str beep_local)) ≡ beep_local)
    × (dtmfmode_of libre DtmfMode.sip_info (some (dtmfmode_str DtmfMode.dtmf_auto))
        ≡ DtmfMode.dtmf_auto)
    × (inreq_of libre (some (inreq_mode_str inreq_off)) ≡ inreq_off)
decode-str_example =
    decode-str libre (λ a b. refl) AnswerMode.early_video rel100_required beep_local beep_on
      DtmfMode.dtmf_auto DtmfMode.sip_info inreq_off

-- "opus, pcmu" where PCMU is registered, in small letters, and a video codec that has the name
-- opus.
abbrev names : Str
names = b'o' ∷ b'p' ∷ b'u' ∷ b's' ∷ b',' ∷ b' ' ∷ b'p' ∷ b'c' ∷ b'm' ∷ b'u' ∷ []

abbrev pcmu : Aucodec
pcmu = record { name = b'P' ∷ b'C' ∷ b'M' ∷ b'U' ∷ []; srate = 8000; ch = 1 }

abbrev opus : Vidcodec
opus = record { name = b'o' ∷ b'p' ∷ b'u' ∷ b's' ∷ [] }

csl_loop-ends_example :
    (length (aucodec_loop libre (pcmu ∷ []) 40 names []) ≤ 16)
    × (aucodec_loop libre (pcmu ∷ []) 40 names []
        ≡ aucodec_loop libre (pcmu ∷ []) (length names) names [])
    × (length (vidcodec_loop libre (opus ∷ []) 40 names []) ≤ 8)
    × (vidcodec_loop libre (opus ∷ []) 40 names []
        ≡ vidcodec_loop libre (opus ∷ []) (length names) names [])
csl_loop-ends_example =
    csl_loop-ends libre libre-Scans (pcmu ∷ []) (opus ∷ []) 40 names (omega arith)

audio_names : aucodec_loop libre (pcmu ∷ []) 10 names [] ≡ pcmu ∷ []
unfolding csl_loop csl_parse named_codec aucodec_find
audio_names = refl

video_names : vidcodec_loop libre (opus ∷ []) 10 names [] ≡ opus ∷ []
unfolding csl_loop csl_parse take_vidcodecs
video_names = refl

-- Addresses that begin with "sip:" have it, nothing is trimmed, and there are no domains.
abbrev begins_sip : Str → Bool
begins_sip (a ∷ (b ∷ (c ∷ (d ∷ s)))) = (a == b's') && (b == b'i') && (c == b'p') && (d == b':')
begins_sip s = false

abbrev uri_libre : UriLibre
uri_libre = record {
  ltrim = λ s. some s;
  has_sip = begins_sip;
  has_domain = λ s. false;
  sa_decode = λ s. false;
  sa_set_str = λ s. false;
  print_port = λ n. n ∷ [];
}

uri_libre_reads : Reads uri_libre
uri_libre_reads = record {
  sip_found = λ s. refl;
  sip_kept = λ s. refl;
  trimmed_kept = λ s t e. refl;
  nil_without = refl;
}

abbrev local_uri : LocalUri
local_uri = record { is_ipv6 = false; host = 120 ∷ []; port = 5061 }

abbrev completed : Str
completed = 115 ∷ 105 ∷ 112 ∷ 58 ∷ 97 ∷ 64 ∷ 120 ∷ 58 ∷ 5061 ∷ []

uri_complete_again_example : uri_complete uri_libre none completed ≡ some completed
unfolding uri_complete complete_trimmed missing_domain domain_of uri_is_ip cut_at in_brackets
uri_complete_again_example =
    uri_complete_again uri_libre uri_libre_reads (some local_uri) none (97 ∷ []) completed refl
