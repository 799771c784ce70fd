-- ===== src/Account/Complete.antt =====
-- src/account.c: completing what the user dials to a SIP URI, `account_uri_complete_strdup`. Memory
-- is there.
use baresip.Prelude.{
  ℕ, ◌≡◌, refl, subst, Bool, true, false, ◌&&◌, ◌||◌, Option, none, some, [], ◌∷◌, ◌++◌, ◌==◌,
  arith, if◌then◌else◌, Bool-cases, Option-cases, inl, inr,
}
use baresip.Account.{Str}

-- What is taken from libre: dropping leading blanks, the searches for "sip:" and for a user at a
-- host, the two readings of an address, and a printed port.
pub record UriLibre : Type 0 where
  pub ltrim : Str → Option Str
  pub has_sip : Str → Bool
  pub has_domain : Str → Bool
  pub sa_decode : Str → Bool
  pub sa_set_str : Str → Bool
  pub print_port : ℕ → Str

-- The parts of the account's own URI that are appended.
pub record LocalUri : Type 0 where
  pub is_ipv6 : Bool
  pub host : Str
  pub port : ℕ

abbrev pub sip : Str
sip = b's' ∷ b'i' ∷ b'p' ∷ b':' ∷ []

abbrev is_nil : Str → Bool
is_nil [] = true
is_nil (c ∷ s) = false

-- The string up to a character, and whether it is there.
unfoldable pub cut_at : ℕ → Str → Str
cut_at c [] = []
cut_at c (x ∷ s) = let rest = cut_at c s in if x == c then [] else x ∷ rest

unfoldable pub has_char : ℕ → Str → Bool
has_char c [] = false
has_char c (x ∷ s) = (x == c) || has_char c s

-- The port is appended if it is set and not 5060.
unfoldable pub domain_of : (ℕ → Str) → LocalUri → Str
domain_of print_port luri =
    let named = if luri.is_ipv6 then b'[' ∷ (luri.host ++ (b']' ∷ [])) else luri.host in
    b'@'
    ∷ (if luri.port == 0 || luri.port == 5060
        then named
        else named ++ (b':' ∷ print_port luri.port))

module _ (libre : UriLibre) where
  -- Is it an address, perhaps in brackets? The scheme is missing here, so the code's skip over it
  -- has no counterpart.
  unfoldable pub in_brackets : Str → Bool
  in_brackets [] = false
  in_brackets (c ∷ host) = (c == b'[') && has_char b']' host && libre.sa_set_str (cut_at b']' host)

  unfoldable pub uri_is_ip : Str → Bool
  uri_is_ip trimmed =
      let host = cut_at b';' trimmed in
      libre.sa_decode host || libre.sa_set_str host || in_brackets host

  unfoldable pub missing_domain : Option LocalUri → Str → Str
  missing_domain none trimmed = []
  missing_domain (some luri) trimmed =
      if uri_is_ip trimmed || libre.has_domain trimmed then [] else domain_of libre.print_port luri

  unfoldable pub complete_trimmed : Option LocalUri → Str → Str
  complete_trimmed acc trimmed =
      if libre.has_sip trimmed then trimmed else sip ++ (trimmed ++ missing_domain acc trimmed)

  -- `account_uri_complete_strdup`.
  unfoldable pub uri_complete : Option LocalUri → Str → Option Str
  uri_complete acc uri =
      let completed : Option Str = elim (libre.ltrim uri) [
        | none ↦ none
        | some trimmed ↦ some (complete_trimmed acc trimmed)
      ] in
      if is_nil uri then none else completed

  -- What libre's functions are relied on for: a URI that begins with "sip:" has it and nothing to
  -- trim, nothing is left to trim after trimming, and the empty string has no "sip:".
  pub record Reads : Type 0 where
    pub sip_found : (s : Str) → libre.has_sip (sip ++ s) ≡ true
    pub sip_kept : (s : Str) → libre.ltrim (sip ++ s) ≡ some (sip ++ s)
    pub trimmed_kept : (s t : Str) → libre.ltrim s ≡ some t → libre.ltrim t ≡ some t
    pub nil_without : libre.has_sip [] ≡ false

  -- The result of trimming and completing is not empty, keeps when it is trimmed, and has "sip:".
  complete_whole :
      (law : Reads) (acc : Option LocalUri) (s t : Str)
      → libre.ltrim s ≡ some t
      → let u = complete_trimmed acc t in
        (libre.ltrim u ≡ some u) × (libre.has_sip u ≡ true) × (is_nil u ≡ false)
  unfolding complete_trimmed
  complete_whole law acc s [] e = rw law.nil_without (law.sip_kept _, law.sip_found _, refl)
  complete_whole law acc s (c ∷ t) e = elim (Bool-cases (libre.has_sip (c ∷ t))) [
    | inl whole ↦ rw whole (law.trimmed_kept s (c ∷ t) e, whole, refl)
    | inr bare ↦ rw bare (law.sip_kept _, law.sip_found _, refl)
  ]

  first_result :
      (acc : Option LocalUri) (uri t u : Str)
      → libre.ltrim uri ≡ some t
      → uri_complete acc uri ≡ some u
      → complete_trimmed acc t ≡ u
  unfolding uri_complete
  first_result acc uri t u trims e = ground (arith, trims, e)

  whole_result :
      (acc : Option LocalUri) (u : Str)
      → libre.ltrim u ≡ some u
      → libre.has_sip u ≡ true
      → is_nil u ≡ false
      → uri_complete acc u ≡ some u
  unfolding uri_complete complete_trimmed
  whole_result acc u keeps has filled = ground (arith, keeps, has, filled)

  -- A completed URI is complete: completing it again, for whatever account, leaves it as it is.
  pub uri_complete_again :
      (law : Reads) (acc acc' : Option LocalUri) (uri u : Str)
      → uri_complete acc uri ≡ some u
      → uri_complete acc' u ≡ some u
  unfolding uri_complete
  uri_complete_again law acc acc' uri u e = elim (Option-cases (libre.ltrim uri)) [
    | inl fails ↦ absurd (ground (arith, e, fails))
    | inr (t, trims) ↦
        let same : complete_trimmed acc t ≡ u = first_result acc uri t u trims e in
        let (keeps, has, filled) = complete_whole law acc uri t trims in
        subst (λ v. uri_complete acc' v ≡ some v) same
          (whole_result acc' (complete_trimmed acc t) keeps has filled)
  ]
