-- ===== src/Uag/Find.antt =====
-- src/uag.c: which user agent a request or a URI is for, and the handler of requests outside of a
-- dialog.
use baresip.Prelude.{
  ℕ, Bool, true, false, ◌&&◌, ◌||◌, not, Option, none, some, List, [], ◌∷◌, ◌==◌, ◌^◌, ◌-◌,
  if◌then◌else◌,
}
use baresip.Call.Lines.{same_text}
use baresip.Ua.{Ua, is_empty}

-- The loops that look for an agent.
unfoldable pub find_ua : (Ua → Bool) → List Ua → Option Ua
find_ua test [] = none
find_ua test (ua ∷ ual) = let later = find_ua test ual in if test ua then some ua else later

abbrev pub or_else {ℓ} : {A : Type ℓ} → Option A → Option A → Option A
or_else none other = other
or_else (some a) other = some a

-- `uag_find_aor`: any agent for no address.
unfoldable uag_find_aor : List Ua → List ℕ → Option Ua
uag_find_aor ual aor = find_ua (λ ua. is_empty aor || same_text ua.acc.aor aor) ual

-- What libre reads of a URI: the address family of the host, the transport that is given, whether
-- the host can be read as an address, and whether that one is link-local.
pub data Af : Type 0 where
  unspec inet inet6 : Af

pub record Uri : Type 0 where
  pub af : Af
  pub transport : Option ℕ
  pub sa_set : Bool
  pub linklocal : Bool

-- `uri_match_transport`; without a peer's URI the transport of the message counts, and the
-- configured one where the peer's URI gives none.
unfoldable pub uri_match_transport : Uri → Option Uri → ℕ → ℕ → Bool
uri_match_transport accu peeru tp cfg = elim accu.transport [
  | none ↦ true
  | some tpa ↦ elim peeru [
    | none ↦ tpa == tp
    | some u ↦ elim u.transport [ none ↦ tpa == cfg | some t ↦ tpa == t ]
  ]
]

-- `uri_match_af`.
unfoldable pub match_linklocal : Uri → Uri → Bool
match_linklocal accu peeru =
    if not (accu.sa_set && peeru.sa_set)
    then false
    else if accu.linklocal
    then peeru.linklocal
    else not peeru.linklocal

abbrev pub match_families : Af → Af → Bool → Bool
match_families a unspec both_v6 = true
match_families unspec inet both_v6 = true
match_families unspec inet6 both_v6 = true
match_families inet inet both_v6 = true
match_families inet inet6 both_v6 = false
match_families inet6 inet both_v6 = false
match_families inet6 inet6 both_v6 = both_v6

unfoldable pub uri_match_af : Uri → Uri → Bool
uri_match_af accu peeru = match_families accu.af peeru.af (match_linklocal accu peeru)

-- What comes from libre for one request or URI: the comparisons of the user part with an agent's
-- contact user, local contact user and account, and of the host with that of the account, what is
-- read of the account's local URI, of the URI itself and of the message, and what the URI has.
-- `cfg_transp` is the configured transport.
pub record Request : Type 0 where
  pub is_cuser : Ua → Bool
  pub is_local_cuser : Ua → Bool
  pub is_user : Ua → Bool
  pub luri : Ua → Uri
  pub uri : Uri
  pub tp : ℕ
  pub cfg_transp : ℕ
  pub same_host : Ua → Bool
  pub host_set : Bool
  pub user_set : Bool
  pub host_is_ip : Bool

-- `uag_find`: by the contact user, by the account's user, and then any agent that catches all.
unfoldable uag_find : List Ua → Request → Option Ua
uag_find ual req =
    or_else (find_ua req.is_cuser ual)
      (or_else (find_ua req.is_user ual) (find_ua (λ ua. ua.acc.catchall) ual))

abbrev pub registers : Ua → Bool
registers ua = not (ua.acc.regint == 0)

-- `uag_find_msg`: the two loops, with the fallback agent that they remember.
abbrev pub remember : Option Ua → Ua → Option Ua
remember none ua = if ua.acc.catchall then some ua else none
remember (some uaf) ua = some uaf

unfoldable pub find_registered : List Ua → Request → Option Ua → Option Ua × Option Ua
find_registered [] req uaf = (none, uaf)
find_registered (ua ∷ ual) req uaf =
    let next = find_registered ual req uaf in
    let noted = find_registered ual req (remember uaf ua) in
    if not (registers ua) then next else if req.is_local_cuser ua then (some ua, uaf) else noted

unfoldable pub find_local : List Ua → Request → Option Ua → Option Ua × Option Ua
find_local [] req uaf = (none, uaf)
find_local (ua ∷ ual) req uaf =
    let next = find_local ual req uaf in
    let noted = find_local ual req (remember uaf ua) in
    if registers ua
      || not (uri_match_transport (req.luri ua) none req.tp req.cfg_transp)
      || not (uri_match_af (req.luri ua) req.uri)
    then next
    else if req.is_user ua
    then (some ua, uaf)
    else noted

unfoldable pub uag_find_msg : List Ua → Request → Option Ua
uag_find_msg ual req =
    let (found, uaf) = find_registered ual req none in
    let (found', uaf') = find_local ual req uaf in or_else found (or_else found' uaf')

-- `uri_only_user`, `uri_user_and_host`.
abbrev pub uri_only_user : Request → Bool
uri_only_user req = req.host_set && not req.user_set && not req.host_is_ip

abbrev pub uri_user_and_host : Request → Bool
uri_user_and_host req = req.host_set && req.user_set

-- `SIP_TRANSP_NONE` is -1; it is not looked at beside a peer's URI.
abbrev pub transp_none : ℕ
transp_none = 2 ^ 32 - 1

-- What the loop of `uag_find_requri_pl` does with an agent: `continue`, `break` with it, or
-- remember it as a local account.
pub data Verdict : Type 0 where
  passes takes remembers : Verdict

unfoldable pub judge : (Ua → Bool) → Request → Ua → Verdict
judge isregistered req ua =
    if registers ua && not (isregistered ua)
    then passes
    else if uri_only_user req && registers ua
    then takes
    else if uri_user_and_host req && registers ua
    then (if req.same_host ua then takes else passes)
    else if registers ua
        || not (uri_match_transport (req.luri ua) (some req.uri) transp_none req.cfg_transp)
        || not (uri_match_af (req.luri ua) req.uri)
    then passes
    else remembers

-- The loop, with the local account that it remembers.
unfoldable pub choose : (Ua → Bool) → List Ua → Request → Option Ua → Option Ua
choose isregistered [] req ret = ret
choose isregistered (ua ∷ ual) req ret =
    let next = choose isregistered ual req ret in
    let noted = choose isregistered ual req (or_else ret (some ua)) in
    elim (judge isregistered req ua) [ passes ↦ next | takes ↦ some ua | remembers ↦ noted ]

-- `uag_find_requri_pl` of a URI that can be completed and parsed.
unfoldable pub uag_find_requri : (Ua → Bool) → List Ua → Request → Option Ua
uag_find_requri isregistered [] req = none
uag_find_requri isregistered (ua ∷ ual) req =
    or_else (choose isregistered (ua ∷ ual) req none) (if uri_only_user req then none else some ua)

-- `request_handler`: what becomes of a request outside of a dialog.
pub data Method : Type 0 where
  options refer other_method : Method

pub data Answer : Type 0 where
  not_handled : Answer
  replies : ℕ → Answer
  handles_options handles_refer : Ua → Answer

unfoldable pub request_handler : List Ua → Request → Method → Bool → (Ua → Bool) → Answer
request_handler ual req other_method has_to_tag origin_ok = not_handled
request_handler ual req options has_to_tag origin_ok = elim (uag_find_msg ual req) [
  | none ↦ replies 404
  | some ua ↦ if origin_ok ua then handles_options ua else replies 403
]
request_handler ual req refer has_to_tag origin_ok = elim (uag_find_msg ual req) [
  | none ↦ replies 404
  | some ua ↦
      if not (origin_ok ua)
      then replies 403
      else if has_to_tag
      then not_handled
      else handles_refer ua
]
