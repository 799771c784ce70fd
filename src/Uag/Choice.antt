-- ===== src/Uag/Choice.antt =====
-- src/uag.c: which user agent a request is for, as a list of preferences.
use baresip.Prelude.{
  ◌≡◌, refl, Bool, true, false, ◌&&◌, ◌||◌, not, Option, none, some, List, [], ◌∷◌, arith,
  if◌then◌else◌,
}
use baresip.Ua.{Ua}
use baresip.Uag.Find.{
  Request, find_ua, or_else, registers, remember, find_registered, find_local, uag_find_msg,
  Verdict, passes, takes, remembers, judge, choose, uag_find_requri, uri_only_user,
  uri_user_and_host, uri_match_transport, uri_match_af, transp_none,
}

-- The local accounts that a request can be for, and those for a URI: transport and address family
-- fit.
abbrev pub is_local : Request → Ua → Bool
is_local req ua =
    not (registers ua)
    && uri_match_transport (req.luri ua) none req.tp req.cfg_transp
    && uri_match_af (req.luri ua) req.uri

abbrev pub is_local_to : Request → Ua → Bool
is_local_to req ua =
    not (registers ua)
    && uri_match_transport (req.luri ua) (some req.uri) transp_none req.cfg_transp
    && uri_match_af (req.luri ua) req.uri

found_registered :
    (ual : List Ua) (req : Request) (uaf : Option Ua)
    → (find_registered ual req uaf).0 ≡ find_ua (λ ua. registers ua && req.is_local_cuser ua) ual
unfolding find_registered find_ua
found_registered [] req uaf = refl
found_registered (ua ∷ ual) req uaf =
    ground (arith, found_registered ual req uaf, found_registered ual req (remember uaf ua))

found_local :
    (ual : List Ua) (req : Request) (uaf : Option Ua)
    → (find_local ual req uaf).0 ≡ find_ua (λ ua. is_local req ua && req.is_user ua) ual
unfolding find_local find_ua
found_local [] req uaf = refl
found_local (ua ∷ ual) req uaf =
    ground (arith, found_local ual req uaf, found_local ual req (remember uaf ua))

fallback_registered :
    (ual : List Ua) (req : Request) (uaf : Option Ua)
    → (find_registered ual req uaf).0 ≡ none
    → (find_registered ual req uaf).1
      ≡ or_else uaf (find_ua (λ ua. registers ua && ua.acc.catchall) ual)
unfolding find_registered find_ua
fallback_registered [] req none e = refl
fallback_registered [] req (some ua) e = refl
fallback_registered (ua ∷ ual) req none e =
    ground
      (arith, e, fallback_registered ual req none, fallback_registered ual req (remember none ua))
fallback_registered (ua ∷ ual) req (some u) e =
    ground (arith, e, fallback_registered ual req (some u))

fallback_local :
    (ual : List Ua) (req : Request) (uaf : Option Ua)
    → (find_local ual req uaf).0 ≡ none
    → (find_local ual req uaf).1
      ≡ or_else uaf (find_ua (λ ua. is_local req ua && ua.acc.catchall) ual)
unfolding find_local find_ua
fallback_local [] req none e = refl
fallback_local [] req (some ua) e = refl
fallback_local (ua ∷ ual) req none e =
    ground (arith, e, fallback_local ual req none, fallback_local ual req (remember none ua))
fallback_local (ua ∷ ual) req (some u) e = ground (arith, e, fallback_local ual req (some u))

-- The two loops of `uag_find_msg` choose by preference: the first account that registers and whose
-- contact user is meant; the first local account with that user whose transport and address family
-- fit; the first account that registers and catches all; the first fitting local account that
-- catches all.
pub uag_find_msg_prefers :
    (ual : List Ua) (req : Request)
    → uag_find_msg ual req
      ≡ or_else (find_ua (λ ua. registers ua && req.is_local_cuser ua) ual) (
          or_else (find_ua (λ ua. is_local req ua && req.is_user ua) ual) (
            or_else
              (find_ua (λ ua. registers ua && ua.acc.catchall) ual)
              (find_ua (λ ua. is_local req ua && ua.acc.catchall) ual)))
unfolding uag_find_msg
uag_find_msg_prefers ual req =
    let uaf = (find_registered ual req none).1 in
    ground (
      arith,
      found_registered ual req none,
      found_local ual req uaf,
      fallback_registered ual req none,
      fallback_local ual req uaf,
    )

-- An account that registers is there and fits the URI: any for a URI that is a user only, one of
-- the same host for a user at a host.
abbrev pub is_fitting : (Ua → Bool) → Request → Ua → Bool
is_fitting isregistered req ua =
    registers ua
    && isregistered ua
    && (uri_only_user req || (uri_user_and_host req && req.same_host ua))

abbrev is_taken : Verdict → Bool
is_taken passes = false
is_taken takes = true
is_taken remembers = false

judge_takes :
    (isregistered : Ua → Bool) (req : Request) (ua : Ua)
    → is_fitting isregistered req ua ≡ is_taken (judge isregistered req ua)
unfolding judge
judge_takes isregistered req ua = ground arith

abbrev is_remembered : Verdict → Bool
is_remembered passes = false
is_remembered takes = false
is_remembered remembers = true

judge_remembers :
    (isregistered : Ua → Bool) (req : Request) (ua : Ua)
    → is_local_to req ua ≡ is_remembered (judge isregistered req ua)
unfolding judge
judge_remembers isregistered req ua = ground arith

-- The loop of `uag_find_requri_pl` prefers the first fitting account that registers, then what it
-- remembers, then the first local account that fits.
choose_prefers :
    (isregistered : Ua → Bool) (ual : List Ua) (req : Request) (ret : Option Ua)
    → choose isregistered ual req ret
      ≡ or_else
          (find_ua (is_fitting isregistered req) ual)
          (or_else ret (find_ua (is_local_to req) ual))
unfolding choose find_ua
choose_prefers isregistered [] req none = refl
choose_prefers isregistered [] req (some u) = refl
choose_prefers isregistered (ua ∷ ual) req none = ground (
  arith,
  judge_takes isregistered req ua,
  judge_remembers isregistered req ua,
  choose_prefers isregistered ual req none,
  choose_prefers isregistered ual req (some ua),
)
choose_prefers isregistered (ua ∷ ual) req (some u) =
    ground (arith, judge_takes isregistered req ua, choose_prefers isregistered ual req (some u))

-- The loop of `uag_find_requri_pl` prefers the first account that is registered and fits, then the
-- first local account whose transport and address family fit; if there is none either, then any
-- URI but a mere user goes to the first agent.
pub uag_find_requri_prefers :
    (isregistered : Ua → Bool) (ua : Ua) (ual : List Ua) (req : Request)
    → uag_find_requri isregistered (ua ∷ ual) req
      ≡ or_else (find_ua (is_fitting isregistered req) (ua ∷ ual)) (
          or_else
            (find_ua (is_local_to req) (ua ∷ ual))
            (if uri_only_user req then none else some ua))
unfolding uag_find_requri
uag_find_requri_prefers isregistered ua ual req =
    ground (arith, choose_prefers isregistered (ua ∷ ual) req none)
