-- ===== src/Ua.antt =====
-- src/ua.c: a user agent, with its registration clients and its calls.
-- A call is known by its place in the list of calls. The strings that are built for a registration
-- (the URI and the parameters) are taken to fit.
use baresip.Prelude.{
  ℕ, zero, suc, ◌+◌, Bool, true, false, ◌&&◌, ◌||◌, not, Option, none, some, List, [], ◌∷◌, ◌++◌,
  ◌==◌, ltb, length, if◌then◌else◌, get_elem?, set,
}
use baresip.Reg.{
  Reg, Account, Outside, Str, reg_add, reg_register, reg_stop, reg_unregister, reg_isok, reg_failed,
}
use baresip.Call.{Call}
use baresip.Call.Lines.{same_text}
pub mod Calls
pub mod Register
mod Tests

-- The parameters of the account that a user agent reads.
pub record UaAccount : Type 0 where
  pub client : Account
  pub regint : ℕ
  pub outbound : Bool
  pub outboundv : List (Option Str)
  pub rel100 : Bool
  pub check_origin : Bool
  pub inreq_allowed : Bool
  pub catchall : Bool
  pub aor : Str
  pub user : Str
  pub host : Str

-- The events that a user agent emits for its registration, and the end of a call.
pub data UaEvent : Type 0 where
  registering unregistering register_fail fallback_fail call_closed : UaEvent

-- `struct ua`, with its events so far, the last one first.
pub record Ua : Type 0 where
  pub acc : UaAccount
  pub regl : List Reg
  pub calls : List Call
  pub extensionv : List Str
  pub cuser : Str
  pub log : List UaEvent

abbrev max_extensions : ℕ
max_extensions = 8

-- `ua_add_extension`.
unfoldable pub ua_add_extension : Ua → Str → Ua
ua_add_extension ua ext = record ua {
  extensionv =
      if ltb (length ua.extensionv) max_extensions
      then ua.extensionv ++ (ext ∷ [])
      else ua.extensionv;
}

-- `ua_remove_extension`: the first one that is equal.
unfoldable pub without : List Str → Str → List Str
without [] ext = []
without (e ∷ exts) ext = let rest = without exts ext in if same_text e ext then exts else e ∷ rest

unfoldable ua_remove_extension : Ua → Str → Ua
ua_remove_extension ua ext = record ua { extensionv = without ua.extensionv ext }

abbrev gruu : Str
gruu = b'g' ∷ b'r' ∷ b'u' ∷ b'u' ∷ []

abbrev path : Str
path = b'p' ∷ b'a' ∷ b't' ∷ b'h' ∷ []

abbrev outbound_ext : Str
outbound_ext = b'o' ∷ b'u' ∷ b't' ∷ b'b' ∷ b'o' ∷ b'u' ∷ b'n' ∷ b'd' ∷ []

abbrev replaces_ext : Str
replaces_ext = b'r' ∷ b'e' ∷ b'p' ∷ b'l' ∷ b'a' ∷ b'c' ∷ b'e' ∷ b's' ∷ []

abbrev norefersub : Str
norefersub = b'n' ∷ b'o' ∷ b'r' ∷ b'e' ∷ b'f' ∷ b'e' ∷ b'r' ∷ b's' ∷ b'u' ∷ b'b' ∷ []

abbrev rel100_ext : Str
rel100_ext = b'1' ∷ b'0' ∷ b'0' ∷ b'r' ∷ b'e' ∷ b'l' ∷ []

-- `create_register_clients`: one client for each outbound proxy, from `i` on; memory is there.
unfoldable pub outbound_clients : List (Option Str) → ℕ → List Reg → List Reg
outbound_clients [] i regl = regl
outbound_clients (none ∷ obs) i regl = outbound_clients obs (i + 1) regl
outbound_clients (some ob ∷ obs) i regl =
    outbound_clients obs (i + 1) ((reg_add regl (i + 1) true).0)

abbrev pub when : Bool → Ua → Str → Ua
when b ua ext = if b then ua_add_extension ua ext else ua

unfoldable pub add_clients : Ua → Ua
add_clients ua = record ua {
  regl =
      if ua.acc.regint == 0
      then ua.regl
      else if ua.acc.outbound
      then outbound_clients ua.acc.outboundv 0 ua.regl
      else (reg_add ua.regl 0 true).0;
}

-- An outbound account needs a UUID.
unfoldable pub create_register_clients : Ua → Bool → Ua
create_register_clients ua has_uuid =
    let named = when has_uuid ua gruu in
    let routed = when named.acc.outbound (when named.acc.outbound named path) outbound_ext in
    let added = add_clients routed in
    let extended = ua_add_extension (ua_add_extension added replaces_ext) norefersub in
    if ua.acc.outbound && not has_uuid then routed else when ua.acc.rel100 extended rel100_ext

-- The loop of `start_register`: it ends at the first client that fails. `outs` is what libre
-- answers to the client at each place.
unfoldable pub register_all : List Reg → Account → (ℕ → Outside) → ℕ → ℕ → List Reg × ℕ
register_all [] acc outs regint i = ([], 0)
register_all (reg ∷ regl) acc outs regint i =
    let (reg', err) = reg_register reg (some acc) (outs i) regint in
    let (rest, err') = register_all regl acc outs regint (i + 1) in
    if err == 0 then (reg' ∷ rest, err') else (reg' ∷ regl, err)

abbrev pub is_empty {ℓ} : {A : Type ℓ} → List A → Bool
is_empty [] = true
is_empty (x ∷ xs) = false

-- `start_register` with the clients there.
unfoldable pub register_clients : Ua → (ℕ → Outside) → Bool → Ua × ℕ
register_clients ua outs fallback =
    let started : Ua = record ua {
      log = if fallback || is_empty ua.regl then ua.log else registering ∷ ua.log;
    } in
    let (regl, err) =
      register_all ua.regl ua.acc.client outs (if fallback then 0 else ua.acc.regint) 0 in
    let failed : UaEvent = if fallback then fallback_fail else register_fail in
    (
      record started { regl = regl; log = if err == 0 then started.log else failed ∷ started.log },
      err,
    )

-- `start_register`.
unfoldable pub start_register : Ua → Bool → (ℕ → Outside) → Bool → Ua × ℕ
start_register ua has_uuid outs fallback =
    let created = if is_empty ua.regl then create_register_clients ua has_uuid else ua in
    if ua.acc.regint == 0 then (ua, 0) else register_clients created outs fallback

-- `ua_register`, `ua_fallback`.
unfoldable pub ua_register : Ua → Bool → (ℕ → Outside) → Ua × ℕ
ua_register ua has_uuid outs = start_register ua has_uuid outs false

unfoldable pub ua_fallback : Ua → Bool → (ℕ → Outside) → Ua × ℕ
ua_fallback ua has_uuid outs =
    if ua.acc.client.fbregint == 0 then (ua, 0) else start_register ua has_uuid outs true

unfoldable pub each_reg : (Reg → Reg) → List Reg → List Reg
each_reg f [] = []
each_reg f (reg ∷ regl) = f reg ∷ each_reg f regl

unfoldable any_reg : (Reg → Bool) → List Reg → Bool
any_reg test [] = false
any_reg test (reg ∷ regl) = test reg || any_reg test regl

-- `ua_stop_register`, `ua_unregister`.
unfoldable pub ua_stop_register : Ua → Ua
ua_stop_register ua = record ua {
  regl = each_reg reg_stop ua.regl;
  log = if is_empty ua.regl then ua.log else unregistering ∷ ua.log;
}

unfoldable ua_unregister : Ua → Ua
ua_unregister ua = record ua {
  regl = each_reg reg_unregister ua.regl;
  log = if is_empty ua.regl then ua.log else unregistering ∷ ua.log;
}

module _ (registered : ℕ → Bool) (failed : ℕ → Bool) where
  -- `ua_isregistered`: one of the clients is.
  unfoldable pub any_ok : List Reg → Bool
  any_ok [] = false
  any_ok (reg ∷ regl) = reg_isok registered failed reg || any_ok regl

  unfoldable pub ua_isregistered : Ua → Bool
  ua_isregistered ua = any_ok ua.regl

  -- `ua_regfailed`: all of the clients have.
  unfoldable pub all_failed : List Reg → Bool
  all_failed [] = true
  all_failed (reg ∷ regl) = reg_failed registered failed reg && all_failed regl

  unfoldable pub ua_regfailed : Ua → Bool
  ua_regfailed ua = all_failed ua.regl

-- `ua_req_check_origin`: `filtered` says whether the filter is on for the transport, `same_addr`
-- is libre's comparison of a client's server with the source of the request.
unfoldable ua_req_check_origin : Ua → Bool → (Reg → Bool) → Bool
ua_req_check_origin ua filtered same_addr =
    if not filtered
    then true
    else if not ua.acc.check_origin
    then true
    else any_reg same_addr ua.regl
