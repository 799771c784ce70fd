-- ===== src/Ua/Tests.antt =====
-- src/ua.c: a user agent with two clients, the second of which fails.
use baresip.Prelude.{
  ℕ, ◌≡◌, ◌≢◌, ◌⊎◌, refl, true, false, none, some, [], ◌∷◌, arith, ◌==◌, if◌then◌else◌,
}
use baresip.Reg.{Reg, Account, Outside, reg_register, start_client, configure, source_port}
use baresip.Ua.{Ua, register_all, register_clients, start_register, ua_isregistered}
use baresip.Ua.Register.{
  AllAsk, AllSent, StopsAtFailure, register_all-asks, isregistered-start_register,
}

abbrev account : Account
account = record { rwait = 0; fbregint = 0; tcpsrcport = 0 }

abbrev client : Reg
client = record {
  sipreg = some 7;
  id = 1;
  regint = 600;
  paddr = 0;
  scode = 200;
  srv = none;
  af = 0;
  calls = [];
}

abbrev sending : Outside
sending = record {
  failed = false;
  alloc = 0;
  client = 8;
  set_rwait = 0;
  set_fbregint = 0;
  send = 0;
}

abbrev failing : Outside
failing = record sending { send = 5 }

abbrev one_fails : ℕ → Outside
one_fails i = if i == 1 then failing else sending

register_all-asks_example :
    let (regl', err) = register_all (client ∷ client ∷ client ∷ []) account one_fails 600 0 in
    ((err ≡ 0)
      × AllAsk 600 regl'
      × AllSent account one_fails 600 0 (client ∷ client ∷ client ∷ []) regl')
    ⊎ ((err ≢ 0) × StopsAtFailure account one_fails 600 0 (client ∷ client ∷ client ∷ []) regl' err)
register_all-asks_example =
    register_all-asks (client ∷ client ∷ client ∷ []) account one_fails 600 0

abbrev agent : Ua
agent = record {
  acc = record {
    client = account;
    regint = 600;
    outbound = false;
    outboundv = none ∷ none ∷ [];
    rel100 = false;
    check_origin = true;
    inreq_allowed = true;
    catchall = false;
    aor = 1 ∷ [];
    user = 2 ∷ [];
    host = 3 ∷ [];
  };
  regl = client ∷ [];
  calls = [];
  extensionv = [];
  cuser = 4 ∷ [];
  log = [];
}

isregistered-start_register_example :
    ua_isregistered (λ c. true) (λ c. false) (start_register agent false (λ i. sending) false).0
    ≡ false
unfolding start_register register_clients register_all reg_register start_client configure
    source_port
isregistered-start_register_example =
    isregistered-start_register (λ c. true) (λ c. false) agent false (λ i. sending) false
      (λ e. absurd (omega (arith, e))) refl
