-- ===== src/Serreg/Tests.antt =====
-- modules/serreg/serreg.c: two accounts, of which the first one fails.
use baresip.Prelude.{
  ℕ, ◌≡◌, ◌≤◌, ◌<◌, ◌+◌, ◌⊎◌, refl, Bool, true, false, none, some, [], ◌∷◌, List, ◌==◌, arith,
}
use baresip.Reg.{Reg, Outside, reg_failed, reg_isok}
use baresip.Ua.{ua_regfailed, all_failed, ua_isregistered, any_ok}
use baresip.Serreg.{
  Agent, Sreg, no_prio, inc_account_prio, check_registrations, count_at, max_prio, register_ok,
}
use baresip.Serreg.Next.{HasPrio, NoneBetween, inc_account_prio_least}
use baresip.Serreg.Checks.{
  AllHave, NoneAbove, has_failed, is_registered, check_registrations-AllHave,
}

abbrev client : ℕ → Reg
client handle = record {
  sipreg = some handle;
  id = 0;
  regint = 600;
  paddr = 0;
  scode = 200;
  srv = none;
  af = 0;
  calls = [];
}

abbrev sending : Outside
sending = record {
  failed = false;
  alloc = 0;
  client = 9;
  set_rwait = 0;
  set_fbregint = 0;
  send = 0;
}

abbrev agent : ℕ → Agent
agent prio = record {
  ua = record {
    acc = record {
      client = record { rwait = 0; fbregint = 0; tcpsrcport = 0 };
      regint = 600;
      outbound = false;
      outboundv = [];
      rel100 = false;
      check_origin = true;
      inreq_allowed = true;
      catchall = false;
      aor = [];
      user = [];
      host = [];
    };
    regl = client prio ∷ [];
    calls = [];
    extensionv = [];
    cuser = [];
    log = [];
  };
  prio = prio;
  has_uuid = false;
  outs = λ i. sending;
}

-- The client of the first account has failed.
abbrev fails : ℕ → Bool
fails handle = handle == 0

abbrev start : Sreg
start = record { prio = 0; maxprio = 5; ready = true; sprio = no_prio; tmr = none; failc = 0 }

abbrev both : List Agent
both = agent 0 ∷ agent 3 ∷ []

check_registrations-AllHave_example :
    let (sreg', all_failed) = check_registrations (λ h. false) fails start both in
    (((all_failed ≡ true) × AllHave start.prio (has_failed (λ h. false) fails) both)
      ⊎ ((all_failed ≡ false) × ¬ AllHave start.prio (has_failed (λ h. false) fails) both))
    × (sreg'.prio ≡ start.prio)
    × NoneAbove both sreg'.maxprio
    × ((sreg'.ready ≡ start.ready)
        ⊎ ((sreg'.ready ≡ true) × AllHave start.prio (is_registered (λ h. false) fails) both))
check_registrations-AllHave_example = check_registrations-AllHave (λ h. false) fails start both

-- The account of the priority 0 has failed, that of the priority 3 has not.
first_failed : (check_registrations (λ h. false) fails start both).1 ≡ true
unfolding check_registrations count_at max_prio ua_regfailed all_failed reg_failed ua_isregistered
    any_ok
first_failed = refl

second_left :
    (check_registrations (λ h. false) fails (register_ok (λ h. false) fails start both 3) both).1
    ≡ false
unfolding register_ok check_registrations count_at max_prio ua_regfailed all_failed reg_failed
    ua_isregistered any_ok reg_isok
second_left = refl

inc_account_prio_least_example :
    let next = (inc_account_prio start both).prio in
    ((start.prio < next)
      × HasPrio both next
      × NoneBetween both start.prio next
      × (next ≤ start.maxprio))
    ⊎ ((next ≡ 0) × NoneBetween both start.prio (start.maxprio + 1))
inc_account_prio_least_example = inc_account_prio_least start both (omega arith)
