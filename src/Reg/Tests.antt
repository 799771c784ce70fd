-- ===== src/Reg/Tests.antt =====
-- src/reg.c on a concrete registration.
use baresip.Prelude.{ℕ, ◌≡◌, refl, Bool, true, false, none, some, [], ◌∷◌, ◌==◌, arith}
use baresip.Reg.{
  Reg, Response, Outside, Account, register_handler, on_response, learn_server, reg_register,
  start_client, configure, source_port, reg_isok, reg_unregister,
}
use baresip.Reg.Status.{registers, unregisters, responds, step, run, Confirmed, run-isok}

abbrev new : Reg
new = record {
  sipreg = none;
  id = 1;
  regint = 0;
  paddr = 0;
  scode = 0;
  srv = none;
  af = 0;
  calls = [];
}

abbrev account : Account
account = record { rwait = 3; fbregint = 120; tcpsrcport = 0 }

-- The client 7, whose first setting fails.
abbrev outside : Outside
outside = record {
  failed = false;
  alloc = 0;
  client = 7;
  set_rwait = 22;
  set_fbregint = 0;
  send = 0;
}

abbrev response : ℕ → Response
response scode = record { scode = scode; server = some (b's' ∷ []); src = 5; af = 2 }

abbrev registered : ℕ → Bool
registered client = client == 7

abbrev failed : ℕ → Bool
failed client = false

ends_ok :
    reg_isok registered failed (
      run new (
        registers (some account) outside 3600
        ∷ responds 0 (response 100)
        ∷ responds 0 (response 200)
        ∷ unregisters
        ∷ []))
    ≡ true
unfolding reg_isok run step reg_register start_client configure source_port register_handler
    on_response learn_server reg_unregister
ends_ok = refl

run-isok_example : Confirmed (
    registers (some account) outside 3600
    ∷ responds 0 (response 100)
    ∷ responds 0 (response 200)
    ∷ unregisters
    ∷ [])
run-isok_example = run-isok registered failed new _ (omega arith) ends_ok
