-- ===== src/Reg/Status.antt =====
-- src/reg.c: what the status of a registration says about its history.
use baresip.Prelude.{
  ℕ, zero, suc, ◌≡◌, ◌≢◌, ◌<◌, ◌≤◌, ◌⊎◌, inl, inr, refl, ap, Bool, true, false, Option, none, some,
  List, [], ◌∷◌, ◌++◌, arith, Bool-cases,
}
use baresip.Reg.{
  Reg, Response, Outside, Account, event_ok, learn_server, on_response, register_handler, configure,
  start_client, reg_register, reg_unregister, reg_stop, reg_isok,
}

-- What happens to a registration: its own calls, and those of its handler.
pub data Step : Type 0 where
  registers : Option Account → Outside → ℕ → Step
  unregisters stops : Step
  responds : ℕ → Response → Step

unfoldable pub step : Reg → Step → Reg
step reg (registers acc out regint) = (reg_register reg acc out regint).0
step reg unregisters = reg_unregister reg
step reg stops = reg_stop reg
step reg (responds err msg) = (register_handler reg err msg).0

unfoldable pub run : Reg → List Step → Reg
run reg [] = reg
run reg (s ∷ steps) = run (step reg s) steps

-- A step that says nothing new about the registration.
abbrev IsQuiet : Step → Type 0
IsQuiet (registers acc out regint) = ⊥
IsQuiet unregisters = Unit
IsQuiet stops = ⊥
IsQuiet (responds err msg) = (err ≡ 0) × (msg.scode < 200)

abbrev AllQuiet : List Step → Type 0
AllQuiet [] = Unit
AllQuiet (s ∷ steps) = IsQuiet s × AllQuiet steps

-- The response 200 arrived, and only quiet steps came after it.
abbrev pub Confirmed : List Step → Type 0
Confirmed steps =
    (before after : List Step) × (msg : Response) × (steps ≡ before ++ (responds 0 msg ∷ after))
    × (msg.scode ≡ 200)
    × AllQuiet after

server_scode : (reg : Reg) (o : Option (List ℕ)) → (learn_server reg o).scode ≡ reg.scode
unfolding learn_server
server_scode reg none = refl
server_scode reg (some server) = refl

response_scode :
    (reg : Reg) (msg : Response)
    → (on_response reg msg).0.scode ≡ 200
    → (msg.scode ≡ 200) ⊎ ((reg.scode ≡ 200) × (msg.scode < 200))
unfolding on_response
response_scode reg msg e = ground (arith, server_scode reg msg.server)

register_scode :
    (reg : Reg) (acc : Option Account) (out : Outside) (regint : ℕ)
    → (reg_register reg acc out regint).0.scode ≡ 0
unfolding reg_register start_client
register_scode reg acc out regint = ground arith

step_scode :
    (reg : Reg) (s : Step)
    → (step reg s).scode ≡ 200
    → ((reg.scode ≡ 200) × IsQuiet s)
      ⊎ ((msg : Response) × (s ≡ responds 0 msg) × (msg.scode ≡ 200))
unfolding step reg_stop reg_unregister register_handler
step_scode reg (registers acc out regint) e =
    absurd (ground (arith, register_scode reg acc out regint))
step_scode reg unregisters e = inl (ground arith, tt)
step_scode reg stops e = absurd (ground arith)
step_scode reg (responds (suc err) msg) e = absurd (ground arith)
step_scode reg (responds zero msg) e = elim (response_scode reg msg e) [
  | inl confirmed ↦ inr (msg, refl, confirmed)
  | inr (kept, early) ↦ inl (kept, (refl, early))
]

run_scode :
    (reg : Reg) (steps : List Step)
    → (run reg steps).scode ≡ 200
    → ((reg.scode ≡ 200) × AllQuiet steps) ⊎ Confirmed steps
unfolding run
run_scode reg [] e = inl (e, tt)
run_scode reg (s ∷ steps) e = elim (run_scode (step reg s) steps e) [
  | inr (before, after, msg, split, ok, quiet) ↦
      inr (s ∷ before, after, msg, ap (◌∷◌ s) split, ok, quiet)
  | inl (now, quiet) ↦ elim (step_scode reg s now) [
    | inl (kept, silent) ↦ inl (kept, (silent, quiet))
    | inr (msg, here, ok) ↦ inr ([], steps, msg, ap (λ x. x ∷ steps) here, ok, quiet)
  ]
]

success_scode :
    (reg : Reg) (msg : Response)
    → 200 ≤ msg.scode
    → msg.scode < 300
    → (register_handler reg 0 msg).0.scode ≡ msg.scode
unfolding register_handler on_response
success_scode reg msg lo hi = ground arith

module _ (registered : ℕ → Bool) (failed : ℕ → Bool) where
  isok_scode : (reg : Reg) → reg_isok registered failed reg ≡ true → reg.scode ≡ 200
  unfolding reg_isok
  isok_scode reg e = ground arith

  -- A registration that is reported as ok, and did not start as such, got the response 200; after
  -- that there was no error, no further final response, no new registration and no stop.
  pub run-isok :
      (reg : Reg) (steps : List Step)
      → reg.scode ≢ 200
      → reg_isok registered failed (run reg steps) ≡ true
      → Confirmed steps
  run-isok reg steps fresh ok = elim (run_scode reg steps (isok_scode (run reg steps) ok)) [
    | inl (old, _) ↦ absurd (fresh old)
    | inr confirmed ↦ confirmed
  ]

  -- A response from 201 to 299 raises the event of success, but the registration is not reported
  -- as ok afterwards.
  pub isok-handler_2xx :
      (reg : Reg) (msg : Response)
      → 200 < msg.scode
      → msg.scode < 300
      → let (reg', event) = register_handler reg 0 msg in
        (event ≡ some (event_ok reg)) × (reg_isok registered failed reg' ≡ false)
  unfolding register_handler on_response
  isok-handler_2xx reg msg lo hi =
      let reg' = (register_handler reg 0 msg).0 in
      (
        ground arith,
        elim (Bool-cases (reg_isok registered failed reg')) [
          | inl ok ↦
              let now = isok_scode reg' ok in
              absurd (omega (arith, now, success_scode reg msg (omega arith) hi))
          | inr other ↦ other
        ],
      )

-- The error of the first setting of a new client is lost, whatever it is, if the account has a
-- fallback interval, the client can be allocated and the second setting succeeds: the registration
-- is sent as if nothing was wrong.
register_rwait_lost :
    (reg : Reg) (acc : Account) (out : Outside) (regint : ℕ)
    → out.alloc ≡ 0
    → acc.rwait ≢ 0
    → acc.fbregint ≢ 0
    → out.set_fbregint ≡ 0
    → let (reg', err) = reg_register reg (some acc) out regint in
      (err ≡ out.send) × (reg'.sipreg ≡ some out.client)
unfolding reg_register start_client configure
register_rwait_lost reg acc out regint ok wait back second = (ground arith, ground arith)
