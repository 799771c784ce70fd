-- ===== src/Ua/Register.antt =====
-- src/ua.c: what a start of the registration does to the clients, all of them or up to the first
-- failure.
use baresip.Prelude.{
  ℕ, suc, ◌+◌, ◌≡◌, ◌≢◌, ◌⊎◌, inl, inr, refl, ap, Bool, false, Option, some, List, [], ◌∷◌, ◌++◌,
  ◌∙◌, ==_iff, ◌==◌, if◌then◌else◌, length, arith, Bool-cases,
}
use baresip.Reg.{Reg, Account, Outside, reg_register, start_client, reg_isok}
use baresip.Ua.{
  Ua, register_all, register_clients, create_register_clients, start_register, any_ok, is_empty,
  ua_isregistered,
}

-- A client that has just asked for `regint` seconds, and has no response yet.
abbrev pub AllAsk : ℕ → List Reg → Type 0
AllAsk regint [] = Unit
AllAsk regint (reg ∷ regl) = (reg.regint ≡ regint) × (reg.scode ≡ 0) × AllAsk regint regl

module _ (acc : Account) (outs : ℕ → Outside) (regint : ℕ) where
  -- The clients from place `i` on were asked, without an error, and became those of the second
  -- list.
  abbrev pub AllSent : ℕ → List Reg → List Reg → Type 0
  AllSent i [] [] = Unit
  AllSent i [] (reg' ∷ regl') = ⊥
  AllSent i (reg ∷ regl) [] = ⊥
  AllSent i (reg ∷ regl) (reg' ∷ regl') =
      (reg_register reg (some acc) (outs i) regint ≡ (reg', 0)) × AllSent (i + 1) regl regl'

  -- The clients before the first failure are asked without an error, that one fails with the error
  -- `err`, and the ones behind it are untouched.
  abbrev pub StopsAtFailure : ℕ → List Reg → List Reg → ℕ → Type 0
  StopsAtFailure i regl regl' err =
      (before before' after : List Reg) × (reg reg' : Reg) × (regl ≡ before ++ (reg ∷ after))
      × (regl' ≡ before' ++ (reg' ∷ after))
      × AllSent i before before'
      × (reg_register reg (some acc) (outs (i + length before)) regint ≡ (reg', err))
      × AllAsk regint before'

add_zero : (i : ℕ) → i + 0 ≡ i
add_zero i = omega arith

add_shift : (i n : ℕ) → i + suc n ≡ i + 1 + n
add_shift i n = omega arith

register_asks :
    (reg : Reg) (acc : Option Account) (out : Outside) (regint : ℕ)
    → let reg' = (reg_register reg acc out regint).0 in (reg'.regint ≡ regint) × (reg'.scode ≡ 0)
unfolding reg_register start_client
register_asks reg acc out regint = ground arith

-- Starting the registration with the given interval: either there is no error, and each client was
-- asked without one, asks for the interval and has forgotten its last status; or the error is that
-- of the first client that fails, the ones before it were asked without an error, and the ones
-- behind it are as before.
pub register_all-asks :
    (regl : List Reg) (acc : Account) (outs : ℕ → Outside) (regint i : ℕ)
    → let (regl', err) = register_all regl acc outs regint i in
      ((err ≡ 0) × AllAsk regint regl' × AllSent acc outs regint i regl regl')
      ⊎ ((err ≢ 0) × StopsAtFailure acc outs regint i regl regl' err)
unfolding register_all
register_all-asks [] acc outs regint i = inl (refl, tt, tt)
register_all-asks (reg ∷ regl) acc outs regint i =
    let now = reg_register reg (some acc) (outs i) regint in
    let (asks, forgot) = register_asks reg (some acc) (outs i) regint in
    elim (Bool-cases (now.1 == 0)) [
      | inr fails ↦
          let here = ap (λ k. reg_register reg (some acc) (outs k) regint) (add_zero i) in
          rw fails
            (inr (ground (arith, fails), ([], [], regl, reg, now.0, refl, refl, tt, here, tt)))
      | inl sent ↦
          let sent_ok : now ≡ (now.0, 0) = ap (λ n. (now.0, n)) ((==_iff now.1 0).0 sent) in
          rw sent elim (register_all-asks regl acc outs regint (i + 1)) [
            | inl (ok, all, same) ↦ inl (ok, (asks, forgot, all), (sent_ok, same))
            | inr (fails, (before, before', after, r, r', old, new, same, err, all)) ↦ inr (
              fails,
              (
                reg ∷ before,
                now.0 ∷ before',
                after,
                r,
                r',
                ap (◌∷◌ reg) old,
                ap (◌∷◌ now.0) new,
                (sent_ok, same),
                ap (λ k. reg_register r (some acc) (outs k) regint) (add_shift i (length before))
                    ∙ err,
                (asks, forgot, all),
              ),
            )
          ]
    ]

module _ (registered : ℕ → Bool) (failed : ℕ → Bool) where
  asking_not_ok :
      (regint : ℕ) (regl : List Reg) → AllAsk regint regl → any_ok registered failed regl ≡ false
  unfolding any_ok reg_isok
  asking_not_ok regint [] h = refl
  asking_not_ok regint (reg ∷ regl) (_, forgot, h) =
      ground (arith, forgot, asking_not_ok regint regl h)

  clients_not_ok :
      (ua : Ua) (outs : ℕ → Outside) (fallback : Bool)
      → (register_clients ua outs fallback).1 ≡ 0
      → any_ok registered failed (register_clients ua outs fallback).0.regl ≡ false
  unfolding register_clients
  clients_not_ok ua outs fallback ok =
      let regint = if fallback then 0 else ua.acc.regint in
      elim (register_all-asks ua.regl ua.acc.client outs regint 0) [
        | inl (_, all, _) ↦ asking_not_ok regint _ all
        | inr (fails, _) ↦ absurd (fails ok)
      ]

  -- Right after a registration was started without an error, the user agent does not count as
  -- registered, whatever it was before, if its account registers at all.
  pub isregistered-start_register :
      (ua : Ua) (has_uuid : Bool) (outs : ℕ → Outside) (fallback : Bool)
      → ua.acc.regint ≢ 0
      → (start_register ua has_uuid outs fallback).1 ≡ 0
      → ua_isregistered registered failed (start_register ua has_uuid outs fallback).0 ≡ false
  unfolding start_register register_clients ua_isregistered
  isregistered-start_register ua has_uuid outs fallback asks ok =
      let created = if is_empty ua.regl then create_register_clients ua has_uuid else ua in
      ground (arith, asks, ok, clients_not_ok created outs fallback)
