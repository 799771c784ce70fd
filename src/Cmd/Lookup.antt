-- ===== src/Cmd/Lookup.antt =====
-- src/cmd.c: what `cmd_register` and `cmd_unregister` do to the lookups.
use baresip.Prelude.{
  ℕ, ◌≡◌, ◌≢◌, ◌⊎◌, refl, ap, Bool, true, false, Option, none, some, List, [], ◌∷◌, ◌++◌, ◌==◌,
  Bool-cases, Option-cases, inl, inr, arith,
}
use baresip.Cmd.State.{Str, Cmd, Cmds}
use baresip.Cmd.Registry.{
  cmds_find, find_in, find_from_tail, has_key, cmd_find_by_key, cmd_unregister, has_name,
  cmd_find_long, name_taken, key_taken, verify, cmd_register,
}

-- A search that goes through a block behind the others finds what is there, or what it found
-- before.
find_from_tail-append :
    (test : Cmd → Bool) (cmdl : List Cmds) (block : Cmds)
    → find_from_tail test (cmdl ++ (block ∷ []))
      ≡ (elim (find_in test block.cmds) [ some cmd ↦ some cmd | none ↦ find_from_tail test cmdl ])
unfolding find_from_tail
find_from_tail-append test [] block = elim (Option-cases (find_in test block.cmds)) [
  | inl e ↦ rw e refl
  | inr (c, e) ↦ rw e refl
]
find_from_tail-append test (b ∷ cmdl) block = elim (Option-cases (find_in test block.cmds)) [
  | inl e ↦ rw (find_from_tail-append test cmdl block, e) refl
  | inr (c, e) ↦ rw (find_from_tail-append test cmdl block, e) refl
]

keep_first : (o : Option Cmd) → (elim o [ some cmd ↦ some cmd | none ↦ none ]) ≡ o
keep_first none = refl
keep_first (some cmd) = refl

-- The new block does not match where the others do.
search-append :
    (test : Cmd → Bool) (cmdl : List Cmds) (block : Cmds)
    → ((c : Cmd) → find_from_tail test cmdl ≡ some c → find_in test block.cmds ≡ none)
    → find_from_tail test (cmdl ++ (block ∷ []))
      ≡ (elim (find_from_tail test cmdl) [ some c ↦ some c | none ↦ find_in test block.cmds ])
search-append test cmdl block h = elim (Option-cases (find_from_tail test cmdl)) [
  | inl free ↦ ground (arith, find_from_tail-append test cmdl block, free)
  | inr (c, found) ↦ ground (arith, find_from_tail-append test cmdl block, h c found)
]

unregister-append :
    (cmdl : List Cmds) (block : Cmds)
    → cmds_find cmdl block.cmdv ≡ none
    → cmd_unregister (cmdl ++ (block ∷ [])) block.cmdv ≡ cmdl
unfolding cmds_find cmd_unregister
unregister-append [] block e = ground arith
unregister-append (b ∷ cmdl) block e = elim (Bool-cases (b.cmdv == block.cmdv)) [
  | inl same ↦ absurd (ground arith)
  | inr other ↦ rw other (ap (◌∷◌ b) (unregister-append cmdl block (ground arith)))
]

-- The ways of `cmd_register` to succeed.
module _ (casecmp : Str → Option Str → Bool) (isset : Option Str → Bool) where
  register_cases :
      (cmdl : List Cmds) (block : Cmds) (memory : Bool)
      → ((cmd_register casecmp isset cmdl block memory).1 ≢ 0)
          × ((cmd_register casecmp isset cmdl block memory).0 ≡ cmdl)
        ⊎ ((cmd_register casecmp isset cmdl block memory ≡ (cmdl ++ (block ∷ []), 0))
            × (verify casecmp isset cmdl block.cmds ≡ 0)
            × (cmds_find cmdl block.cmdv ≡ none))
  unfolding cmd_register
  register_cases cmdl block memory = ground arith

  verify-key :
      (cmdl : List Cmds) (cmds : List Cmd) (key : ℕ) (c : Cmd)
      → key ≢ 0
      → cmd_find_by_key cmdl key ≡ some c
      → verify casecmp isset cmdl cmds ≡ 0
      → find_in (has_key key) cmds ≡ none
  unfolding verify find_in key_taken
  verify-key cmdl [] key c nz e ok = refl
  verify-key cmdl (x ∷ cmds) key c nz e ok = elim (Bool-cases (x.key == key)) [
    | inl same ↦ absurd (ground arith)
    | inr other ↦ ground (arith, verify-key cmdl cmds key c nz e)
  ]

  -- What libre's string functions promise for a name that is set.
  pub record CaseCompare : Type 0 where
    pub same :
        (x y : Str) (o : Option Str)
        → casecmp x (some y) ≡ true
        → casecmp x o ≡ true
        → casecmp y o ≡ true
    pub no_name : (x : Str) → isset (some x) ≡ true → casecmp x none ≡ false
    pub same_isset :
        (x y : Str) → casecmp x (some y) ≡ true → isset (some x) ≡ true → isset (some y) ≡ true

  find_in-none :
      (g : Cmd → Bool) (x : Cmd) (cmds : List Cmd)
      → find_in g (x ∷ cmds) ≡ none
      → (g x ≡ false) × (find_in g cmds ≡ none)
  unfolding find_in
  find_in-none g x cmds e = ground arith

  find_in_weaker :
      (f g : Cmd → Bool) (cmds : List Cmd)
      → ((x : Cmd) → f x ≡ true → g x ≡ true)
      → find_in g cmds ≡ none
      → find_in f cmds ≡ none
  unfolding find_in
  find_in_weaker f g [] h e = refl
  find_in_weaker f g (x ∷ cmds) h e = elim (Bool-cases (f x)) [
    | inl passed ↦ absurd (ground (arith, h x passed, find_in-none g x cmds e))
    | inr failed ↦ rw failed (find_in_weaker f g cmds h (find_in-none g x cmds e).1)
  ]

  find_from_tail_weaker :
      (f g : Cmd → Bool) (cmdl : List Cmds)
      → ((x : Cmd) → f x ≡ true → g x ≡ true)
      → find_from_tail g cmdl ≡ none
      → find_from_tail f cmdl ≡ none
  unfolding find_from_tail
  find_from_tail_weaker f g [] h e = refl
  find_from_tail_weaker f g (b ∷ cmdl) h e = elim (Option-cases (find_from_tail g cmdl)) [
    | inl none_left ↦
        rw (find_from_tail_weaker f g cmdl h none_left) (find_in_weaker f g b.cmds h (ground arith))
    | inr (c, found) ↦ absurd (ground arith)
  ]

  module _ (law : CaseCompare) where
    has_name_same :
        (name y : Str) (x : Cmd)
        → casecmp name (some y) ≡ true
        → has_name casecmp isset name x ≡ true
        → has_name casecmp isset y x ≡ true
    has_name_same name y x same e = ground (arith, law.same name y x.name same)

    name_found :
        (cmdl : List Cmds) (y : Str) (d : Cmd)
        → isset (some y) ≡ true
        → cmd_find_long casecmp isset cmdl y ≡ some d
        → name_taken casecmp isset cmdl (some y) ≡ true
    unfolding name_taken
    name_found cmdl y d set e = rw (set, e) refl

    -- A name that is the same as a registered one is refused.
    taken :
        (cmdl : List Cmds) (name y : Str) (c : Cmd)
        → isset (some name) ≡ true
        → cmd_find_long casecmp isset cmdl name ≡ some c
        → casecmp name (some y) ≡ true
        → name_taken casecmp isset cmdl (some y) ≡ true
    unfolding cmd_find_long
    taken cmdl name y c set e same = elim (Option-cases (cmd_find_long casecmp isset cmdl y)) [
      | inl gone ↦
          let lost =
            find_from_tail_weaker (has_name casecmp isset name) (has_name casecmp isset y) cmdl
              (λ x. has_name_same name y x same) gone in
          absurd (cc (lost, e))
      | inr (d, found) ↦ name_found cmdl y d (law.same_isset name y same set) found
    ]

    -- The same for the name of a command.
    taken_by :
        (cmdl : List Cmds) (name : Str) (c : Cmd) (o : Option Str)
        → isset (some name) ≡ true
        → cmd_find_long casecmp isset cmdl name ≡ some c
        → casecmp name o ≡ true
        → name_taken casecmp isset cmdl o ≡ true
    taken_by cmdl name c none set e same = absurd (cc (law.no_name name set, same))
    taken_by cmdl name c (some y) set e same = taken cmdl name y c set e same

    verify-name :
        (cmdl : List Cmds) (cmds : List Cmd) (name : Str) (c : Cmd)
        → isset (some name) ≡ true
        → cmd_find_long casecmp isset cmdl name ≡ some c
        → verify casecmp isset cmdl cmds ≡ 0
        → find_in (has_name casecmp isset name) cmds ≡ none
    unfolding verify find_in
    verify-name cmdl [] name c set e ok = refl
    verify-name cmdl (x ∷ cmds) name c set e ok = elim (Bool-cases (casecmp name x.name)) [
      | inl same ↦ absurd (ground (arith, taken_by cmdl name c x.name set e same))
      | inr other ↦ rw other (verify-name cmdl cmds name c set e (ground arith))
    ]

    -- After a registration with the result 0 a short key other than 0 finds the command that it
    -- found before, and a key that was free finds the first of the new commands that has it.
    pub register-key :
        (cmdl : List Cmds) (block : Cmds) (memory : Bool) (key : ℕ)
        → key ≢ 0
        → (cmd_register casecmp isset cmdl block memory).1 ≡ 0
        → cmd_find_by_key (cmd_register casecmp isset cmdl block memory).0 key
          ≡ (elim (cmd_find_by_key cmdl key) [
            | some c ↦ some c
            | none ↦ find_in (has_key key) block.cmds
          ])
    unfolding cmd_find_by_key
    register-key cmdl block memory key nz ok = elim (register_cases cmdl block memory) [
      | inl refused ↦ absurd (refused.0 ok)
      | inr (e, verified, _) ↦ rw e (
          search-append (has_key key) cmdl block
            (λ c found. verify-key cmdl block.cmds key c nz found verified))
    ]

    -- After a registration with the result 0 a long name that is set finds the command that it
    -- found before, and a name that was free finds the first of the new commands that has it, where
    -- the comparison of names is as libre promises it (CaseCompare).
    pub register-name :
        (cmdl : List Cmds) (block : Cmds) (memory : Bool) (name : Str)
        → isset (some name) ≡ true
        → (cmd_register casecmp isset cmdl block memory).1 ≡ 0
        → cmd_find_long casecmp isset (cmd_register casecmp isset cmdl block memory).0 name
          ≡ (elim (cmd_find_long casecmp isset cmdl name) [
            | some c ↦ some c
            | none ↦ find_in (has_name casecmp isset name) block.cmds
          ])
    unfolding cmd_find_long
    register-name cmdl block memory name set ok = elim (register_cases cmdl block memory) [
      | inl refused ↦ absurd (refused.0 ok)
      | inr (e, verified, _) ↦ rw e (
          search-append (has_name casecmp isset name) cmdl block
            (λ c found. verify-name cmdl block.cmds name c set found verified))
    ]

  -- A registration that is refused changes nothing, and one that is accepted is undone by
  -- unregistering the same command vector.
  pub register-unregister :
      (cmdl : List Cmds) (block : Cmds) (memory : Bool)
      → let (cmdl', err) = cmd_register casecmp isset cmdl block memory in
        ((err ≢ 0) × (cmdl' ≡ cmdl)) ⊎ ((err ≡ 0) × (cmd_unregister cmdl' block.cmdv ≡ cmdl))
  register-unregister cmdl block memory = elim (register_cases cmdl block memory) [
    | inl refused ↦ inl refused
    | inr (e, _, new) ↦ inr (rw e refl, rw e (unregister-append cmdl block new))
  ]

-- Unregistering a block that has no match for a search leaves the result of the search.
unregister-keeps :
    (test : Cmd → Bool) (cmdl : List Cmds) (cmdv : ℕ)
    → ((b : Cmds) → cmds_find cmdl cmdv ≡ some b → find_in test b.cmds ≡ none)
    → find_from_tail test (cmd_unregister cmdl cmdv) ≡ find_from_tail test cmdl
unfolding find_from_tail cmds_find cmd_unregister
unregister-keeps test [] cmdv h = refl
unregister-keeps test (b ∷ cmdl) cmdv h = elim (Bool-cases (b.cmdv == cmdv)) [
  | inl here ↦ let gone = h b (rw here refl) in ground (arith, here, gone)
  | inr other ↦
      let rest = unregister-keeps test cmdl cmdv (λ b' e. h b' (rw other e)) in
      rw (other, rest) refl
]
