-- ===== src/Cmd/Completion.antt =====
-- src/cmd.c: the TAB completion of a long command.
use baresip.Prelude.{
  ℕ, ◌≤◌, ◌≡◌, ◌+◌, ◌⊎◌, refl, ap, ◌∙◌, Bool, true, false, ◌&&◌, Option, none, some, List, [], ◌∷◌,
  ◌++◌, Bool-cases, Option-cases, inl, inr, arith, length, length-append, subst, sym,
}
use baresip.Cmd.State.{Str, Cmd, Cmds, Ctx, completion, listing}
use baresip.Cmd.Registry.{starts_with, match_in, match_all, get_match_long}
use baresip.Cmd.Editor.{
  Outside, echo, replace_by, completed, complete, editor_input, cmd_process_edit, finish,
  cmd_process,
}
use baresip.Cmd.Typing.{at_end, write_at-start, Works, editing}

-- `name` is `str` and something behind it.
abbrev Extends : Str → Str → Type 0
Extends name str = (rest : Str) × (name ≡ str ++ rest)

starts_with-Extends : (name str : Str) → starts_with name str ≡ true → Extends name str
unfolding starts_with
starts_with-Extends name [] e = (name, refl)
starts_with-Extends [] (c ∷ str) e = absurd (cc (e))
starts_with-Extends (x ∷ name) (c ∷ str) e =
    let (rest, more) = starts_with-Extends name str (ground arith) in
    let same : x ≡ c = ground arith in (rest, ap (◌∷◌ x) more ∙ ap (λ y. y ∷ (str ++ rest)) same)

Extends-length : (name str : Str) → Extends name str → length str ≤ length name
Extends-length name str (rest, e) = omega (arith, ap length e, length-append str rest)

module _ (isset : Option Str → Bool) (casecmp : Str → Option Str → Bool) where
  -- What a search for `str` has found, if anything: a command whose name starts with it.
  abbrev Found : Str → Option Cmd → Type 0
  Found str none = Unit
  Found str (some cmd) = (name : Str) × (cmd.name ≡ some name) × (starts_with name str ≡ true)

  -- One round of the loop keeps the last match, or takes this command.
  match_in_cons :
      (str : Str) (cmd : Cmd) (cmds : List Cmd) (n : ℕ) (o : Option Cmd)
      → (match_in casecmp isset str (cmd ∷ cmds) (n, o) ≡ match_in casecmp isset str cmds (n, o))
        ⊎ ((match_in casecmp isset str (cmd ∷ cmds) (n, o)
              ≡ match_in casecmp isset str cmds (n + 1, some cmd))
            × Found str (some cmd))
  unfolding match_in
  match_in_cons str cmd cmds n o = elim (Option-cases cmd.name) [
    | inl e ↦ inl (ground (arith, e))
    | inr (name, e) ↦ elim (Bool-cases (isset (some name) && starts_with name str)) [
      | inl matches ↦ inr (ground (arith, e, matches), (name, e, ground arith))
      | inr fails ↦ inl (ground (arith, e, fails))
    ]
  ]

  match_in-Found :
      (str : Str) (cmds : List Cmd) (n : ℕ) (o : Option Cmd)
      → Found str o
      → Found str (match_in casecmp isset str cmds (n, o)).1
  unfolding match_in
  match_in-Found str [] n o f = f
  match_in-Found str (cmd ∷ cmds) n o f = elim (match_in_cons str cmd cmds n o) [
    | inl e ↦ subst (λ p. Found str p.1) (sym e) (match_in-Found str cmds n o f)
    | inr (e, f') ↦
        subst (λ p. Found str p.1) (sym e) (match_in-Found str cmds (n + 1) (some cmd) f')
  ]

  match_all-Found :
      (str : Str) (cmdl : List Cmds) (p : ℕ × Option Cmd)
      → Found str p.1
      → Found str (match_all casecmp isset str cmdl p).1
  unfolding match_all
  match_all-Found str [] p f = f
  match_all-Found str (b ∷ cmdl) p f =
      match_all-Found str cmdl (match_in casecmp isset str b.cmds p)
        (match_in-Found str b.cmds p.0 p.1 f)

module _ (out : Outside) (works : Works out) (cmdl : List Cmds) where
  replace_works :
      (buf name : Str)
      → length buf ≤ length name
      → replace_by out (at_end buf) (some name) ≡ record { mb = at_end name; err = 0; del = false }
  unfolding replace_by echo
  replace_works buf name h = rw (works.writes, write_at-start buf name h, works.prints) refl

  completed_works :
      (buf name : Str) (cmd : Cmd)
      → cmd.name ≡ some name
      → length buf ≤ length name
      → completed out (at_end buf) (1, some cmd) ≡ record { mb = at_end name; err = 0; del = false }
  unfolding completed
  completed_works buf name cmd named h = rw named (replace_works buf name h)

  complete_works :
      (buf name : Str) (cmd : Cmd)
      → get_match_long out.casecmp out.isset cmdl buf ≡ (1, some cmd)
      → cmd.name ≡ some name
      → length buf ≤ length name
      → complete out cmdl (at_end buf) ≡ record { mb = at_end name; err = 0; del = false }
  unfolding complete
  complete_works buf name cmd e named h =
      let shown : complete out cmdl (at_end buf)
          ≡ completed out (at_end buf) (get_match_long out.casecmp out.isset cmdl buf) =
        rw (works.prints (completion buf), works.prints (listing true false buf)) refl in
      shown ∙ ap (completed out (at_end buf)) e ∙ completed_works buf name cmd named h

  process_tab :
      (c : Ctx) (buf name : Str)
      → c.is_long ≡ true
      → complete out cmdl (at_end buf) ≡ record { mb = at_end name; err = 0; del = false }
      → cmd_process out cmdl true (some (editing c buf)) 0x09
        ≡ record { ctx = some (editing c name); err = 0; calls = [] }
  unfolding cmd_process cmd_process_edit finish editor_input
  process_tab c buf name long e = ground arith

  -- Where printing and memory do not fail and exactly one long command starts with the input, TAB
  -- replaces the input by the name of that command, which has the input in front.
  pub complete-only :
      (c : Ctx) (buf : Str) (cmd : Cmd)
      → c.is_long ≡ true
      → get_match_long out.casecmp out.isset cmdl buf ≡ (1, some cmd)
      → (name : Str) × (cmd.name ≡ some name)
        × Extends name buf
        × (cmd_process out cmdl true (some (editing c buf)) 0x09
            ≡ record { ctx = some (editing c name); err = 0; calls = [] })
  unfolding get_match_long
  complete-only c buf cmd long e =
      let found = match_all-Found out.isset out.casecmp buf cmdl (0, none) tt in
      let (name, named, starts) = subst (λ p. Found out.isset out.casecmp buf p.1) e found in
      let more = starts_with-Extends name buf starts in
      (
        name,
        named,
        more,
        process_tab c buf name long
            (complete_works buf name cmd e named (Extends-length name buf more)),
      )
