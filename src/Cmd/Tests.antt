-- ===== src/Cmd/Tests.antt =====
-- src/cmd.c on concrete registries and inputs.
use baresip.Prelude.{
  ℕ, ◌≡◌, ◌<◌, subst, ◌+◌, refl, Bool, true, false, ◌&&◌, Option, none, some, [], ◌∷◌, ◌==◌,
  if◌then◌else◌, leb, arith,
}
use baresip.Cmd.State.{Str, Cmd, Cmds, Ctx, long_prefix}
use baresip.Cmd.Registry.{
  cmds_find, find_in, find_from_tail, has_key, cmd_find_by_key, cmd_find_long, cmd_register, verify,
  name_taken, key_taken, get_match_long, match_all, match_in, starts_with,
}
use baresip.Cmd.Editor.{Outside, cmd_process, cmd_process_long, run_long, new_ctx}
use baresip.Cmd.Lookup.{CaseCompare, register-key}
use baresip.Cmd.Typing.{IsText, AllText, Works, feed, type-enter}

abbrev lower : ℕ → ℕ
lower c = if leb 65 c && leb c 90 then c + 32 else c

abbrev same_str : Str → Str → Bool
same_str [] [] = true
same_str [] (d ∷ y) = false
same_str (c ∷ x) [] = false
same_str (c ∷ x) (d ∷ y) = lower c == lower d && same_str x y

abbrev casecmp : Str → Option Str → Bool
casecmp x none = false
casecmp x (some y) = same_str x y

abbrev isset : Option Str → Bool
isset none = false
isset (some []) = false
isset (some (c ∷ x)) = true

same_str-euclid : (x y z : Str) → same_str x y ≡ true → same_str x z ≡ true → same_str y z ≡ true
same_str-euclid [] [] z e f = f
same_str-euclid [] (d ∷ y) z e f = absurd (cc (e))
same_str-euclid (c ∷ x) [] z e f = absurd (cc (e))
same_str-euclid (c ∷ x) (d ∷ y) [] e f = absurd (cc (f))
same_str-euclid (c ∷ x) (d ∷ y) (b ∷ z) e f = ground (arith, same_str-euclid x y z)

casecmp-euclid :
    (x y : Str) (o : Option Str)
    → casecmp x (some y) ≡ true
    → casecmp x o ≡ true
    → casecmp y o ≡ true
casecmp-euclid x y none e f = absurd (cc (f))
casecmp-euclid x y (some z) e f = same_str-euclid x y z e f

casecmp-isset :
    (x y : Str) → casecmp x (some y) ≡ true → isset (some x) ≡ true → isset (some y) ≡ true
casecmp-isset [] y e f = absurd (cc (f))
casecmp-isset (c ∷ x) [] e f = absurd (cc (e))
casecmp-isset (c ∷ x) (d ∷ y) e f = refl

law : CaseCompare casecmp isset
law = record { same = casecmp-euclid; no_name = λ x e. refl; same_isset = casecmp-isset }

abbrev command : Str → ℕ → ℕ → Cmd
command name key h = record { name = some name; key = key; prm = false; h = some h }

abbrev dial : Cmd
dial = command (b'd' ∷ b'i' ∷ b'a' ∷ b'l' ∷ []) b'd' 1

abbrev hangup : Cmd
hangup = command (b'h' ∷ b'a' ∷ b'n' ∷ b'g' ∷ []) b'b' 2

abbrev quit : Cmd
quit = command (b'q' ∷ b'u' ∷ b'i' ∷ b't' ∷ []) b'q' 3

abbrev menu : Cmds
menu = record { cmdv = 100; cmds = dial ∷ hangup ∷ [] }

abbrev extra : Cmds
extra = record { cmdv = 200; cmds = quit ∷ [] }

abbrev clash : Cmds
clash = record { cmdv = 300; cmds = command (b'D' ∷ b'I' ∷ b'A' ∷ b'L' ∷ []) 0 4 ∷ [] }

accepted : cmd_register casecmp isset (menu ∷ []) extra true ≡ (menu ∷ extra ∷ [], 0)
unfolding cmd_register cmds_find verify name_taken key_taken cmd_find_by_key cmd_find_long
    find_from_tail find_in
accepted = refl

-- The name is taken, whatever its case.
refused : cmd_register casecmp isset (menu ∷ []) clash true ≡ (menu ∷ [], 22)
unfolding cmd_register cmds_find verify name_taken key_taken cmd_find_by_key cmd_find_long
    find_from_tail find_in
refused = refl

accepted_err : (cmd_register casecmp isset (menu ∷ []) extra true).1 ≡ 0
accepted_err = rw accepted refl

register-key_example :
    cmd_find_by_key (cmd_register casecmp isset (menu ∷ []) extra true).0 b'd'
    ≡ (elim (cmd_find_by_key (menu ∷ []) b'd') [
      | some c ↦ some c
      | none ↦ find_in (has_key b'd') (quit ∷ [])
    ])
register-key_example =
    register-key casecmp isset law (menu ∷ []) extra true b'd' (omega arith) accepted_err

no_match :
    (b : Cmds) → cmds_find (menu ∷ extra ∷ []) 100 ≡ some b → find_in (has_key b'q') b.cmds ≡ none
unfolding cmds_find find_in
no_match b e =
    subst (λ o. elim o [ none ↦ Unit | some b' ↦ find_in (has_key b'q') b'.cmds ≡ none ]) e refl

-- A line is split at its first blank.
abbrev word : Str → Str
word [] = []
word (c ∷ line) = if c == b' ' then [] else c ∷ word line

abbrev outside : Outside
outside = record {
  casecmp = casecmp;
  isset = isset;
  split = λ line. some (word line, none);
  hprintf = λ p. 0;
  write = λ mb str. 0;
  memory = true;
  handle = λ h arg. 0;
}

outside-Works : Works outside
outside-Works = record { prints = λ p. refl; writes = λ mb str. refl; memory = refl }

abbrev line : Str
line = b'd' ∷ b'i' ∷ b'a' ∷ b'l' ∷ []

text : (key : ℕ) → 32 < key → key < 127 → IsText key
text key h k = ground arith

line-AllText : AllText line
line-AllText =
    let typed : (c : ℕ) → 96 < c → c < 127 → IsText c = λ c h k. text c (omega arith) k in
    (
      typed b'd' (omega arith) (omega arith),
      (
        typed b'i' (omega arith) (omega arith),
        (typed b'a' (omega arith) (omega arith), (typed b'l' (omega arith) (omega arith), tt)),
      ),
    )

no_slash : cmd_find_by_key (menu ∷ []) long_prefix ≡ none
unfolding cmd_find_by_key find_from_tail find_in
no_slash = refl

type-enter_example :
    (c : Ctx) × (feed outside (menu ∷ []) none (long_prefix ∷ line) ≡ (some c, []))
    × (cmd_process outside (menu ∷ []) true (some c) 0x0a ≡ record {
      ctx = none;
      err = (cmd_process_long outside (menu ∷ []) line).0;
      calls = (cmd_process_long outside (menu ∷ []) line).1;
    })
type-enter_example = type-enter outside outside-Works (menu ∷ []) line line-AllText no_slash

-- The text that Enter processes calls the handler of the command.
runs :
    cmd_process_long outside (menu ∷ []) line
    ≡ (0, record { h = 1; arg = record { key = b'/'; prm = none } } ∷ [])
unfolding cmd_process_long run_long cmd_find_long find_from_tail find_in
runs = refl

abbrev editor : Ctx
editor = new_ctx outside none true

only_dial : get_match_long casecmp isset (menu ∷ []) (b'd' ∷ b'i' ∷ []) ≡ (1, some dial)
unfolding get_match_long match_all match_in starts_with
only_dial = refl
