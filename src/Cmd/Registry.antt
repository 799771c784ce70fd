-- ===== src/Cmd/Registry.antt =====
-- src/cmd.c: `cmd_register`, `cmd_unregister` and the searches.
-- The list of blocks is written from its head. `str_casecmp` and `str_isset` are libre's and
-- parameters.
use baresip.Prelude.{
  ℕ, Bool, true, false, ◌&&◌, not, Option, none, some, List, [], ◌∷◌, ◌++◌, ◌==◌, if◌then◌else◌,
  ◌+◌,
}
use baresip.Cmd.State.{Str, Cmd, Cmds, long_prefix, enomem, einval, ealready}

abbrev has_handler : Cmd → Bool
has_handler cmd = elim cmd.h [ none ↦ false | some _ ↦ true ]

-- `cmds_find`.
unfoldable pub cmds_find : List Cmds → ℕ → Option Cmds
cmds_find [] cmdv = none
cmds_find (cmds ∷ cmdl) cmdv = if cmds.cmdv == cmdv then some cmds else cmds_find cmdl cmdv

-- The inner loop of a search: over the commands of one block.
unfoldable pub find_in : (Cmd → Bool) → List Cmd → Option Cmd
find_in test [] = none
find_in test (cmd ∷ cmds) = if test cmd then some cmd else find_in test cmds

-- The outer loop of a search, which goes through the blocks from the tail.
unfoldable pub find_from_tail : (Cmd → Bool) → List Cmds → Option Cmd
find_from_tail test [] = none
find_from_tail test (cmds ∷ cmdl) = elim (find_from_tail test cmdl) [
  | some cmd ↦ some cmd
  | none ↦ find_in test cmds.cmds
]

abbrev pub has_key : ℕ → Cmd → Bool
has_key key cmd = cmd.key == key && has_handler cmd

-- `cmd_find_by_key`.
unfoldable pub cmd_find_by_key : List Cmds → ℕ → Option Cmd
cmd_find_by_key cmdl key = find_from_tail (has_key key) cmdl

-- `list_unlink` of the first block with the address.
unfoldable pub cmd_unregister : List Cmds → ℕ → List Cmds
cmd_unregister [] cmdv = []
cmd_unregister (cmds ∷ cmdl) cmdv =
    if cmds.cmdv == cmdv then cmdl else cmds ∷ cmd_unregister cmdl cmdv

-- `str_len(name) >= len && 0 == memcmp(name, str, len)`.
unfoldable pub starts_with : Str → Str → Bool
starts_with name [] = true
starts_with [] (c ∷ str) = false
starts_with (x ∷ name) (c ∷ str) = x == c && starts_with name str

module _ (casecmp : Str → Option Str → Bool) (isset : Option Str → Bool) where
  abbrev pub has_name : Str → Cmd → Bool
  has_name name cmd = casecmp name cmd.name && has_handler cmd

  -- `cmd_find_long`.
  unfoldable pub cmd_find_long : List Cmds → Str → Option Cmd
  cmd_find_long cmdl name = find_from_tail (has_name name) cmdl

  -- Is the long name of the command taken? A name that is not set is not searched for.
  unfoldable pub name_taken : List Cmds → Option Str → Bool
  name_taken cmdl none = false
  name_taken cmdl (some name) =
      isset (some name) && elim (cmd_find_long cmdl name) [ none ↦ false | some _ ↦ true ]

  unfoldable pub key_taken : List Cmds → ℕ → Bool
  key_taken cmdl key =
      not (key == 0) && elim (cmd_find_by_key cmdl key) [ none ↦ false | some _ ↦ true ]

  -- The loop of `cmd_register` over the new commands: 0, or the error of the first refused one.
  unfoldable pub verify : List Cmds → List Cmd → ℕ
  verify cmdl [] = 0
  verify cmdl (cmd ∷ cmds) =
      if key_taken cmdl cmd.key
      then ealready
      else if cmd.key == long_prefix
      then einval
      else if name_taken cmdl cmd.name
      then einval
      else verify cmdl cmds

  -- `cmd_register`; `memory` says whether the block can be allocated.
  unfoldable pub cmd_register : List Cmds → Cmds → Bool → List Cmds × ℕ
  cmd_register cmdl block memory = elim (block.cmds) [
    | [] ↦ (cmdl, einval)
    | _ ∷ _ ↦ elim (cmds_find cmdl block.cmdv) [
      | some _ ↦ (cmdl, ealready)
      | none ↦
          if verify cmdl block.cmds == 0
          then if memory then (cmdl ++ (block ∷ []), 0) else (cmdl, enomem)
          else (cmdl, verify cmdl block.cmds)
    ]
  ]

  -- The loop of `get_match_long`: how many long commands start with `str`, and the last of them.
  unfoldable pub match_in : Str → List Cmd → ℕ × Option Cmd → ℕ × Option Cmd
  match_in str [] found = found
  match_in str (cmd ∷ cmds) (nmatch, found) = elim (cmd.name) [
    | none ↦ match_in str cmds (nmatch, found)
    | some name ↦
        if isset (some name) && starts_with name str
        then match_in str cmds (nmatch + 1, some cmd)
        else match_in str cmds (nmatch, found)
  ]

  unfoldable pub match_all : Str → List Cmds → ℕ × Option Cmd → ℕ × Option Cmd
  match_all str [] found = found
  match_all str (cmds ∷ cmdl) found = match_all str cmdl (match_in str cmds.cmds found)

  -- `get_match_long`.
  unfoldable pub get_match_long : List Cmds → Str → ℕ × Option Cmd
  get_match_long cmdl str = match_all str cmdl (0, none)
