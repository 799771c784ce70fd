-- ===== src/Cmd/Editor.antt =====
-- src/cmd.c: `cmd_process` and the editor behind it.
-- libre's functions are parameters: `str_casecmp`, `str_isset`, the split of a line by `re_regex`,
-- the error of a print (`re_hprintf` and `cmd_print_all` on the caller's print function), that of a
-- write to the memory buffer. So are the handlers, by the error each of them returns.
use Prim.Native.Nat.{bit_or}
use baresip.Prelude.{
  ℕ, Bool, true, false, ◌&&◌, not, Option, none, some, List, [], ◌∷◌, ◌++◌, ◌==◌, if◌then◌else◌,
  leb, ltb, ◌+◌, ◌-◌, ◌||◌, take, drop, length,
}
use baresip.Cmd.State.{
  Str, Cmd, Cmds, Mbuf, Ctx, Arg, Call, Print, cancel, newline, erase, prompt, completion, no_match,
  slash, listing, help, long_prefix, enoent, enomem, einval, enotsup, keycode_none, keycode_rel,
  keycode_esc, keycode_del,
}
use baresip.Cmd.Registry.{cmd_find_by_key, cmd_find_long, get_match_long}

-- The outside of one call of `cmd_process`.
pub record Outside : Type 0 where
  pub casecmp : Str → Option Str → Bool
  pub isset : Option Str → Bool
  pub split : Str → Option (Str × Option Str)
  pub hprintf : Print → ℕ
  pub write : Mbuf → Str → ℕ
  pub memory : Bool
  pub handle : ℕ → Arg → ℕ

-- What a call returns, the context after it, and the handlers it called.
pub record Result : Type 0 where
  pub ctx : Option Ctx
  pub err : ℕ
  pub calls : List Call

-- `mbuf_write_mem` at the position of the buffer, where memory is left.
unfoldable pub write_at : Mbuf → Str → Mbuf
write_at mb str = record {
  buf = take mb.pos mb.buf ++ (str ++ drop (mb.pos + length str) mb.buf);
  pos = mb.pos + length str;
}

-- The buffer and the error that a key leaves, and whether the context is to be deleted.
pub record Edited : Type 0 where
  pub mb : Mbuf
  pub err : ℕ
  pub del : Bool

module _ (out : Outside) where
  -- The echo at the end of `editor_input`.
  unfoldable pub echo : Mbuf → Bool → ℕ → Edited
  echo mb is_long err = record {
    mb = mb;
    err = bit_or err (out.hprintf (prompt is_long mb.buf));
    del = false;
  }

  -- `mbuf_write_u8` leaves the buffer as it is when it cannot grow.
  unfoldable pub append_key : Mbuf → ℕ → Bool → Edited
  append_key mb key is_long =
      if out.write mb (key ∷ []) == 0
      then echo (write_at mb (key ∷ [])) is_long 0
      else echo mb is_long (out.write mb (key ∷ []))

  unfoldable pub backspace : Mbuf → Bool → Edited
  backspace mb is_long =
      if ltb 0 mb.pos
      then echo (record { buf = take (mb.pos - 1) mb.buf; pos = mb.pos - 1 }) is_long
          (out.hprintf erase)
      else echo mb is_long 0

  -- The name of the only match replaces the input. The result of the write is not tested.
  unfoldable pub replace_by : Mbuf → Option Str → Edited
  replace_by mb none = echo (record mb { pos = 0 }) true 0
  replace_by mb (some name) =
      if out.write (record mb { pos = 0 }) name == 0
      then echo (write_at (record mb { pos = 0 }) name) true 0
      else echo (record mb { pos = 0 }) true 0

  -- The end of a TAB completion, by the number of matches.
  unfoldable pub completed : Mbuf → ℕ × Option Cmd → Edited
  completed mb (nmatch, found) =
      if nmatch == 0 then echo mb true (out.hprintf no_match) else elim found [
        | none ↦ echo mb true 0
        | some cmd ↦ if nmatch == 1 then replace_by mb cmd.name else echo mb true 0
      ]

  unfoldable pub complete : List Cmds → Mbuf → Edited
  complete cmdl mb =
      if not (out.hprintf (completion mb.buf) == 0)
      then record { mb = mb; err = out.hprintf (completion mb.buf); del = false }
      else if not (out.hprintf (listing true false mb.buf) == 0)
      then record { mb = mb; err = out.hprintf (listing true false mb.buf); del = false }
      else completed mb (get_match_long out.casecmp out.isset cmdl mb.buf)

  -- `editor_input`.
  unfoldable pub editor_input : List Cmds → Mbuf → ℕ → Bool → Edited
  editor_input cmdl mb key is_long =
      if key == keycode_esc
      then record { mb = mb; err = out.hprintf cancel; del = true }
      else if key == keycode_none || key == keycode_rel
      then echo mb is_long 0
      else if key == 0x0a
      then record { mb = mb; err = out.hprintf newline; del = true }
      else if key == 0x08 || key == keycode_del
      then backspace mb is_long
      else if key == 0x09 && is_long
      then complete cmdl mb
      else append_key mb key is_long

  -- `cmd_report`: the handler gets the input as its parameter.
  unfoldable pub cmd_report : Option Cmd → Str → ℕ × List Call
  cmd_report none str = (0, [])
  cmd_report (some cmd) str = if not out.memory then (enomem, []) else elim (cmd.h) [
    | none ↦ (0, [])
    | some h ↦
        let arg : Arg = record { key = cmd.key; prm = some str } in
        (out.handle h arg, record { h = h; arg = arg } ∷ [])
  ]

  -- A long command that is found runs, if it has a handler.
  unfoldable pub run_long : Option Cmd → Str → Option Str → ℕ × List Call
  run_long none name prm = (enotsup, [])
  run_long (some cmd) name prm = elim (cmd.h) [
    | none ↦ (0, [])
    | some h ↦
        let arg : Arg = record { key = long_prefix; prm = prm } in
        (out.handle h arg, record { h = h; arg = arg } ∷ [])
  ]

  -- `cmd_process_long`. The error of the split is ENOENT.
  unfoldable pub cmd_process_long : List Cmds → Str → ℕ × List Call
  cmd_process_long cmdl [] = (einval, [])
  cmd_process_long cmdl (c ∷ str) = elim (out.split (c ∷ str)) [
    | none ↦ (enoent, [])
    | some (name, prm) ↦
        if not out.memory
        then (enomem, [])
        else run_long (cmd_find_long out.casecmp out.isset cmdl name) name prm
  ]

  -- The rest of `cmd_process_edit` after the editor accepted the key.
  unfoldable pub finish : List Cmds → Ctx → ℕ → Edited → Result
  finish cmdl ctx key ed =
      let left = if ed.del then none else some (record ctx { mb = ed.mb }) in
      if not (key == 0x0a)
      then record { ctx = left; err = ed.err; calls = [] }
      else let (err, calls) =
          (if ctx.is_long then cmd_process_long cmdl ed.mb.buf else cmd_report ctx.cmd ed.mb.buf) in
        record { ctx = left; err = err; calls = calls }

  -- `cmd_process_edit` on a context. An error of the editor leaves the context there.
  unfoldable pub cmd_process_edit : List Cmds → Ctx → ℕ → Result
  cmd_process_edit cmdl ctx key =
      let ed = editor_input cmdl ctx.mb key ctx.is_long in
      if ed.err == 0
      then finish cmdl ctx key ed
      else record { ctx = some (record ctx { mb = ed.mb }); err = ed.err; calls = [] }

  abbrev pub new_ctx : Option Cmd → Bool → Ctx
  new_ctx cmd is_long = record { mb = record { buf = []; pos = 0 }; cmd = cmd; is_long = is_long }

  -- A short command that was found: it runs at once, or opens the editor for its parameter. A digit
  -- is the first character of that. `editing` says whether the caller keeps a context.
  unfoldable pub run_short : List Cmds → Bool → Cmd → ℕ → Result
  run_short cmdl editing cmd key =
      if cmd.prm
      then if not editing
        then record { ctx = none; err = einval; calls = [] }
        else if not out.memory
        then record { ctx = none; err = enomem; calls = [] }
        else cmd_process_edit cmdl (new_ctx (some cmd) false)
            (if leb b'0' key && leb key b'9' then key else keycode_rel)
      else elim (cmd.h) [
        | none ↦ record { ctx = none; err = 0; calls = [] }
        | some h ↦
            let arg : Arg = record { key = key; prm = none } in
            record { ctx = none; err = out.handle h arg; calls = record { h = h; arg = arg } ∷ [] }
      ]

  -- The key `/` opens the editor for a long command.
  unfoldable pub open_long : Bool → Result
  open_long editing =
      if not (out.hprintf slash == 0)
      then record { ctx = none; err = out.hprintf slash; calls = [] }
      else if not editing
      then record { ctx = none; err = einval; calls = [] }
      else if not out.memory
      then record { ctx = none; err = enomem; calls = [] }
      else record { ctx = some (new_ctx none true); err = 0; calls = [] }

  -- A key that is no short command, without a context.
  unfoldable pub other_key : Bool → ℕ → Result
  other_key editing key = if key == long_prefix then open_long editing else record {
    ctx = none;
    err =
        if key == 0x09
        then out.hprintf (listing false true [])
        else if key == keycode_rel
        then 0
        else out.hprintf help;
    calls = [];
  }

  -- `cmd_process`; `ctx` is what the caller's context pointer points to.
  unfoldable pub cmd_process : List Cmds → Bool → Option Ctx → ℕ → Result
  cmd_process cmdl editing ctx key =
      if key == keycode_none then record { ctx = ctx; err = einval; calls = [] } else elim ctx [
        | some c ↦
            if key == keycode_rel
            then record { ctx = some c; err = 0; calls = [] }
            else cmd_process_edit cmdl c key
        | none ↦ elim (cmd_find_by_key cmdl key) [
          | some cmd ↦ run_short cmdl editing cmd key
          | none ↦ other_key editing key
        ]
      ]
