-- ===== src/Cmd/State.antt =====
-- src/cmd.c and include/baresip.h: the data of the command interface.
-- A string is its list of bytes without the final zero; a handler and a command vector stand for
-- their addresses. The description of a command is only printed, and left out.
use baresip.Prelude.{ℕ, Bool, Option, List}

abbrev pub Str : Type 0
Str = List ℕ

abbrev pub keycode_none : ℕ
keycode_none = 0x00

abbrev pub keycode_rel : ℕ
keycode_rel = 0x04

abbrev pub keycode_esc : ℕ
keycode_esc = 0x1b

abbrev pub keycode_del : ℕ
keycode_del = 0x7f

abbrev pub long_prefix : ℕ
long_prefix = b'/'

-- The values of <errno.h> on Linux.
abbrev pub enoent : ℕ
enoent = 2

abbrev pub enomem : ℕ
enomem = 12

abbrev pub einval : ℕ
einval = 22

abbrev pub enotsup : ℕ
enotsup = 95

abbrev pub ealready : ℕ
ealready = 114

-- `struct cmd`; `prm` is the flag CMD_PRM.
pub record Cmd : Type 0 where
  pub name : Option Str
  pub key : ℕ
  pub prm : Bool
  pub h : Option ℕ

-- `struct cmds`: the address of a command vector, and what it holds.
pub record Cmds : Type 0 where
  pub cmdv : ℕ
  pub cmds : List Cmd

-- The memory buffer of an editor: its bytes up to `end`, and the position of the next write.
pub record Mbuf : Type 0 where
  pub buf : Str
  pub pos : ℕ

-- `struct cmd_ctx`.
pub record Ctx : Type 0 where
  pub mb : Mbuf
  pub cmd : Option Cmd
  pub is_long : Bool

-- `struct cmd_arg`, without the application data that is passed through.
pub record Arg : Type 0 where
  pub key : ℕ
  pub prm : Option Str

-- What is printed.
pub data Print : Type 0 where
  cancel : Print
  newline : Print
  erase : Print
  prompt : Bool → Str → Print
  completion : Str → Print
  no_match : Print
  slash : Print
  listing : Bool → Bool → Str → Print
  help : Print

-- The call of a handler.
pub record Call : Type 0 where
  pub h : ℕ
  pub arg : Arg
