-- ===== src/Cmd/Typing.antt =====
-- src/cmd.c: input that is typed key by key.
use Prim.Native.Nat.{bit_or}
use baresip.Prelude.{
  ℕ, zero, suc, ◌≤◌, ◌≡◌, ◌≢◌, ◌+◌, ◌-◌, refl, ap, ◌∙◌, Bool, true, false, Option, none, some, List,
  [], ◌∷◌, ◌++◌, arith, lt→ltb, ltb, length, take, drop, length-append,
}
use baresip.Cmd.State.{
  Str, Cmds, Mbuf, Ctx, Call, Print, prompt, slash, erase, newline, long_prefix,
}
use baresip.Cmd.Registry.{cmd_find_by_key}
use baresip.Cmd.Editor.{
  Outside, write_at, echo, append_key, backspace, editor_input, cmd_process_long, cmd_process_edit,
  finish, cmd_process, open_long, other_key, new_ctx,
}

-- A key that the editor takes as a character.
pub record IsText (key : ℕ) : Type 0 where
  pub no_end : key ≢ 0
  pub no_rel : key ≢ 0x04
  pub no_back : key ≢ 0x08
  pub no_tab : key ≢ 0x09
  pub no_enter : key ≢ 0x0a
  pub no_esc : key ≢ 0x1b
  pub no_del : key ≢ 0x7f

abbrev pub AllText : Str → Type 0
AllText [] = Unit
AllText (c ∷ cs) = IsText c × AllText cs

take_all : (xs : Str) → take (length xs) xs ≡ xs
take_all [] = refl
take_all (x ∷ xs) = ap (◌∷◌ x) (take_all xs)

drop_beyond : (xs : Str) (n : ℕ) → length xs ≤ n → drop n xs ≡ []
drop_beyond [] zero h = refl
drop_beyond [] (suc n) h = refl
drop_beyond (x ∷ xs) zero h = absurd (omega arith)
drop_beyond (x ∷ xs) (suc n) h = drop_beyond xs n (omega arith)

append_nil : (xs : Str) → xs ++ [] ≡ xs
append_nil [] = refl
append_nil (x ∷ xs) = ap (◌∷◌ x) (append_nil xs)

append_assoc : (xs ys zs : Str) → (xs ++ ys) ++ zs ≡ xs ++ (ys ++ zs)
append_assoc [] ys zs = refl
append_assoc (x ∷ xs) ys zs = ap (◌∷◌ x) (append_assoc xs ys zs)

take_front : (xs ys : Str) → take (length xs) (xs ++ ys) ≡ xs
take_front [] ys = refl
take_front (x ∷ xs) ys = ap (◌∷◌ x) (take_front xs ys)

-- A buffer whose position is its end.
abbrev pub at_end : Str → Mbuf
at_end buf = record { buf = buf; pos = length buf }

write_at-end : (buf str : Str) → write_at (at_end buf) str ≡ at_end (buf ++ str)
unfolding write_at
write_at-end buf str =
    rw
      (take_all, drop_beyond buf (length buf + length str) (omega arith), append_nil, length-append)
      refl

-- From the start, a text that is not shorter replaces the whole.
pub write_at-start :
    (buf str : Str)
    → length buf ≤ length str
    → write_at (record { buf = buf; pos = 0 }) str ≡ at_end str
unfolding write_at
write_at-start buf str h =
    rw (drop_beyond buf (0 + length str) (omega arith), append_nil)
      (ap (λ n. record { buf = str; pos = n }) (omega arith))

-- The keys of an input, one call after the other, and the handlers that they call.
unfoldable pub feed : Outside → List Cmds → Option Ctx → Str → Option Ctx × List Call
feed out cmdl ctx [] = (ctx, [])
feed out cmdl ctx (key ∷ keys) =
    let r = cmd_process out cmdl true ctx key in
    let (ctx', calls) = feed out cmdl r.ctx keys in (ctx', r.calls ++ calls)

-- Printing and memory do not fail.
pub record Works (out : Outside) : Type 0 where
  pub prints : (p : Print) → out.hprintf p ≡ 0
  pub writes : (mb : Mbuf) (str : Str) → out.write mb str ≡ 0
  pub memory : out.memory ≡ true

-- The context of an editor in which `buf` stands.
abbrev pub editing : Ctx → Str → Ctx
editing c buf = record c { mb = at_end buf }

bit_or_zero : bit_or 0 0 ≡ 0
bit_or_zero = refl

module _ (out : Outside) (works : Works out) (cmdl : List Cmds) where
  append_key_works :
      (buf : Str) (key : ℕ) (is_long : Bool)
      → append_key out (at_end buf) key is_long
        ≡ record { mb = at_end (buf ++ (key ∷ [])); err = 0; del = false }
  unfolding append_key echo
  append_key_works buf key is_long =
      rw (works.writes, write_at-end buf (key ∷ []), works.prints) refl

  editor_input-text :
      (buf : Str) (key : ℕ) (is_long : Bool)
      → IsText key
      → editor_input out cmdl (at_end buf) key is_long ≡ append_key out (at_end buf) key is_long
  unfolding editor_input
  editor_input-text buf key is_long t =
      ground (arith, t.no_end, t.no_rel, t.no_back, t.no_tab, t.no_enter, t.no_esc, t.no_del)

  process_text :
      (c : Ctx) (buf : Str) (key : ℕ)
      → IsText key
      → cmd_process out cmdl true (some (editing c buf)) key
        ≡ record { ctx = some (editing c (buf ++ (key ∷ []))); err = 0; calls = [] }
  unfolding cmd_process cmd_process_edit finish
  process_text c buf key t = ground (
    arith,
    t.no_end,
    t.no_rel,
    t.no_enter,
    editor_input-text buf key c.is_long t,
    append_key_works buf key c.is_long,
  )

  -- Text typed into an open editor joins what stands there.
  feed_text :
      (c : Ctx) (buf keys : Str)
      → AllText keys
      → feed out cmdl (some (editing c buf)) keys ≡ (some (editing c (buf ++ keys)), [])
  unfolding feed
  feed_text c buf [] t = rw append_nil refl
  feed_text c buf (key ∷ keys) t =
      rw (process_text c buf key t.0, feed_text c (buf ++ (key ∷ [])) keys t.1, append_assoc) refl

  process_slash :
      cmd_find_by_key cmdl long_prefix ≡ none
      → cmd_process out cmdl true none long_prefix
        ≡ record { ctx = some (editing (new_ctx out none true) []); err = 0; calls = [] }
  unfolding cmd_process open_long other_key
  process_slash free = ground (arith, works.prints slash, works.memory)

  process_enter :
      (c : Ctx)
      → c.is_long ≡ true
      → cmd_process out cmdl true (some c) 0x0a ≡ record {
        ctx = none;
        err = (cmd_process_long out cmdl c.mb.buf).0;
        calls = (cmd_process_long out cmdl c.mb.buf).1;
      }
  unfolding cmd_process cmd_process_edit finish editor_input
  process_enter c long = ground (arith, works.prints newline)

  backspace_at :
      (mb : Mbuf) (n : ℕ) (is_long : Bool)
      → ltb 0 mb.pos ≡ true
      → mb.pos - 1 ≡ n
      → backspace out mb is_long
        ≡ record { mb = record { buf = take n mb.buf; pos = n }; err = 0; del = false }
  unfolding backspace echo
  backspace_at mb n is_long pos e =
      rw (pos, works.prints erase, e, works.prints (prompt is_long (take n mb.buf))) refl

  backspace_works :
      (buf : Str) (key : ℕ) (is_long : Bool)
      → backspace out (at_end (buf ++ (key ∷ []))) is_long
        ≡ record { mb = at_end buf; err = 0; del = false }
  backspace_works buf key is_long =
      let n = length-append buf (key ∷ []) in
      backspace_at (at_end (buf ++ (key ∷ []))) (length buf) is_long (lt→ltb _ _ (omega (arith, n)))
        (omega (arith, n))
      ∙ rw (take_front buf (key ∷ [])) refl

  process_backspace :
      (c : Ctx) (buf : Str) (key : ℕ)
      → cmd_process out cmdl true (some (editing c (buf ++ (key ∷ [])))) 0x08
        ≡ record { ctx = some (editing c buf); err = 0; calls = [] }
  unfolding cmd_process cmd_process_edit finish editor_input
  process_backspace c buf key = rw (backspace_works buf key c.is_long) refl

  -- The editor for a long command collects the text that is typed after the `/`, where that is no
  -- short command and printing and memory do not fail. Enter then processes the text as a long
  -- command, once, and closes the editor.
  pub type-enter :
      (keys : Str)
      → AllText keys
      → cmd_find_by_key cmdl long_prefix ≡ none
      → (c : Ctx) × (feed out cmdl none (long_prefix ∷ keys) ≡ (some c, []))
        × (cmd_process out cmdl true (some c) 0x0a ≡ record {
          ctx = none;
          err = (cmd_process_long out cmdl keys).0;
          calls = (cmd_process_long out cmdl keys).1;
        })
  unfolding feed
  type-enter keys t free =
      let c = editing (new_ctx out none true) keys in
      (
        c,
        rw (process_slash free, feed_text (new_ctx out none true) [] keys t) refl,
        process_enter c refl,
      )

  -- A character and a backspace leave the input as it was, where printing and memory do not fail.
  pub type-backspace :
      (c : Ctx) (buf : Str) (key : ℕ)
      → IsText key
      → feed out cmdl (some (editing c buf)) (key ∷ 0x08 ∷ []) ≡ (some (editing c buf), [])
  unfolding feed
  type-backspace c buf key t = rw (process_text c buf key t, process_backspace c buf key) refl
