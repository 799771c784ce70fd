-- ===== src/Call/Numbers.antt =====
-- src/call.c: line numbers are the smallest free ones, so no two calls share one.
use baresip.Prelude.{
  ℕ, zero, suc, ◌+◌, ◌≤◌, ◌<◌, ◌≡◌, ◌≢◌, ◌⊎◌, inl, inr, ◌∙◌, sym, subst, none, some, List, [], ◌∷◌,
  arith, Option-cases, length, ◌==◌, Bool-cases, ==_iff,
}
use baresip.Call.{Call}
use baresip.Call.Lines.{find_call, call_find_linenum, assign_from, assign_linenum, unlink}

-- A call of the list has the line number.
abbrev pub Taken : List Call → ℕ → Type 0
Taken [] n = ⊥
Taken (call ∷ calls) n = (call.linenum ≡ n) ⊎ Taken calls n

-- No two calls of the list have the same line number.
abbrev pub DistinctLines : List Call → Type 0
DistinctLines [] = Unit
DistinctLines (call ∷ calls) = (Taken calls call.linenum → ⊥) × DistinctLines calls

find-none : (calls : List Call) (n : ℕ) → call_find_linenum calls n ≡ none → Taken calls n → ⊥
unfolding call_find_linenum find_call
find-none [] n e t = t
find-none (call ∷ calls) n e (inl same) = ground arith
find-none (call ∷ calls) n e (inr t) = ground (arith, find-none calls n)

find-Taken :
    (calls : List Call) (n : ℕ) (c : Call) → call_find_linenum calls n ≡ some c → Taken calls n
unfolding call_find_linenum find_call
find-Taken [] n c e = absurd (cc (e))
find-Taken (call ∷ calls) n c e = elim (Bool-cases (n == call.linenum)) [
  | inl same ↦ inl (ground arith)
  | inr other ↦ inr (find-Taken calls n c (ground arith))
]

-- The loop from `num` on: the result is free, and the numbers before it are taken.
assign_from-some :
    (calls : List Call) (num n : ℕ) (r : ℕ)
    → assign_from calls num n ≡ some r
    → (num ≤ r) × (r < num + n) × (Taken calls r → ⊥) × ((m : ℕ) → num ≤ m → m < r → Taken calls m)
unfolding assign_from
assign_from-some calls num zero r e = absurd (cc (e))
assign_from-some calls num (suc n) r e = elim (Option-cases (call_find_linenum calls num)) [
  | inl free ↦
      let same : num ≡ r = ground arith in
      (
        omega (arith, same),
        omega (arith, same),
        subst (λ k. Taken calls k → ⊥) same (find-none calls num free),
        λ m lo hi. absurd (omega (arith, lo, hi, same)),
      )
  | inr (c, taken) ↦
      let (lo, hi, free, before) = assign_from-some calls (num + 1) n r (ground arith) in
      (
        omega (arith, lo),
        omega (arith, hi),
        free,
        λ m from to. elim (Bool-cases (num == m)) [
          | inl same ↦ subst (Taken calls) ((==_iff num m).0 same) (find-Taken calls num c taken)
          | inr other ↦ before m (ground arith) to
        ],
      )
]

assign_from-none :
    (calls : List Call) (num n : ℕ)
    → assign_from calls num n ≡ none
    → (m : ℕ) → num ≤ m
    → m < num + n
    → Taken calls m
unfolding assign_from
assign_from-none calls num zero e m h h' = absurd (omega (arith, h, h'))
assign_from-none calls num (suc n) e m h h' = elim (Option-cases (call_find_linenum calls num)) [
  | inl free ↦ absurd (ground arith)
  | inr (c, taken) ↦ elim (Bool-cases (num == m)) [
    | inl same ↦ subst (Taken calls) ((==_iff num m).0 same) (find-Taken calls num c taken)
    | inr other ↦
        assign_from-none calls (num + 1) n (ground arith) m (ground arith) (omega (arith, h'))
  ]
]

pub assign_linenum-free :
    (calls : List Call) (r : ℕ) → assign_linenum calls ≡ some r → Taken calls r → ⊥
unfolding assign_linenum
assign_linenum-free calls r e = (assign_from-some calls 1 255 r e).2

length-unlink :
    (calls : List Call) (n : ℕ) → Taken calls n → suc (length (unlink calls n)) ≡ length calls
unfolding unlink
length-unlink [] n t = absurd t
length-unlink (call ∷ calls) n t = elim (Bool-cases (call.linenum == n)) [
  | inl same ↦ ground (arith, same)
  | inr other ↦ elim t [
    | inl same ↦ absurd (ground (arith, other, same))
    | inr t' ↦ ground (arith, other, length-unlink calls n t')
  ]
]

unlink-Taken : (calls : List Call) (m n : ℕ) → Taken calls m → m ≢ n → Taken (unlink calls n) m
unfolding unlink
unlink-Taken [] m n t ne = t
unlink-Taken (call ∷ calls) m n t ne = elim (Bool-cases (call.linenum == n)) [
  | inl same ↦
      rw same elim t [ inl e ↦ absurd (ne (sym e ∙ (==_iff call.linenum n).0 same)) | inr t' ↦ t' ]
  | inr other ↦ rw other elim t [ inl e ↦ inl e | inr t' ↦ inr (unlink-Taken calls m n t' ne) ]
]

-- A list in which `n` numbers in a row are taken has at least `n` calls.
pigeonhole :
    (calls : List Call) (num n : ℕ)
    → ((m : ℕ) → num ≤ m → m < num + n → Taken calls m)
    → n ≤ length calls
pigeonhole calls num zero all = omega arith
pigeonhole calls num (suc n) all =
    let here = all num (omega arith) (omega arith) in
    let rest = pigeonhole (unlink calls num) (num + 1) n (λ m lo hi.
      unlink-Taken calls m num (all m (omega (arith, lo)) (omega (arith, hi)))
        (λ e. absurd (omega (arith, lo, e)))) in
    omega (arith, rest, length-unlink calls num here)

-- With fewer than 255 calls a new call gets a line number: the smallest one that is free, from 1 to
-- 255.
pub assign_linenum-smallest :
    (calls : List Call)
    → length calls < 255
    → (r : ℕ) × (assign_linenum calls ≡ some r)
      × (1 ≤ r)
      × (r < 256)
      × (Taken calls r → ⊥)
      × ((m : ℕ) → 1 ≤ m → m < r → Taken calls m)
unfolding assign_linenum
assign_linenum-smallest calls few = elim (Option-cases (assign_from calls 1 255)) [
  | inl full ↦
      absurd (omega (arith, few, pigeonhole calls 1 255 (assign_from-none calls 1 255 full)))
  | inr (r, e) ↦
      let (lo, hi, free, before) = assign_from-some calls 1 255 r e in (r, e, lo, hi, free, before)
]
