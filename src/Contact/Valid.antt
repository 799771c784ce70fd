-- ===== src/Contact/Valid.antt =====
-- src/contact.c: the list and the hash table hold the same contacts, one for each URI.
use baresip.Prelude.{
  ℕ, ◌≡◌, ◌≢◌, refl, ap, Bool, true, false, ◌||◌, Option, none, some, List, [], ◌∷◌, ◌==◌,
  if◌then◌else◌, Bool-cases, inl, inr, arith,
}
use baresip.Contact.{Str, Contact, Contacts, Libre, unlink, contact_remove, hash_lookup}
use baresip.Contact.Find.{Below, Unique}

abbrev pub member : ℕ → List ℕ → Bool
member c [] = false
member c (d ∷ cs) = c == d || member c cs

-- The current contact is in the list.
abbrev pub Listed : Option ℕ → List ℕ → Type 0
Listed none cs = Unit
Listed (some c) cs = member c cs ≡ true

module _ (libre : Libre) where
  pub record IsValid (cs : Contacts) : Type 0 where
    pub shared : cs.cl ≡ cs.cht
    pub below : Below cs.next cs.cht
    pub unique : Unique libre cs.obj cs.cht
    pub current : Listed cs.cur cs.cl

  Below-unlink : (next c : ℕ) (cs : List ℕ) → Below next cs → Below next (unlink c cs)
  unfolding unlink
  Below-unlink next c [] b = b
  Below-unlink next c (d ∷ cs) b = elim (Bool-cases (d == c)) [
    | inl same ↦ rw same b.1
    | inr other ↦ rw other (b.0, Below-unlink next c cs b.1)
  ]

  lookup-unlink-none :
      (obj : ℕ → Contact) (uri : Str) (c : ℕ) (cs : List ℕ)
      → hash_lookup libre obj uri cs ≡ none
      → hash_lookup libre obj uri (unlink c cs) ≡ none
  unfolding unlink hash_lookup
  lookup-unlink-none obj uri c [] e = e
  lookup-unlink-none obj uri c (d ∷ cs) e = elim (Bool-cases (d == c)) [
    | inl same ↦ rw same (ground arith)
    | inr other ↦ rw other (ground (arith, lookup-unlink-none obj uri c cs))
  ]

  Unique-unlink :
      (obj : ℕ → Contact) (c : ℕ) (cs : List ℕ)
      → Unique libre obj cs
      → Unique libre obj (unlink c cs)
  unfolding unlink
  Unique-unlink obj c [] u = u
  Unique-unlink obj c (d ∷ cs) u = elim (Bool-cases (d == c)) [
    | inl same ↦ rw same u.1
    | inr other ↦
        rw other (lookup-unlink-none obj (obj d).addr.auri c cs u.0, Unique-unlink obj c cs u.1)
  ]

  member-unlink :
      (x c : ℕ) (cs : List ℕ) → x ≢ c → member x cs ≡ true → member x (unlink c cs) ≡ true
  unfolding unlink
  member-unlink x c [] ne e = e
  member-unlink x c (d ∷ cs) ne e = elim (Bool-cases (d == c)) [
    | inl same ↦ rw same (ground arith)
    | inr other ↦ rw other (ground (arith, member-unlink x c cs ne))
  ]

  Listed-unlink :
      (cur : Option ℕ) (c : ℕ) (cs : List ℕ)
      → Listed cur cs
      → Listed (elim cur [ none ↦ none | some x ↦ if x == c then none else some x ]) (unlink c cs)
  Listed-unlink none c cs l = l
  Listed-unlink (some x) c cs l = elim (Bool-cases (x == c)) [
    | inl same ↦ rw same tt
    | inr other ↦ rw other (member-unlink x c cs (ground arith) l)
  ]

  pub remove-IsValid : (cs : Contacts) (o : Option ℕ) → IsValid cs → IsValid (contact_remove cs o)
  unfolding contact_remove
  remove-IsValid cs none v = v
  remove-IsValid cs (some c) v = record {
    shared = ap (unlink c) v.shared;
    below = Below-unlink cs.next c cs.cht v.below;
    unique = Unique-unlink cs.obj c cs.cht v.unique;
    current = Listed-unlink cs.cur c cs.cl v.current;
  }

  pub remove-next : (cs : Contacts) (o : Option ℕ) → (contact_remove cs o).next ≡ cs.next
  unfolding contact_remove
  remove-next cs none = refl
  remove-next cs (some c) = refl
