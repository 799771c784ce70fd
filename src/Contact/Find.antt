-- ===== src/Contact/Find.antt =====
-- src/contact.c: which contact a URI finds after a change of the list.
use baresip.Prelude.{
  ℕ, ◌≡◌, ◌≢◌, ◌<◌, refl, ap, sym, subst, ◌∙◌, true, false, none, some, List, [], ◌∷◌, ◌++◌, ◌==◌,
  if◌then◌else◌, Bool-cases, Option-cases, inl, inr, arith, ==_iff,
}
use baresip.Contact.{
  Str, Access, Addr, Contact, Contacts, Libre, unlink, update, contact_remove, found_by,
  hash_lookup, contact_find, link,
}

-- All contacts of a list stand below the first free address.
abbrev pub Below : ℕ → List ℕ → Type 0
Below next [] = Unit
Below next (c ∷ cs) = (c < next) × Below next cs

module _ (libre : Libre) where
  -- No two contacts of the list have the same URI.
  abbrev pub Unique : (ℕ → Contact) → List ℕ → Type 0
  Unique obj [] = Unit
  Unique obj (c ∷ cs) = (hash_lookup libre obj (obj c).addr.auri cs ≡ none) × Unique obj cs

  -- Strings are the same exactly if they compare as equal.
  pub record Compares : Type 0 where
    pub same : (x y : Str) → libre.strcmp x y ≡ true → x ≡ y
    pub equal : (x : Str) → libre.strcmp x x ≡ true

  -- A change at a free address is not seen by a lookup.
  pub lookup-update :
      (obj : ℕ → Contact) (uri : Str) (at : ℕ) (contact : Contact) (cs : List ℕ)
      → Below at cs
      → hash_lookup libre (update obj at contact) uri cs ≡ hash_lookup libre obj uri cs
  unfolding hash_lookup
  lookup-update obj uri at contact [] b = refl
  lookup-update obj uri at contact (c ∷ cs) b =
      let other : (c == at) ≡ false = ground (arith, b.0) in
      rw (other, lookup-update obj uri at contact cs b.1) refl

  pub lookup-append :
      (obj : ℕ → Contact) (uri : Str) (cs : List ℕ) (c : ℕ)
      → hash_lookup libre obj uri (cs ++ (c ∷ [])) ≡ (elim (hash_lookup libre obj uri cs) [
        | some d ↦ some d
        | none ↦ if found_by libre obj uri c then some c else none
      ])
  unfolding hash_lookup
  lookup-append obj uri [] c = refl
  lookup-append obj uri (d ∷ cs) c = elim (Bool-cases (found_by libre obj uri d)) [
    | inl found ↦ rw found refl
    | inr other ↦ rw (other, lookup-append obj uri cs c) refl
  ]

  lookup-found :
      (obj : ℕ → Contact) (uri : Str) (c : ℕ) (cs : List ℕ)
      → hash_lookup libre obj uri cs ≡ some c
      → found_by libre obj uri c ≡ true
  unfolding hash_lookup
  lookup-found obj uri c [] e = absurd (cc (e))
  lookup-found obj uri c (d ∷ cs) e = elim (Bool-cases (found_by libre obj uri d)) [
    | inl found ↦
        let here : d ≡ c = ground (arith, e, found) in
        subst (λ x. found_by libre obj uri x ≡ true) here found
    | inr missed ↦ lookup-found obj uri c cs (ground (arith, e, missed))
  ]

  module _ (law : Compares) where
    -- A contact that a lookup finds has the URI.
    pub found_by-uri :
        (obj : ℕ → Contact) (uri : Str) (c : ℕ)
        → found_by libre obj uri c ≡ true
        → (obj c).addr.auri ≡ uri
    found_by-uri obj uri c e = law.same (obj c).addr.auri uri (ground arith)

    pub found_by_self : (obj : ℕ → Contact) (c : ℕ) → found_by libre obj (obj c).addr.auri c ≡ true
    found_by_self obj c = ground (arith, law.equal (obj c).addr.auri)

    -- The removal of what a lookup found leaves nothing to find.
    lookup-unlink_self :
        (obj : ℕ → Contact) (uri : Str) (c : ℕ) (cs : List ℕ)
        → Unique obj cs
        → hash_lookup libre obj uri cs ≡ some c
        → hash_lookup libre obj uri (unlink c cs) ≡ none
    unfolding hash_lookup unlink
    lookup-unlink_self obj uri c [] u e = refl
    lookup-unlink_self obj uri c (d ∷ cs) u e = elim (Bool-cases (found_by libre obj uri d)) [
      | inl found ↦
          let here : d ≡ c = ground (arith, e, found) in
          let gone =
            subst (λ x. hash_lookup libre obj x cs ≡ none) (found_by-uri obj uri d found) u.0 in
          let same : (d == c) ≡ true = (==_iff d c).1 here in rw same gone
      | inr missed ↦
          let later : hash_lookup libre obj uri cs ≡ some c = ground (arith, e, missed) in
          let other : (d == c) ≡ false = elim (Bool-cases (d == c)) [
            | inl same ↦
                let hit = lookup-found obj uri c cs later in
                absurd (cc (hit, missed, (==_iff d c).0 same))
            | inr other ↦ other
          ] in
          rw (other, missed) (lookup-unlink_self obj uri c cs u.1 later)
    ]

    -- Other URIs find what they found.
    lookup-unlink_other :
        (obj : ℕ → Contact) (uri : Str) (c : ℕ) (cs : List ℕ)
        → found_by libre obj uri c ≡ false
        → hash_lookup libre obj uri (unlink c cs) ≡ hash_lookup libre obj uri cs
    unfolding hash_lookup unlink
    lookup-unlink_other obj uri c [] e = refl
    lookup-unlink_other obj uri c (d ∷ cs) e = elim (Bool-cases (d == c)) [
      | inl same ↦
          let missed : found_by libre obj uri d ≡ false = cc (e, (==_iff d c).0 same) in
          rw (same, missed) refl
      | inr other ↦ rw other (ground (arith, lookup-unlink_other obj uri c cs e))
    ]

    pub find-remove_self :
        (cs : Contacts) (uri : Str)
        → Unique cs.obj cs.cht
        → contact_find libre (contact_remove cs (contact_find libre cs uri)) uri ≡ none
    unfolding contact_find contact_remove
    find-remove_self cs uri u = elim (Bool-cases (libre.isset uri)) [
      | inr unset ↦ rw unset refl
      | inl set ↦ elim (Option-cases (hash_lookup libre cs.obj uri cs.cht)) [
        | inl missing ↦ rw (set, missing) missing
        | inr (c, found) ↦ rw (set, found) (lookup-unlink_self cs.obj uri c cs.cht u found)
      ]
    ]

    pub find-remove_other :
        (cs : Contacts) (uri other : Str)
        → uri ≢ other
        → contact_find libre (contact_remove cs (contact_find libre cs uri)) other
          ≡ contact_find libre cs other
    unfolding contact_find contact_remove
    find-remove_other cs uri other ne = elim (Bool-cases (libre.isset uri)) [
      | inr unset ↦ rw unset refl
      | inl set ↦ elim (Option-cases (hash_lookup libre cs.obj uri cs.cht)) [
        | inl missing ↦ rw (set, missing) refl
        | inr (c, found) ↦
            let is_uri = found_by-uri cs.obj uri c (lookup-found cs.obj uri c cs.cht found) in
            let missed : found_by libre cs.obj other c ≡ false =
              elim (Bool-cases (found_by libre cs.obj other c)) [
                | inl hit ↦ absurd (ne (sym is_uri ∙ found_by-uri cs.obj other c hit))
                | inr missed ↦ missed
              ] in
            rw (set, found)
              (ap (λ o. if libre.isset other then o else none)
                (lookup-unlink_other cs.obj other c cs.cht missed))
      ]
    ]

    -- The new contact behind the others.
    pub find-link :
        (cs : Contacts) (addr : Addr) (access : Access) (uri : Str)
        → Below cs.next cs.cht
        → contact_find libre (link libre cs addr access) uri ≡ (
            if libre.isset uri
            then elim (contact_find libre cs uri) [
              | some d ↦ some d
              | none ↦
                  if found_by libre (link libre cs addr access).obj uri cs.next
                  then some cs.next
                  else none
            ]
            else none)
    unfolding contact_find link
    find-link cs addr access uri b = elim (Bool-cases (libre.isset uri)) [
      | inr unset ↦ rw unset refl
      | inl set ↦
          let obj = (link libre cs addr access).obj in
          let same : hash_lookup libre obj uri cs.cht ≡ hash_lookup libre cs.obj uri cs.cht =
            lookup-update cs.obj uri cs.next _ cs.cht b in
          rw set (
            lookup-append obj uri cs.cht cs.next
            ∙ ap
                (λ o. elim o [
                  | some d ↦ some d
                  | none ↦ if found_by libre obj uri cs.next then some cs.next else none
                ])
                same)
    ]
