-- ===== src/Contact/Keeps.antt =====
-- src/contact.c: `contact_add` keeps the list valid.
use baresip.Prelude.{
  ℕ, ◌≡◌, ◌≢◌, ◌+◌, refl, ap, sym, subst, ◌∙◌, Bool, true, false, Option, none, some, List, [], ◌∷◌,
  ◌++◌, ◌==◌, Bool-cases, Option-cases, inl, inr, arith,
}
use baresip.Contact.{
  Str, Access, Addr, Contact, Contacts, Libre, update, contact_remove, found_by, hash_lookup,
  contact_find, decode_access, link, contact_add,
}
use baresip.Contact.Find.{
  Below, Unique, Compares, lookup-update, lookup-append, find-remove_self, found_by_self,
  found_by-uri,
}
use baresip.Contact.Valid.{IsValid, Listed, member, remove-IsValid}
use baresip.Contact.Add.{add_accepted, add_refused}

link-Below : (next : ℕ) (cs : List ℕ) → Below next cs → Below (next + 1) (cs ++ (next ∷ []))
link-Below next [] b = (omega arith, tt)
link-Below next (c ∷ cs) b = (omega (arith, b.0), link-Below next cs b.1)

member-append : (x c : ℕ) (cs : List ℕ) → member x cs ≡ true → member x (cs ++ (c ∷ [])) ≡ true
member-append x c [] e = absurd (cc (e))
member-append x c (d ∷ cs) e = ground (arith, member-append x c cs)

Listed-append : (cur : Option ℕ) (c : ℕ) (cs : List ℕ) → Listed cur cs → Listed cur (cs ++ (c ∷ []))
Listed-append none c cs l = l
Listed-append (some x) c cs l = member-append x c cs l

module _ (libre : Libre) (law : Compares libre) where
  update_at : (obj : ℕ → Contact) (at : ℕ) (contact : Contact) → update obj at contact at ≡ contact
  update_at obj at contact = let e : (at == at) ≡ true = ground arith in rw e refl

  -- A contact with another URI does not match.
  not_found_by :
      (obj : ℕ → Contact) (uri : Str) (c : ℕ)
      → (obj c).addr.auri ≢ uri
      → found_by libre obj uri c ≡ false
  not_found_by obj uri c ne = elim (Bool-cases (found_by libre obj uri c)) [
    | inl hit ↦ absurd (ne (found_by-uri libre law obj uri c hit))
    | inr missed ↦ missed
  ]

  lookup_none :
      (obj : ℕ → Contact) (uri : Str) (c : ℕ) (cs : List ℕ)
      → hash_lookup libre obj uri (c ∷ cs) ≡ none
      → (found_by libre obj uri c ≡ false) × (hash_lookup libre obj uri cs ≡ none)
  unfolding hash_lookup
  lookup_none obj uri c cs e = ground arith

  Unique-append :
      (obj : ℕ → Contact) (contact : Contact) (next : ℕ) (cs : List ℕ)
      → Below next cs
      → Unique libre obj cs
      → hash_lookup libre obj contact.addr.auri cs ≡ none
      → Unique libre (update obj next contact) (cs ++ (next ∷ []))
  unfolding hash_lookup
  Unique-append obj contact next [] b u free = (refl, tt)
  Unique-append obj contact next (c ∷ cs) b u free =
      let (missed, free') = lookup_none obj contact.addr.auri c cs free in
      let obj' = update obj next contact in
      let other : (c == next) ≡ false = ground (arith, b.0) in
      let differs : contact.addr.auri ≢ (obj c).addr.auri =
        λ same. cc (missed, found_by_self libre law obj c, same) in
      let new : found_by libre obj' (obj c).addr.auri next ≡ false =
        not_found_by obj' (obj c).addr.auri next (
          subst (λ x. x.addr.auri ≢ (obj c).addr.auri) (sym (update_at obj next contact))
            differs) in
      (
        rw other (
            lookup-append libre obj' (obj c).addr.auri cs next
            ∙ ground
                (arith, new, lookup-update libre obj (obj c).addr.auri next contact cs b.1, u.0)),
        Unique-append obj contact next cs b.1 u.1 free',
      )

  link-IsValid :
      (cs : Contacts) (addr : Addr) (access : Access)
      → IsValid libre cs
      → hash_lookup libre cs.obj addr.auri cs.cht ≡ none
      → IsValid libre (link libre cs addr access)
  unfolding link
  link-IsValid cs addr access v free = record {
    shared = ap (λ l. l ++ (cs.next ∷ [])) v.shared;
    below = link-Below cs.next cs.cht v.below;
    unique = Unique-append cs.obj _ cs.next cs.cht v.below v.unique free;
    current = Listed-append cs.cur cs.next cs.cl v.current;
  }

  find_none :
      (cs : Contacts) (uri : Str)
      → libre.isset uri ≡ true
      → contact_find libre cs uri ≡ none
      → hash_lookup libre cs.obj uri cs.cht ≡ none
  unfolding contact_find
  find_none cs uri set e = ground (arith, set, e)

  replace-IsValid :
      (cs : Contacts) (str : Str) (addr : Addr)
      → libre.decode str ≡ some addr
      → libre.isset addr.auri ≡ true
      → IsValid libre cs
      → IsValid libre (contact_add libre cs true str).0
  replace-IsValid cs str addr dec set v =
      let left = contact_remove cs (contact_find libre cs addr.auri) in
      let valid = remove-IsValid libre cs (contact_find libre cs addr.auri) v in
      elim (Option-cases (decode_access libre addr.access)) [
        | inl bad ↦
            subst (λ r. IsValid libre r.0) (sym (add_refused libre cs str addr dec bad)) valid
        | inr (access, known) ↦
            subst (λ r. IsValid libre r.0) (sym (add_accepted libre cs str addr access dec known))
              (link-IsValid left addr access valid
                (find_none left addr.auri set (find-remove_self libre law cs addr.auri v.unique)))
      ]

  add_undecoded :
      (cs : Contacts) (str : Str) → libre.decode str ≡ none → (contact_add libre cs true str).0 ≡ cs
  unfolding contact_add
  add_undecoded cs str e = rw e refl

  contact_add-IsValid :
      (cs : Contacts) (memory : Bool) (str : Str)
      → ((s : Str) (addr : Addr) → libre.decode s ≡ some addr → libre.isset addr.auri ≡ true)
      → IsValid libre cs
      → IsValid libre (contact_add libre cs memory str).0
  unfolding contact_add
  contact_add-IsValid cs false str set v = v
  contact_add-IsValid cs true str set v = elim (Option-cases (libre.decode str)) [
    | inl bad ↦ subst (IsValid libre) (sym (add_undecoded cs str bad)) v
    | inr (addr, dec) ↦ replace-IsValid cs str addr dec (set str addr dec) v
  ]

  -- `contact_add` with any result, and `contact_remove`, leave the list and the hash table with the
  -- same contacts, one for each URI that is set, and the current contact among them. The URIs that
  -- the decoder returns are set.
  pub add-IsValid :
      (cs : Contacts) (memory : Bool) (str : Str) (o : Option ℕ)
      → ((s : Str) (addr : Addr) → libre.decode s ≡ some addr → libre.isset addr.auri ≡ true)
      → IsValid libre cs
      → IsValid libre (contact_add libre cs memory str).0 × IsValid libre (contact_remove cs o)
  add-IsValid cs memory str o set v =
      (contact_add-IsValid cs memory str set v, remove-IsValid libre cs o v)
