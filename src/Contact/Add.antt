-- ===== src/Contact/Add.antt =====
-- src/contact.c: `contact_add` and the lookups, and what an access parameter does.
use baresip.Prelude.{
  ℕ, ◌≡◌, ◌≢◌, refl, ap, sym, subst, ◌∙◌, Bool, true, false, Option, none, some, ◌==◌,
  if◌then◌else◌, Bool-cases, inl, inr, arith,
}
use baresip.Contact.{
  Str, Access, access_unknown, access_block, access_allow, Addr, Contacts, Libre, contact_remove,
  found_by, contact_find, decode_access, link, replace, contact_add, blocks, contact_block_access,
}
use baresip.Contact.Find.{
  Below, Compares, find-remove_self, find-remove_other, find-link, found_by_self, found_by-uri,
}
use baresip.Contact.Valid.{IsValid, remove-IsValid, remove-next}

-- What the access of a contact says about its calls: are they blocked?
abbrev pub says : Access → Option Bool
says access_unknown = none
says access_block = some true
says access_allow = some false

module _ (libre : Libre) where
  pub add_accepted :
      (cs : Contacts) (str : Str) (addr : Addr) (access : Access)
      → libre.decode str ≡ some addr
      → decode_access libre addr.access ≡ some access
      → contact_add libre cs true str
        ≡ (link libre (contact_remove cs (contact_find libre cs addr.auri)) addr access, 0)
  unfolding contact_add replace
  add_accepted cs str addr access dec known = ground (arith, dec, known)

  pub add_refused :
      (cs : Contacts) (str : Str) (addr : Addr)
      → libre.decode str ≡ some addr
      → decode_access libre addr.access ≡ none
      → contact_add libre cs true str ≡ (contact_remove cs (contact_find libre cs addr.auri), 22)
  unfolding contact_add replace
  add_refused cs str addr dec bad = ground (arith, dec, bad)

  link_obj :
      (cs : Contacts) (addr : Addr) (access : Access)
      → let c = (link libre cs addr access).obj cs.next in (c.addr ≡ addr) × (c.access ≡ access)
  unfolding link
  link_obj cs addr access =
      let e : (cs.next == cs.next) ≡ true = ground arith in (rw e refl, rw e refl)

  -- A string that is not set finds nothing.
  find_if :
      (cs : Contacts) (uri : Str) (c : ℕ) {b : Bool}
      → b ≡ false
      → (if libre.isset uri
          then elim (contact_find libre cs uri) [
            | some d ↦ some d
            | none ↦ if b then some c else none
          ]
          else none)
        ≡ contact_find libre cs uri
  unfolding contact_find
  find_if cs uri c e = ground (arith, e)

  module _ (law : Compares libre) where
    find-link_new :
        (cs : Contacts) (addr : Addr) (access : Access)
        → Below cs.next cs.cht
        → libre.isset addr.auri ≡ true
        → contact_find libre cs addr.auri ≡ none
        → contact_find libre (link libre cs addr access) addr.auri ≡ some cs.next
    find-link_new cs addr access b set free =
        let obj = (link libre cs addr access).obj in
        let hit : found_by libre obj addr.auri cs.next ≡ true =
          subst (λ a. found_by libre obj a.auri cs.next ≡ true) (link_obj cs addr access).0
            (found_by_self libre law obj cs.next) in
        find-link libre law cs addr access addr.auri b ∙ ground (arith, set, free, hit)

    find-link_other :
        (cs : Contacts) (addr : Addr) (access : Access) (uri : Str)
        → Below cs.next cs.cht
        → uri ≢ addr.auri
        → contact_find libre (link libre cs addr access) uri ≡ contact_find libre cs uri
    find-link_other cs addr access uri b ne =
        let obj = (link libre cs addr access).obj in
        let missed : found_by libre obj uri cs.next ≡ false =
          elim (Bool-cases (found_by libre obj uri cs.next)) [
            | inl hit ↦ absurd (
                ne (
                  sym (found_by-uri libre law obj uri cs.next hit)
                  ∙ ap (λ a. a.auri) (link_obj cs addr access).0))
            | inr missed ↦ missed
          ] in
        find-link libre law cs addr access uri b ∙ find_if cs uri cs.next missed

    remove-Below :
        (cs : Contacts) (o : Option ℕ)
        → IsValid libre cs
        → Below (contact_remove cs o).next (contact_remove cs o).cht
    remove-Below cs o v = (remove-IsValid libre cs o v).below

    find-added :
        (cs : Contacts) (str : Str) (addr : Addr) (access : Access)
        → IsValid libre cs
        → libre.decode str ≡ some addr
        → libre.isset addr.auri ≡ true
        → decode_access libre addr.access ≡ some access
        → contact_find libre (contact_add libre cs true str).0 addr.auri ≡ some cs.next
    find-added cs str addr access v dec set known =
        let o = contact_find libre cs addr.auri in
        rw (add_accepted cs str addr access dec known) (
          find-link_new (contact_remove cs o) addr access (remove-Below cs o v) set
            (find-remove_self libre law cs addr.auri v.unique)
          ∙ ap some (remove-next libre cs o))

    -- After an address with a URI that is set and a known access parameter, or none, was added to a
    -- valid list, its URI finds the new contact, and any other URI finds what it found before, if
    -- there was memory and strings compare as equal exactly where they are.
    pub find-add :
        (cs : Contacts) (str : Str) (addr : Addr) (access : Access) (uri : Str)
        → IsValid libre cs
        → libre.decode str ≡ some addr
        → libre.isset addr.auri ≡ true
        → decode_access libre addr.access ≡ some access
        → uri ≢ addr.auri
        → let (cs', err) = contact_add libre cs true str in
          (err ≡ 0)
          × (contact_find libre cs' addr.auri ≡ some cs.next)
          × (contact_find libre cs' uri ≡ contact_find libre cs uri)
    find-add cs str addr access uri v dec set known ne =
        let o = contact_find libre cs addr.auri in
        let left = contact_remove cs o in
        let e = add_accepted cs str addr access dec known in
        (
          rw e refl,
          find-added cs str addr access v dec set known,
          rw e (
              find-link_other left addr access uri (remove-Below cs o v) ne
              ∙ find-remove_other libre law cs addr.auri uri (λ same. ne (sym same))),
        )

    -- Where strings compare as equal exactly if they are: an address with an access parameter that
    -- is not known is refused by a valid list with EINVAL, but the
    -- contact that had its URI is removed.
    pub find-add_refused :
        (cs : Contacts) (str : Str) (addr : Addr)
        → IsValid libre cs
        → libre.decode str ≡ some addr
        → decode_access libre addr.access ≡ none
        → let (cs', err) = contact_add libre cs true str in
          (err ≡ 22) × (contact_find libre cs' addr.auri ≡ none)
    find-add_refused cs str addr v dec bad =
        let e = add_refused cs str addr dec bad in
        (rw e refl, rw e (find-remove_self libre law cs addr.auri v.unique))

    blocks-link :
        (cs : Contacts) (addr : Addr) (access : Access)
        → blocks libre (link libre cs addr access).obj (some cs.next) ≡ says access
    unfolding blocks
    blocks-link cs addr access_unknown = ground (arith, (link_obj cs addr access_unknown).1)
    blocks-link cs addr access_block = ground (arith, (link_obj cs addr access_block).1)
    blocks-link cs addr access_allow = ground (arith, (link_obj cs addr access_allow).1)

    blocks-add :
        (cs : Contacts) (str : Str) (addr : Addr) (access : Access)
        → IsValid libre cs
        → libre.decode str ≡ some addr
        → libre.isset addr.auri ≡ true
        → decode_access libre addr.access ≡ some access
        → let cs' = (contact_add libre cs true str).0 in
          blocks libre cs'.obj (contact_find libre cs' addr.auri) ≡ says access
    blocks-add cs str addr access v dec set known =
        let found = find-added cs str addr access v dec set known in
        let o = contact_find libre cs addr.auri in
        let left = contact_remove cs o in
        rw (found, add_accepted cs str addr access dec known)
          (subst (λ n. blocks libre (link libre left addr access).obj (some n) ≡ says access)
            (remove-next libre cs o) (blocks-link left addr access))

    -- A contact that was added to a valid list with access=block is blocked, and one with
    -- access=allow is not, whatever stands for everybody, if its URI is set, there was memory, and
    -- strings compare as equal exactly where they are.
    pub block_access-add :
        (cs : Contacts) (str : Str) (addr : Addr) (access : Access) (b : Bool)
        → IsValid libre cs
        → libre.decode str ≡ some addr
        → libre.isset addr.auri ≡ true
        → decode_access libre addr.access ≡ some access
        → says access ≡ some b
        → contact_block_access libre (contact_add libre cs true str).0 addr.auri ≡ b
    unfolding contact_block_access
    block_access-add cs str addr access b v dec set known say =
        rw (blocks-add cs str addr access v dec set known, contact_block_access, say) refl
