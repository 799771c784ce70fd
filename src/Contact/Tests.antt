-- ===== src/Contact/Tests.antt =====
-- src/contact.c on a concrete list, with a small decoder of addresses.
use baresip.Prelude.{
  ℕ, ◌≡◌, refl, subst, Bool, true, false, ◌&&◌, Option, none, some, [], ◌∷◌, ◌==◌, arith,
}
use baresip.Contact.{
  Str, access_unknown, access_block, Addr, Contact, Contacts, Libre, presence_unknown, contact_find,
  decode_access, contact_add, contact_remove,
}
use baresip.Contact.Find.{Compares}
use baresip.Contact.Valid.{IsValid}
use baresip.Contact.Add.{find-add}
use baresip.Contact.Keeps.{add-IsValid}

abbrev equal_str : Str → Str → Bool
equal_str [] [] = true
equal_str [] (d ∷ y) = false
equal_str (c ∷ x) [] = false
equal_str (c ∷ x) (d ∷ y) = c == d && equal_str x y

equal_str-same : (x y : Str) → equal_str x y ≡ true → x ≡ y
equal_str-same [] [] e = refl
equal_str-same [] (d ∷ y) e = absurd (cc (e))
equal_str-same (c ∷ x) [] e = absurd (cc (e))
equal_str-same (c ∷ x) (d ∷ y) e = ground (arith, equal_str-same x y)

equal_str_self : (x : Str) → equal_str x x ≡ true
equal_str_self [] = refl
equal_str_self (c ∷ x) = ground (arith, equal_str_self x)

-- An address of the tests: the URI behind one character for the access parameter.
abbrev access_of : ℕ → Option Str
access_of c = elim (c == b'B') [
  | true ↦ some (b'b' ∷ b'l' ∷ b'o' ∷ b'c' ∷ b'k' ∷ [])
  | false ↦ elim (c == b'?') [ true ↦ some (b'?' ∷ []) | false ↦ none ]
]

abbrev decode : Str → Option Addr
decode [] = none
decode (c ∷ []) = none
decode (c ∷ d ∷ uri) =
    some (record { auri = d ∷ uri; access = access_of c; audio = none; video = none })

abbrev isset : Str → Bool
isset [] = false
isset (c ∷ str) = true

abbrev libre : Libre
libre = record {
  decode = decode;
  strcmp = equal_str;
  strcasecmp = equal_str;
  isset = isset;
  joaat = λ x. elim x [ [] ↦ 0 | c ∷ _ ↦ c ];
  dir_decode = λ x. 0;
  sendrecv = 3;
}

law : Compares libre
law = record { same = equal_str-same; equal = equal_str_self }

abbrev nobody : Contact
nobody = record {
  addr = record { auri = []; access = none; audio = none; video = none };
  status = presence_unknown;
  access = access_unknown;
  auldir = 0;
  vidldir = 0;
}

abbrev empty : Contacts
empty = record {
  cl = [];
  cht = [];
  cur = none;
  enable_presence = false;
  handler = true;
  obj = λ c. nobody;
  next = 0;
  updates = [];
}

empty-IsValid : IsValid libre empty
empty-IsValid = record { shared = refl; below = tt; unique = tt; current = tt }

decoded_set : (s : Str) (addr : Addr) → libre.decode s ≡ some addr → libre.isset addr.auri ≡ true
decoded_set [] addr e = absurd (cc (e))
decoded_set (c ∷ []) addr e = absurd (cc (e))
decoded_set (c ∷ d ∷ uri) addr e =
    subst (λ o. elim o [ none ↦ Unit | some a ↦ isset a.auri ≡ true ]) e refl

abbrev amy : Str
amy = b'a' ∷ b'm' ∷ b'y' ∷ []

-- The list with one contact that says nothing about access.
abbrev one : Contacts
one = (contact_add libre empty true (b'-' ∷ amy)).0

one-IsValid : IsValid libre one
one-IsValid = (add-IsValid libre law empty true (b'-' ∷ amy) none decoded_set empty-IsValid).0

add-IsValid_example :
    IsValid libre (contact_add libre empty true (b'B' ∷ amy)).0
    × IsValid libre (contact_remove empty (some 0))
add-IsValid_example =
    add-IsValid libre law empty true (b'B' ∷ amy) (some 0) decoded_set empty-IsValid

blocked : decode_access libre (some (b'b' ∷ b'l' ∷ b'o' ∷ b'c' ∷ b'k' ∷ [])) ≡ some access_block
unfolding decode_access
blocked = refl

find-add_example :
    let (cs', err) = contact_add libre one true (b'B' ∷ amy) in
    (err ≡ 0)
    × (contact_find libre cs' amy ≡ some one.next)
    × (contact_find libre cs' (b'b' ∷ []) ≡ contact_find libre one (b'b' ∷ []))
find-add_example =
    find-add libre law one (b'B' ∷ amy)
      (record { auri = amy; access = access_of b'B'; audio = none; video = none }) access_block
      (b'b' ∷ []) one-IsValid refl refl blocked (λ e. cc (e))

bad_access : decode_access libre (some (b'?' ∷ [])) ≡ none
unfolding decode_access
bad_access = refl
