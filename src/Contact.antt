-- ===== src/Contact.antt =====
-- src/contact.c: the list of contacts and their access control.
-- A contact object stands for its address, by which the list, the hash table and the current
-- contact share it. What libre decodes from an address is an argument (`Libre`).
use baresip.Prelude.{
  ℕ, ◌%◌, ◌+◌, Bool, true, false, ◌&&◌, Option, none, some, List, [], ◌∷◌, ◌++◌, ◌==◌,
  if◌then◌else◌,
}
pub mod Find
pub mod Valid
pub mod Add
pub mod Keeps
mod Tests

abbrev pub Str : Type 0
Str = List ℕ

pub data Access : Type 0 where
  access_unknown access_block access_allow : Access

pub data Status : Type 0 where
  presence_unknown presence_open presence_closed presence_busy : Status

-- A SIP address: its URI, and the parameters that a contact reads from it.
pub record Addr : Type 0 where
  pub auri : Str
  pub access : Option Str
  pub audio : Option Str
  pub video : Option Str

-- `struct contact`; a direction is the number of its `enum sdp_dir`.
pub record Contact : Type 0 where
  pub addr : Addr
  pub status : Status
  pub access : Access
  pub auldir : ℕ
  pub vidldir : ℕ

-- A call of the update handler: the contact, and whether it is about to be removed.
pub record Update : Type 0 where
  pub contact : ℕ
  pub removed : Bool

-- `struct contacts`, with the memory of the contact objects and the first free address there.
pub record Contacts : Type 0 where
  pub cl : List ℕ
  pub cht : List ℕ
  pub cur : Option ℕ
  pub enable_presence : Bool
  pub handler : Bool
  pub obj : ℕ → Contact
  pub next : ℕ
  pub updates : List Update

-- What the code takes from libre.
pub record Libre : Type 0 where
  pub decode : Str → Option Addr
  pub strcmp : Str → Str → Bool
  pub strcasecmp : Str → Str → Bool
  pub isset : Str → Bool
  pub joaat : Str → ℕ
  pub dir_decode : Str → ℕ
  pub sendrecv : ℕ

-- The values of <errno.h> on Linux; EBADMSG stands for the errors of the decoder.
abbrev pub enomem : ℕ
enomem = 12

abbrev pub einval : ℕ
einval = 22

abbrev ebadmsg : ℕ
ebadmsg = 74

-- `list_unlink` and `hash_unlink`.
unfoldable pub unlink : ℕ → List ℕ → List ℕ
unlink contact [] = []
unlink contact (c ∷ cs) = if c == contact then cs else c ∷ unlink contact cs

abbrev pub update : (ℕ → Contact) → ℕ → Contact → ℕ → Contact
update obj at contact c = if c == at then contact else obj c

abbrev pub notify : Contacts → ℕ → Bool → Contacts
notify cs contact removed = record cs {
  updates =
      if cs.handler
      then record { contact = contact; removed = removed } ∷ cs.updates
      else cs.updates;
}

-- `contact_remove`.
unfoldable pub contact_remove : Contacts → Option ℕ → Contacts
contact_remove cs none = cs
contact_remove cs (some contact) =
    let cs' = notify cs contact true in
    record cs' {
      cht = unlink contact cs.cht;
      cl = unlink contact cs.cl;
      cur = elim (cs.cur) [ none ↦ none | some c ↦ if c == contact then none else some c ];
    }

module _ (libre : Libre) where
  -- `find_handler`, in the bucket of the hash table.
  abbrev pub found_by : (ℕ → Contact) → Str → ℕ → Bool
  found_by obj uri c =
      libre.joaat (obj c).addr.auri % 32 == libre.joaat uri % 32
      && libre.strcmp (obj c).addr.auri uri

  unfoldable pub hash_lookup : (ℕ → Contact) → Str → List ℕ → Option ℕ
  hash_lookup obj uri [] = none
  hash_lookup obj uri (c ∷ cs) = if found_by obj uri c then some c else hash_lookup obj uri cs

  -- `contact_find`.
  unfoldable pub contact_find : Contacts → Str → Option ℕ
  contact_find cs uri = if libre.isset uri then hash_lookup cs.obj uri cs.cht else none

  -- The access parameter of an address, if it is one of the known ones.
  unfoldable pub decode_access : Option Str → Option Access
  decode_access none = some access_unknown
  decode_access (some value) =
      if libre.strcasecmp value (b'b' ∷ b'l' ∷ b'o' ∷ b'c' ∷ b'k' ∷ [])
      then some access_block
      else if libre.strcasecmp value (b'a' ∷ b'l' ∷ b'l' ∷ b'o' ∷ b'w' ∷ [])
      then some access_allow
      else none

  unfoldable pub decode_dir : Option Str → ℕ
  decode_dir none = libre.sendrecv
  decode_dir (some value) = libre.dir_decode value

  -- The end of `contact_add`: the contact at a new address joins the list and the hash table.
  unfoldable pub link : Contacts → Addr → Access → Contacts
  link cs addr access =
      let contact : Contact = record {
        addr = addr;
        status = presence_unknown;
        access = access;
        auldir = decode_dir addr.audio;
        vidldir = decode_dir addr.video;
      } in
      notify
        (record cs {
          cl = cs.cl ++ (cs.next ∷ []);
          cht = cs.cht ++ (cs.next ∷ []);
          obj = update cs.obj cs.next contact;
          next = cs.next + 1;
        })
        cs.next false

  -- The part of `contact_add` after the decoding. The contact with the same URI goes first.
  unfoldable pub replace : Contacts → Addr → Contacts × ℕ
  replace cs addr =
      let cs' = contact_remove cs (contact_find cs addr.auri) in
      elim (decode_access addr.access) [
        | none ↦ (cs', einval)
        | some access ↦ (link cs' addr access, 0)
      ]

  -- `contact_add`; `memory` says whether the object and the copies of the strings can be allocated.
  unfoldable pub contact_add : Contacts → Bool → Str → Contacts × ℕ
  contact_add cs memory str =
      if memory
      then elim (libre.decode str) [ none ↦ (cs, ebadmsg) | some addr ↦ replace cs addr ]
      else (cs, enomem)

  -- The access that a contact says, if it says one.
  unfoldable pub blocks : (ℕ → Contact) → Option ℕ → Option Bool
  blocks obj none = none
  blocks obj (some c) = elim ((obj c).access) [
    | access_unknown ↦ none
    | access_block ↦ some true
    | access_allow ↦ some false
  ]

  abbrev pub anybody : Str
  anybody = b's' ∷ b'i' ∷ b'p' ∷ b':' ∷ b'*' ∷ b'@' ∷ b'*' ∷ []

  -- `contact_block_access`.
  unfoldable pub contact_block_access : Contacts → Str → Bool
  contact_block_access cs uri = elim (blocks cs.obj (contact_find cs uri)) [
    | some b ↦ b
    | none ↦ elim (blocks cs.obj (contact_find cs anybody)) [ some b ↦ b | none ↦ false ]
  ]

-- The setters.
unfoldable contact_set_presence : Contacts → ℕ → Status → Contacts
contact_set_presence cs c status = record cs {
  obj = update cs.obj c (record (cs.obj c) { status = status });
}

unfoldable contacts_set_current : Contacts → ℕ → Contacts
contacts_set_current cs contact = record cs { cur = some contact }

unfoldable contacts_enable_presence : Contacts → Bool → Contacts
contacts_enable_presence cs enabled = record cs { enable_presence = enabled }

unfoldable contact_set_update_handler : Contacts → Bool → Contacts
contact_set_update_handler cs handler = record cs { handler = handler }
