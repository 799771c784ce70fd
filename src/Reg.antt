-- ===== src/Reg.antt =====
-- src/reg.c: the registration client of a user agent.
-- The client object of libre (`sipreg`) stands for its handle. What the calls of it return, and
-- what it says of itself, is an argument. The calls are recorded.
use baresip.Prelude.{
  ℕ, Bool, true, false, ◌&&◌, not, Option, none, some, List, [], ◌∷◌, ◌++◌, ◌==◌, leb,
  if◌then◌else◌,
}
pub mod Status
mod Tests

abbrev pub Str : Type 0
Str = List ℕ

-- The events of a registration (`enum bevent_ev`).
pub data Event : Type 0 where
  register_ok register_fail fallback_ok fallback_fail : Event

-- The calls of libre's client.
pub data Call : Type 0 where
  deref : ℕ → Call
  set_srcport : ℕ → ℕ → Call
  incfailc : ℕ → Call
  send : ℕ → Call
  unregister : ℕ → Call

-- `struct reg`, and the calls so far, the last one first. The custom headers are only printed.
pub record Reg : Type 0 where
  pub sipreg : Option ℕ
  pub id : ℕ
  pub regint : ℕ
  pub paddr : ℕ
  pub scode : ℕ
  pub srv : Option Str
  pub af : ℕ
  pub calls : List Call

-- What `register_handler` reads from a response.
pub record Response : Type 0 where
  pub scode : ℕ
  pub server : Option Str
  pub src : ℕ
  pub af : ℕ

-- The parameters of the account, and what the calls of one `reg_register` return.
pub record Outside : Type 0 where
  pub failed : Bool
  pub alloc : ℕ
  pub client : ℕ
  pub set_rwait : ℕ
  pub set_fbregint : ℕ
  pub send : ℕ

pub record Account : Type 0 where
  pub rwait : ℕ
  pub fbregint : ℕ
  pub tcpsrcport : ℕ

abbrev pub einval : ℕ
einval = 22

abbrev pub event_ok : Reg → Event
event_ok reg = if reg.regint == 0 then fallback_ok else register_ok

abbrev event_fail : Reg → Event
event_fail reg = if reg.regint == 0 then fallback_fail else register_fail

-- The header SERVER, if the response has one. The copy is taken to find memory.
unfoldable pub learn_server : Reg → Option Str → Reg
learn_server reg none = reg
learn_server reg (some server) = record reg { srv = some server }

-- `register_handler` on a response.
unfoldable pub on_response : Reg → Response → Reg × Option Event
on_response reg msg =
    if leb 200 msg.scode && leb msg.scode 299
    then (
      record (learn_server reg msg.server) { paddr = msg.src; af = msg.af; scode = msg.scode },
      some (event_ok reg),
    )
    else if leb 300 msg.scode
    then (record (learn_server reg msg.server) { scode = msg.scode }, some (event_fail reg))
    else (learn_server reg msg.server, none)

-- `register_handler`: an error, or a response.
unfoldable pub register_handler : Reg → ℕ → Response → Reg × Option Event
register_handler reg err msg =
    if err == 0 then on_response reg msg else (record reg { scode = 999 }, some (event_fail reg))

-- `reg_add`.
unfoldable pub reg_add : List Reg → ℕ → Bool → List Reg × ℕ
reg_add lst regid memory =
    if memory
    then (
      lst
          ++ (record {
            sipreg = none;
            id = regid;
            regint = 0;
            paddr = 0;
            scode = 0;
            srv = none;
            af = 0;
            calls = [];
          }
              ∷ []),
      0,
    )
    else (lst, 12)

abbrev pub mem_deref : Option ℕ → List Call → List Call
mem_deref none calls = calls
mem_deref (some client) calls = deref client ∷ calls

-- The error of the two settings of a new client. The second one replaces the first.
unfoldable pub configure : Option Account → Outside → ℕ
configure none out = 0
configure (some acc) out =
    let err = if acc.rwait == 0 then 0 else out.set_rwait in
    if acc.fbregint == 0 then err else out.set_fbregint

unfoldable pub source_port : Option Account → ℕ → List Call → List Call
source_port none client calls = calls
source_port (some acc) client calls =
    if acc.tcpsrcport == 0 then calls else set_srcport client acc.tcpsrcport ∷ calls

-- `reg_register` once the client was allocated.
unfoldable pub start_client : Reg → Option Account → Outside → Reg × ℕ
start_client reg acc out =
    let ported = source_port acc out.client reg.calls in
    let calls = if out.failed then incfailc out.client ∷ ported else ported in
    if configure acc out == 0
    then (record reg { sipreg = some out.client; calls = send out.client ∷ calls }, out.send)
    else (record reg { sipreg = none; calls = deref out.client ∷ calls }, configure acc out)

-- `reg_register`.
unfoldable pub reg_register : Reg → Option Account → Outside → ℕ → Reg × ℕ
reg_register reg acc out regint =
    let reg' = record reg {
      scode = 0;
      regint = regint;
      sipreg = none;
      calls = mem_deref reg.sipreg reg.calls;
    } in
    if out.alloc == 0 then start_client reg' acc out else (reg', out.alloc)

-- `reg_unregister`; libre ignores a client that is NULL.
unfoldable pub reg_unregister : Reg → Reg
reg_unregister reg = elim (reg.sipreg) [
  | none ↦ reg
  | some client ↦ record reg { calls = unregister client ∷ reg.calls }
]

-- `reg_stop`.
unfoldable pub reg_stop : Reg → Reg
reg_stop reg = record reg { sipreg = none; calls = mem_deref reg.sipreg reg.calls; scode = 0 }

module _ (registered : ℕ → Bool) (failed : ℕ → Bool) where
  -- `reg_isok`.
  unfoldable pub reg_isok : Reg → Bool
  reg_isok reg = elim (reg.sipreg) [
    | none ↦ false
    | some client ↦ registered client && reg.scode == 200
  ]

  -- `reg_failed`.
  unfoldable pub reg_failed : Reg → Bool
  reg_failed reg = elim (reg.sipreg) [ none ↦ false | some client ↦ failed client ]
