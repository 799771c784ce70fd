-- ===== src/Jbuf/Alloc.antt =====
-- src/jbuf.c: where `packet_alloc` takes a packet from.
use baresip.Prelude.{◌≡◌, refl, sym, ◌∙◌, none, some, List, [], ◌∷◌}
use baresip.Jbuf.State.{Packet, Jbuf}
use baresip.Jbuf.Pool.{packet_alloc, take_free, steal_oldest}

pub packet_alloc_free :
    (jb : Jbuf) (f : Packet) (rest : List Packet)
    → jb.pooll ≡ f ∷ rest
    → packet_alloc jb ≡ some (f, take_free jb rest)
unfolding packet_alloc
packet_alloc_free jb f rest e = simp (e, packet_alloc)

pub packet_alloc_full :
    (jb : Jbuf) (f0 : Packet) (rest : List Packet)
    → jb.pooll ≡ []
    → jb.packetl ≡ f0 ∷ rest
    → packet_alloc jb ≡ some (record f0 { mem = none }, steal_oldest jb f0 rest)
unfolding packet_alloc
packet_alloc_full jb f0 rest e d = simp (e, d, packet_alloc)

packet_alloc-none : (jb : Jbuf) → jb.pooll ≡ [] → jb.packetl ≡ [] → packet_alloc jb ≡ none
unfolding packet_alloc
packet_alloc-none jb e d = simp (e, d, packet_alloc)

-- A packet comes from the pool, or is the oldest one of the buffer.
pub data Source (jb : Jbuf) (f : Packet) (jb' : Jbuf) : Type 0 where
  free : (rest : List Packet) → jb.pooll ≡ f ∷ rest → jb' ≡ take_free jb rest → Source jb f jb'
  oldest :
      (f0 : Packet) (rest : List Packet)
      → jb.pooll ≡ []
      → jb.packetl ≡ f0 ∷ rest
      → f ≡ record f0 { mem = none }
      → jb' ≡ steal_oldest jb f0 rest
      → Source jb f jb'

pub packet_alloc-Source :
    (jb : Jbuf) (f : Packet) (jb' : Jbuf) → packet_alloc jb ≡ some (f, jb') → Source jb f jb'
packet_alloc-Source jb f jb' h = go jb.pooll jb.packetl refl refl
  where
    go : (pool l : List Packet) → jb.pooll ≡ pool → jb.packetl ≡ l → Source jb f jb'
    go (f₁ ∷ rest) l e d = let same = sym h ∙ packet_alloc_free jb f₁ rest e in free rest (cc) (cc)
    go [] (f0 ∷ rest) e d =
        let same = sym h ∙ packet_alloc_full jb f0 rest e d in oldest f0 rest e d (cc) (cc)
    go [] [] e d = absurd (cc (sym h ∙ packet_alloc-none jb e d))
