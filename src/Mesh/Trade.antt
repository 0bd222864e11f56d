-- ===== src/Mesh/Trade.antt =====
-- What the operations of `src/core/meshcore_mesh.c` do with the packets of the pool: which packet
-- the caller holds before and after, whatever else it holds.
use meshcore.Prelude.{
  ℕ, ◌≡◌, refl, ◌∙◌, Bool, true, false, not, ◌||◌, Option, none, some, List, ◌∷◌, ltb,
  if◌then◌else◌, pos, negsuc,
}
use meshcore.Packet.{Packet, payload_max_len, path_len_field, is_valid_path_len}
use meshcore.Pool.{Manager, alloc_new}
use meshcore.Pool.Owned.{IsOwned}
use meshcore.Pool.Steps.{given, free-IsOwned, queue_outbound-IsOwned}
use meshcore.Pool.Hands.{alloc_new-Hands}
use meshcore.Pool.Reach.{Hands-Owned}
use meshcore.Tables.{Tables}
use meshcore.Dispatcher.{
  Dispatcher, Host, packet_at, obtained, obtain_new_packet, release_packet, send_packet,
  future_millis, millis_get,
}
use meshcore.Dispatcher.Holdings.{Gives-first, put_packet-IsOwned}
use meshcore.Cipher.{Output}
use meshcore.Mesh.{MeshHost, Event, write_packet, seen_by, tables_has_seen, release_consumed_packet}
use meshcore.Mesh.Create.{stored, sealed}

-- From `d` to `d1` packet `a` is taken from the caller and packet `b` given to it. The packet on air
-- stays.
pub record Trade (a b : Option ℕ) (d d1 : Dispatcher) : Type 0 where
  pub owned :
      (held : List ℕ)
      → IsOwned d.packet_manager (given a held)
      → IsOwned d1.packet_manager (given b held)
  pub outbound : d1.outbound ≡ d.outbound

abbrev pub Keeps : Dispatcher → Dispatcher → Type 0
Keeps d d1 = Trade none none d d1

abbrev pub Obtains : Dispatcher → Option ℕ × Dispatcher → Type 0
Obtains d r = Trade none r.0 d r.1

abbrev pub Consumes : Option ℕ → Dispatcher → Dispatcher → Type 0
Consumes p d d1 = Trade p none d d1

-- The runtime's part: its handlers may use the packet manager, but neither keep a packet nor
-- transmit one.
pub record Reacts (h : MeshHost) : Type 0 where
  pub handler : (e : Event) (d : Dispatcher) → Keeps d (h.react e d).1

pub stays : (a : Option ℕ) (d : Dispatcher) → Trade a a d d
stays a d = record { owned = λ held o. o; outbound = refl }

pub then-Trade :
    {a b c : Option ℕ} {d d1 d2 : Dispatcher} → Trade a b d d1 → Trade b c d1 d2 → Trade a c d d2
then-Trade s t = record {
  owned = λ held o. t.owned held (s.owned held o);
  outbound = t.outbound ∙ s.outbound;
}

-- The caller may hold one packet more meanwhile.
pub while_held : {d d1 : Dispatcher} (p : ℕ) → Keeps d d1 → Trade (some p) (some p) d d1
while_held p s = record { owned = λ held o. s.owned (p ∷ held) o; outbound = s.outbound }

pub if-Trade :
    {a b : Option ℕ} {d x y : Dispatcher} (c : Bool)
    → Trade a b d x
    → Trade a b d y
    → Trade a b d (if c then x else y)
if-Trade true s t = s
if-Trade false s t = t

pub if-Obtains :
    {d : Dispatcher} {x y : Option ℕ × Dispatcher} (c : Bool)
    → Obtains d x
    → Obtains d y
    → Obtains d (if c then x else y)
if-Obtains true s t = s
if-Obtains false s t = t

pub write_packet-Keeps :
    (d : Dispatcher) (p : ℕ) (packet : Packet) → Keeps d (write_packet d p packet)
write_packet-Keeps d p packet = record {
  owned = λ held o. put_packet-IsOwned d.packet_manager p packet held o;
  outbound = refl;
}

pub release_packet-Consumes :
    (d : Dispatcher) (p : ℕ) → Consumes (some p) d (release_packet d (some p))
unfolding release_packet
release_packet-Consumes d p = record {
  owned = λ held o. free-IsOwned d.packet_manager p o (Gives-first p held);
  outbound = refl;
}

pub release_consumed_packet-Consumes :
    (d : Dispatcher) (p : Option ℕ) → Consumes p d (release_consumed_packet d p)
unfolding release_consumed_packet
release_consumed_packet-Consumes d none = stays none d
release_consumed_packet-Consumes d (some p) = release_packet-Consumes d p

-- Queued or refused, a packet that is sent is the dispatcher's.
pub send_packet-Consumes :
    (h : Host) (d : Dispatcher) (p : Option ℕ) (pri delay : ℕ)
    → Consumes p d (send_packet h d p pri delay)
unfolding send_packet future_millis millis_get
send_packet-Consumes h d none pri delay = stays none d
send_packet-Consumes h d (some p) pri delay =
    let packet = packet_at d p in
    if-Trade
      (not (is_valid_path_len (path_len_field (some packet)))
        || ltb payload_max_len packet.payload_len)
      (record {
        owned = λ held o. free-IsOwned d.packet_manager p o (Gives-first p held);
        outbound = refl;
      })
      (record {
        owned = λ held o. queue_outbound-IsOwned d.packet_manager p o (Gives-first p held) _ _;
        outbound = refl;
      })

obtained-Obtains :
    (d : Dispatcher) (r : Option ℕ × Manager)
    → ((held : List ℕ) → IsOwned d.packet_manager held → IsOwned r.1 (given r.0 held))
    → Obtains d (obtained d r)
unfolding obtained
obtained-Obtains d (none, m) k = record { owned = λ held o. k held o; outbound = refl }
obtained-Obtains d (some p, m) k = record {
  owned = λ held o. put_packet-IsOwned m p _ (p ∷ held) (k held o);
  outbound = refl;
}

pub obtain_new_packet-Obtains : (d : Dispatcher) → Obtains d (obtain_new_packet d)
unfolding obtain_new_packet
obtain_new_packet-Obtains d = obtained-Obtains d (alloc_new d.packet_manager) (λ held o.
    Hands-Owned d.packet_manager held (alloc_new d.packet_manager) o
      (alloc_new-Hands d.packet_manager held o))

seen_by-Keeps :
    (h : MeshHost) (d : Dispatcher) (packet : Packet) (t : Option Tables)
    → Keeps d (seen_by h d packet t).1
unfolding seen_by
seen_by-Keeps h d packet none = stays none d
seen_by-Keeps h d packet (some t) = record { owned = λ held o. o; outbound = refl }

pub tables_has_seen-Keeps :
    (h : MeshHost) (d : Dispatcher) (packet : Packet) → Keeps d (tables_has_seen h d packet).1
unfolding tables_has_seen
tables_has_seen-Keeps h d packet = seen_by-Keeps h d packet d.owner_mesh.tables

pub stored-Obtains :
    (d : Dispatcher) (r : Option ℕ × Dispatcher) (f : Packet → Packet)
    → Obtains d r
    → Obtains d (stored r f)
unfolding stored
stored-Obtains d (none, d1) f s = s
stored-Obtains d (some p, d1) f s = then-Trade s (while_held p (write_packet-Keeps d1 p _))

pub sealed-Obtains :
    (d : Dispatcher) (r : Option ℕ × Dispatcher) (type : ℕ) (front : List ℕ) (output : Output)
    → Obtains d r
    → Obtains d (sealed r type front output)
unfolding sealed
sealed-Obtains d (none, d1) type front output s = s
sealed-Obtains d (some p, d1) type front (negsuc n, text) s =
    then-Trade s
      (then-Trade (while_held p (write_packet-Keeps d1 p _)) (release_packet-Consumes _ p))
sealed-Obtains d (some p, d1) type front (pos n, text) s =
    then-Trade s (while_held p (write_packet-Keeps d1 p _))
