-- ===== src/Mesh/Search.antt =====
-- The loop of `src/core/meshcore_mesh.c` over the peers of a source hash ends.
use meshcore.Prelude.{ℕ, ◌≤◌, ◌<◌, ◌≡◌, some}
use meshcore.Dispatcher.{Dispatcher}
use meshcore.Mesh.{MeshHost, Peer}

-- The host's list of peers, as its header documents it: it has so many slots, and the search begins
-- at the slot it is given.
pub record HasSlots (h : MeshHost) : Type 0 where
  pub onwards :
      (d : Dispatcher) (hash cursor : ℕ) (peer : Peer)
      → h.next_peer d hash cursor ≡ some peer
      → cursor ≤ peer.slot
  pub bounded :
      (d : Dispatcher) (hash cursor : ℕ) (peer : Peer)
      → h.next_peer d hash cursor ≡ some peer
      → peer.slot < h.peer_slots
