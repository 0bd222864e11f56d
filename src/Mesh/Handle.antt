-- ===== src/Mesh/Handle.antt =====
-- `meshcore_mesh_init`, `meshcore_mesh_begin` and `meshcore_mesh_loop` of `src/core/meshcore_mesh.c`:
-- the dispatcher with the mesh as the handler of what it receives.
use meshcore.Prelude.{ℕ, Option, List, ◌∷◌}
use meshcore.Pool.{Manager}
use meshcore.Tables.{Tables}
use meshcore.Identity.{local_init}
use meshcore.Dispatcher.{Dispatcher, Host, init, begin}
use meshcore.Dispatcher.Send.{loop}
use meshcore.Dispatcher.Holdings.{HandsBack, Holds}
use meshcore.Dispatcher.Loop.{loop-Holds}
use meshcore.Mesh.{MeshHost}
use meshcore.Mesh.Receive.{on_recv_packet}
use meshcore.Mesh.Trade.{Reacts}
use meshcore.Mesh.Answers.{on_recv_packet-Answers}

abbrev pub node_host : MeshHost → Host
node_host h = record h.platform { on_recv = λ d p. on_recv_packet h d p }

-- `d` stands for the world before.
unfoldable pub mesh_init : MeshHost → Manager → Option Tables → Dispatcher → Dispatcher
mesh_init h m tables d =
    init (node_host h) m (record d.owner_mesh { self_id = local_init; tables = tables }) d

unfoldable pub mesh_begin : MeshHost → Dispatcher → Dispatcher
mesh_begin h d = begin (node_host h) d

unfoldable pub mesh_loop : MeshHost → Dispatcher → Dispatcher
mesh_loop h d = loop (node_host h) d

module _ (h : MeshHost) (c : Reacts h) where
  -- The mesh is the handler that the dispatcher's theorems ask for.
  pub on_recv_packet-HandsBack : HandsBack (node_host h)
  on_recv_packet-HandsBack = record {
    keeps = λ d p held o. (on_recv_packet-Answers h c d p).keeps.owned (p ∷ held) o;
    same_outbound = λ d p. (on_recv_packet-Answers h c d p).keeps.outbound;
    no_hold = λ d p. (on_recv_packet-Answers h c d p).no_hold;
  }

  -- With handlers of the runtime that keep no packet, one round of the main loop of the whole mesh
  -- loses no packet of the pool: the only one held afterwards is the one on air.
  pub mesh_loop-Holds : (d : Dispatcher) (held : List ℕ) → Holds d held → Holds (mesh_loop h d) held
  unfolding mesh_loop
  mesh_loop-Holds d held o = loop-Holds (node_host h) on_recv_packet-HandsBack d held o
