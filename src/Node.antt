-- ===== src/Node.antt =====
-- What `struct meshcore_mesh` of `src/core/meshcore_mesh.h` holds besides its dispatcher. The
-- dispatcher reaches it by its pointer `owner_mesh`.
use meshcore.Prelude.{Option}
use meshcore.Identity.{LocalIdentity}
use meshcore.Tables.{Tables}
use meshcore.Context.{RuntimeState}

-- The runtime, whose struct holds the one of the mesh, is reached here too: `runtime` is the rest of
-- it. `tables` is a pointer that may be NULL. The packet manager is that of the dispatcher.
pub record Node : Type 0 where
  pub self_id : LocalIdentity
  pub tables : Option Tables
  pub runtime : RuntimeState
