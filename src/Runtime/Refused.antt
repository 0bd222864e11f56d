-- ===== src/Runtime/Refused.antt =====
-- The errors of the calls of `include/meshcore/runtime.h`, and what they leave.
use meshcore.Prelude.{pos, ◌≡◌, ◌≢◌, ◌⊎◌, Bool, true, arith, ◌==◌, inl, inr, Bool-cases}
use meshcore.Pool.{get_free_count}
use meshcore.Dispatcher.{Dispatcher}
use meshcore.Mesh.{MeshHost}
use meshcore.Runtime.Local.{RuntimeHost}
use meshcore.Runtime.Execute.{Request}
use meshcore.Runtime.Calls.{execute_now, requested}

-- What a call that returns `rc` needed: a runtime that is initialized, valid arguments and a packet.
abbrev pub Accepted : Dispatcher → Bool → Type 0
Accepted d valid =
    (d.owner_mesh.runtime.initialized ≡ true)
    × (valid ≡ true)
    × (get_free_count d.packet_manager ≢ 0)

execute_now-Accepted :
    (h : MeshHost) (rh : RuntimeHost) (request : Request) (d : Dispatcher)
    → d.owner_mesh.runtime.initialized ≡ true
    → let r = execute_now h rh request d in
      ((r.0 ≢ pos 0) × (r.1 ≡ d)) ⊎ ((r.0 ≡ pos 0) × (get_free_count d.packet_manager ≢ 0))
unfolding execute_now
execute_now-Accepted h rh request d e = elim (Bool-cases (get_free_count d.packet_manager == 0)) [
  | inl full ↦ inl (ground arith)
  | inr free ↦ inr (ground arith)
]

module _ (h : MeshHost) (rh : RuntimeHost) (d : Dispatcher) (valid : Bool) where
  -- A call that returns an error leaves everything as it was, and one that returns 0 was accepted.
  pub requested-Accepted :
      (request : Request)
      → let r = requested h rh d valid request in
        ((r.0 ≢ pos 0) × (r.1 ≡ d)) ⊎ ((r.0 ≡ pos 0) × Accepted d valid)
  unfolding requested
  requested-Accepted request = elim (Bool-cases d.owner_mesh.runtime.initialized) [
    | inr e ↦ inl (ground arith)
    | inl e ↦ elim (Bool-cases valid) [
      | inr e' ↦ inl (ground arith)
      | inl e' ↦ elim (execute_now-Accepted h rh request d e) [
        | inl (ne, same) ↦ inl (ground arith)
        | inr (done, free) ↦ inr (ground arith)
      ]
    ]
  ]
