-- ===== src/Runtime/Timer.antt =====
-- The timer of `src/runtime/meshcore.c`: when the runtime is to be run again.
use meshcore.Prelude.{ℕ, Bool, false, not, Option, none, some, [], ◌∷◌, if◌then◌else◌}
use meshcore.Context.{Told, timer_arm, timer_cancel}
use meshcore.Dispatcher.{Dispatcher}
use meshcore.Dispatcher.Deadline.{deadline_accumulate, next_deadline_get}
use meshcore.Mesh.{MeshHost}
use meshcore.Runtime.Pending.{correlation_next_deadline_get}
use meshcore.Runtime.Local.{notify, requests_of}

-- `meshcore_runtime_deadline_accumulate` is the function of the dispatcher's file, written out again.
abbrev pub accumulated : ℕ → Option ℕ → Option ℕ → Bool × Option ℕ
accumulated now_ms none deadline = (false, deadline)
accumulated now_ms (some candidate) deadline = deadline_accumulate now_ms candidate deadline

-- The deadline of an initialized runtime, `none` where it has none.
unfoldable pub runtime_next_deadline_get : MeshHost → Dispatcher → ℕ → Option ℕ
runtime_next_deadline_get h d now_ms =
    let (done, deadline) =
      accumulated now_ms (correlation_next_deadline_get (requests_of d) now_ms) none in
    let later = (accumulated now_ms (next_deadline_get h.platform d now_ms) deadline).1 in
    if done then deadline else later

abbrev pub timer_call : Option ℕ → Told
timer_call none = timer_cancel
timer_call (some deadline_ms) = timer_arm deadline_ms

unfoldable pub timer_sync : MeshHost → Dispatcher → ℕ → Dispatcher
timer_sync h d now_ms =
    if not d.owner_mesh.runtime.initialized
    then d
    else notify (timer_call (runtime_next_deadline_get h d now_ms) ∷ []) d
