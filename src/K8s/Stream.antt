-- ===== src/K8s/Stream.antt =====
-- `watch_fleet` of crates/core/src/k8s/fleet.rs: the seed from what is known, and what the subscriber's receiver
-- yields after it. A lag comes with what is known when the stream is seeded again.
pub mod Lost
use prospero.Prelude.{
  Bool, true, false, Option, none, some, List, [], ◌∷◌, ◌++◌, map, String, if◌then◌else◌,
}
use prospero.Model.{Agent}
use prospero.Model.Change.{FleetChange, discovered, status_changed, gone, workspace_health}
use prospero.Fleet.Manager.{contains}
use prospero.K8s.Plane.{without}

pub data Heard : Type 0 where
  told : FleetChange → Heard
  lagged : (known : List (String × Agent)) → Heard

unfoldable pub seeded : List (String × Agent) → List FleetChange
seeded [] = []
seeded ((name, a) ∷ rest) = discovered name a.workspace a ∷ seeded rest

unfoldable pub names : List (String × Agent) → List String
names [] = []
names ((name, a) ∷ rest) = name ∷ names rest

-- The agent of a discovery.
unfoldable pub discovery : FleetChange → Option String
discovery (discovered id workspace a) = some id
discovery (status_changed id workspace from to) = none
discovery (gone id workspace) = none
discovery (workspace_health workspace state) = none

is_seeded : Option String → List String → Bool
is_seeded none seen = false
is_seeded (some id) seen = contains id seen

unseen : Option String → List String → List String
unseen none seen = seen
unseen (some id) seen = without id seen

unfoldable pub tail_from : List String → List Heard → List FleetChange
unfolding is_seeded unseen
tail_from seen [] = []
tail_from seen (told c ∷ rest) =
    let later = tail_from (unseen (discovery c) seen) rest in
    if is_seeded (discovery c) seen then later else c ∷ later
tail_from seen (lagged known ∷ rest) = seeded known ++ tail_from (names known) rest

unfoldable pub watch_fleet : List (String × Agent) → List Heard → List FleetChange
watch_fleet known received = seeded known ++ tail_from (names known) received
