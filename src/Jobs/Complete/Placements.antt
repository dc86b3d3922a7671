-- ===== src/Jobs/Complete/Placements.antt =====
-- internal/cluster/store.go: putSessionPlacement, the memory of where a session ran.
use context_bridge.Prelude.{
  Bool, true, false, not, ◌&&◌, ◌||◌, List, [], ◌∷◌, Option, none, some, ltb, ◌==◌, if◌then◌else◌,
}
use context_bridge.Text.{Text, text_eq, trim_space, to_lower}
use context_bridge.Pipeline.Graph.Template.{is_empty}
use context_bridge.Jobs.Records.{Requirements, Job, positive}
use context_bridge.Jobs.Labels.{is_adapter}
use context_bridge.Jobs.Locks.{canonical_session}
use context_bridge.Jobs.Tables.{World, PlacementKey, Placement}

-- What sessionPlacementKey digests.
unfoldable pub placement_key : Text → Requirements → PlacementKey
unfolding canonical_session to_lower trim_space
placement_key owner r = record {
  owner = owner;
  session = canonical_session r.session_id;
  profile =
      if is_adapter (trim_space r.provider)
      then some (to_lower (trim_space r.adapter_profile))
      else none;
}

unfoldable pub profile_eq : Option Text → Option Text → Bool
profile_eq none none = true
profile_eq none (some q) = false
profile_eq (some p) none = false
profile_eq (some p) (some q) = text_eq p q

unfoldable pub key_eq : PlacementKey → PlacementKey → Bool
unfolding profile_eq
key_eq k l =
    text_eq k.owner l.owner && (text_eq k.session l.session && profile_eq k.profile l.profile)

-- The newest placement stays.
unfoldable pub put_newest :
    PlacementKey → Placement → List (PlacementKey × Placement) → List (PlacementKey × Placement)
unfolding key_eq
put_newest k p [] = (k, p) ∷ []
put_newest k p ((l, q) ∷ rest) =
    let others = put_newest k p rest in
    if key_eq k l
    then (if ltb q.updated_at p.updated_at then (k, p) ∷ rest else (l, q) ∷ rest)
    else (l, q) ∷ others

-- putSessionPlacement.
unfoldable pub put_placement : PlacementKey → Placement → World → World
unfolding put_newest
put_placement k p w =
    if is_empty p.node_id || p.updated_at == 0
    then w
    else record w { placements = put_newest k p w.placements }

abbrev pub placement_of : Text → Job → Placement
placement_of principal j = record {
  node_id = j.assigned_node;
  adapter_endpoint_id = j.executed_adapter_endpoint_id;
  adapter_principal = principal;
  updated_at = j.updated_at;
}

-- The placement that completeJobWithFailure stores for an ended job.
unfoldable pub place : Job → World → World
unfolding put_placement placement_key
place j w =
    let key = placement_key j.owner_subject j.requirements in
    if is_adapter (trim_space j.requirements.provider)
    then (if positive j.executed_adapter_endpoint_id && not j.ephemeral_adapter_endpoint
        then put_placement key (placement_of j.requirements.adapter_principal j) w
        else w)
    else put_placement key (placement_of [] j) w
