-- ===== src/Queue/Fair.antt =====
-- internal/cluster/store.go: fairQueueWindow and appendFairPriorityTier. A Go map of lists is kept as
-- a list of groups in the order in which their keys first occur, which the code keeps beside the map.
pub mod Taken
pub mod Filled
pub mod Priority
pub mod Ordered
use context_bridge.Prelude.{
  ℕ, zero, suc, ◌+◌, ◌-◌, ◌*◌, Bool, true, false, not, ◌&&◌, ◌||◌, List, [], ◌∷◌, ◌++◌, Option,
  none, some, ltb, leb, ◌==◌, if◌then◌else◌, length,
}
use context_bridge.Prelude.Int.{ℤ, pos, negsuc, ltb_ℤ, pos_part, int_eq}
use context_bridge.Text.{Text, text_eq}
use context_bridge.Pipeline.Graph.Template.{is_empty}

-- Job, with the fields that the queue's order reads.
pub record Job : Type 0 where
  pub id : Text
  pub owner_subject : Text
  pub priority : ℤ

-- boundedQueueScanSize, for a limit that its fourfold does not take out of an int.
unfoldable pub bounded_scan_size : ℤ → ℤ → ℕ
bounded_scan_size limit total =
    let scan = pos_part limit * 4 in
    let scan = if ltb scan 256 then 256 else scan in
    let scan = if ltb 20000 scan then 20000 else scan in
    elim total [ pos t ↦ if ltb t scan then t else scan | negsuc t ↦ scan ]

-- The jobs of one owner, or of one priority, in their order.
pub record Group {ℓ} (K : Type ℓ) : Type ℓ where
  pub key : K
  pub jobs : List Job

-- `byOwner[owner] = append(byOwner[owner], job)`, with `owners` for a new owner.
unfoldable pub file_owner : Job → List (Group Text) → List (Group Text)
file_owner j [] = record { key = j.owner_subject; jobs = j ∷ [] } ∷ []
file_owner j (g ∷ gs) =
    if text_eq g.key j.owner_subject
    then record { key = g.key; jobs = g.jobs ++ (j ∷ []) } ∷ gs
    else g ∷ file_owner j gs

unfoldable pub by_owner : List Job → List (Group Text) → List (Group Text)
by_owner [] gs = gs
by_owner (j ∷ js) gs = by_owner js (file_owner j gs)

-- The owners behind `after`, then those up to it.
unfoldable pub rotate : Text → List (Group Text) → List (Group Text) → List (Group Text)
rotate after seen [] = seen
rotate after seen (g ∷ gs) =
    if text_eq g.key after then gs ++ (seen ++ (g ∷ [])) else rotate after (seen ++ (g ∷ [])) gs

-- One round over the owners: each that still has a job gives its first. `left` jobs may be taken.
pub record Round : Type 0 where
  pub taken : List Job
  pub groups : List (Group Text)
  pub left : ℕ

abbrev pub all_left : Group Text → Round → Round
all_left g r = record { taken = r.taken; groups = g ∷ r.groups; left = r.left }

abbrev pub one_taken : Text → Job → List Job → Round → Round
one_taken owner j js r = record {
  taken = j ∷ r.taken;
  groups = record { key = owner; jobs = js } ∷ r.groups;
  left = r.left;
}

unfoldable pub round : List (Group Text) → ℕ → Round
round [] left = record { taken = []; groups = []; left = left }
round (g ∷ gs) left = elim g.jobs [
  | [] ↦ all_left g (round gs left)
  | j ∷ js ↦ elim (leb left 1) [
    | true ↦ one_taken g.key j js (record { taken = []; groups = gs; left = left - 1 })
    | false ↦ one_taken g.key j js (round gs (left - 1))
  ]
]

-- The rounds, while jobs remain and may be taken. Each takes one job at least.
unfoldable pub rounds : ℕ → List (Group Text) → ℕ → ℕ → List Job
rounds zero gs remaining left = []
rounds (suc fuel) gs remaining left = elim (remaining == 0 || left == 0) [
  | true ↦ []
  | false ↦
      let r = round gs left in r.taken ++ rounds fuel r.groups (remaining - length r.taken) r.left
]

abbrev pub rotated : Text → List (Group Text) → List (Group Text)
rotated after gs = if is_empty after || leb (length gs) 1 then gs else rotate after [] gs

-- appendFairPriorityTier: what it appends to a target that may still grow by `left`.
unfoldable pub tier_jobs : List Job → ℕ → Text → List Job
unfolding rounds by_owner rotate
tier_jobs tier left after =
    rounds (length tier) (rotated after (by_owner tier [])) (length tier) left

-- `byPriority[job.Priority] = append(...)`.
unfoldable pub file_priority : Job → List (Group ℤ) → List (Group ℤ)
file_priority j [] = record { key = j.priority; jobs = j ∷ [] } ∷ []
file_priority j (g ∷ gs) =
    if int_eq g.key j.priority
    then record { key = g.key; jobs = g.jobs ++ (j ∷ []) } ∷ gs
    else g ∷ file_priority j gs

unfoldable pub by_priority : List Job → List (Group ℤ) → List (Group ℤ)
by_priority [] gs = gs
by_priority (j ∷ js) gs = by_priority js (file_priority j gs)

-- The sort of the priorities, the highest first, as one of their groups.
unfoldable pub insert : Group ℤ → List (Group ℤ) → List (Group ℤ)
insert g [] = g ∷ []
insert g (h ∷ hs) = if ltb_ℤ g.key h.key then h ∷ insert g hs else g ∷ (h ∷ hs)

unfoldable pub sorted : List (Group ℤ) → List (Group ℤ)
sorted [] = []
sorted (g ∷ gs) = insert g (sorted gs)

-- The loop over the priorities, which breaks when the limit is reached.
unfoldable pub tiers : (ℤ → Text) → List (Group ℤ) → ℕ → List Job
unfolding tier_jobs
tiers after [] left = []
tiers after (g ∷ gs) left =
    let taken = tier_jobs g.jobs left (after g.key) in
    elim (length taken == left) [
      | true ↦ taken
      | false ↦ taken ++ tiers after gs (left - length taken)
    ]

-- fairQueueWindow, with the last owner served of each priority. A limit below 0 is as 0.
unfoldable pub fair_window : List Job → ℕ → (ℤ → Text) → List Job
unfolding tiers by_priority sorted
fair_window window limit after =
    if is_empty window || limit == 0 then [] else tiers after (sorted (by_priority window [])) limit
