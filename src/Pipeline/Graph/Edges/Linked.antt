-- ===== src/Pipeline/Graph/Edges/Linked.antt =====
-- Which edges internal/cluster/pipeline_graph.go records: those that the steps declare.
use context_bridge.Prelude.{
  ℕ, zero, suc, ◌+◌, ◌-◌, ◌≤◌, ◌<◌, Bool, false, ◌&&◌, ◌||◌, List, [], ◌∷◌, ◌++◌, Option, none,
  some, ltb, leb, ◌==◌, length, set, get_or, ok, ◌≡◌, sym, subst, ◌∙◌, arith, count, count-append,
  length-set, >>=-eq-ok, >>-eq-ok, Bool-cases, inl, inr, Option-cases,
}
use context_bridge.Text.{Text, has, trim_space}
use context_bridge.Pipeline.Graph.Template.{Step, validate_template}
use context_bridge.Pipeline.Graph.Edges.{
  Links, maximum_fan, maximum_edges, lookup, link, link_all, link_steps,
}
use context_bridge.Pipeline.Graph.Rounds.Counters.{get_or-set}

abbrev pub points : ℕ → Option ℕ → Bool
points d none = false
points d (some e) = e == d

-- Whether one of the dependencies names step `d`.
unfoldable pub resolves : List (Text × ℕ) → List Text → ℕ → Bool
resolves names [] d = false
resolves names (raw ∷ raws) d = points d (lookup (trim_space raw) names) || resolves names raws d

-- The dependencies of the step at an index.
unfoldable pub step_deps : List Step → ℕ → List Text
step_deps [] i = []
step_deps (s ∷ ss) zero = s.depends_on
step_deps (s ∷ ss) (suc i) = step_deps ss i

-- The links with one more edge, from step `d` to step `index`.
abbrev pub add_edge : ℕ → ℕ → Links → Links
add_edge d index links = record {
  indegree = set links.indegree index (get_or links.indegree index 0 + 1);
  children = set links.children d (get_or links.children d [] ++ index ∷ []);
  edges = links.edges + 1;
}

-- What an accepted dependency adds, and the limits that it kept.
pub record Accepted (names : List (Text × ℕ)) (index : ℕ) (raw : Text) (links : Links)
    (seen : List Text) (r : Links × List Text) : Type 0 where
  pub target : ℕ
  pub resolved : lookup (trim_space raw) names ≡ some target
  pub elsewhere : (target == index) ≡ false
  pub new : has (trim_space raw) seen ≡ false
  pub extended : r.0 ≡ add_edge target index links
  pub remembered : r.1 ≡ trim_space raw ∷ seen
  pub edges_le : links.edges + 1 ≤ maximum_edges
  pub fan_le : length (get_or links.children target [] ++ index ∷ []) ≤ maximum_fan

link_at :
    (names : List (Text × ℕ)) (index : ℕ) (step : Step) (raw : Text) (links : Links)
    (seen : List Text) {r : Links × List Text} (d : ℕ)
    → lookup (trim_space raw) names ≡ some d
    → link names index step raw links seen ≡ ok r
    → Accepted names index raw links seen r
unfolding link
link_at names index step raw links seen d l e =
    let e1 = >>-eq-ok (d == index) _ _ (rw l at e) in
    let e2 = >>-eq-ok (has (trim_space raw) seen) _ _ e1.1 in
    let e3 = >>-eq-ok (ltb maximum_edges (links.edges + 1)) _ _ e2.1 in
    let e4 =
      >>-eq-ok (ltb maximum_fan (length (get_or links.children d [] ++ index ∷ []))) _ _ e3.1 in
    record {
      target = d;
      resolved = l;
      elsewhere = e1.0;
      new = e2.0;
      extended = cc (e4.1);
      remembered = cc (e4.1);
      edges_le = ground (arith, e3.0);
      fan_le = ground (arith, e4.0);
    }

pub link-Accepted :
    (names : List (Text × ℕ)) (index : ℕ) (step : Step) (raw : Text) (links : Links)
    (seen : List Text) {r : Links × List Text}
    → link names index step raw links seen ≡ ok r
    → Accepted names index raw links seen r
link-Accepted names index step raw links seen e =
    elim (Option-cases (lookup (trim_space raw) names)) [
      | inl l ↦ unfold link in cc (rw l at e)
      | inr (d, l) ↦ link_at names index step raw links seen d l e
    ]

abbrev pub has_edge : Links → ℕ → ℕ → Bool
has_edge links d i = ltb 0 (count i (get_or links.children d []))

-- The children lists do not change their number.
abbrev pub Sized : ℕ → Links → Type 0
Sized n links = (length links.children ≡ n) × (length links.indegree ≡ n)

pub has_edge-add :
    (n target index : ℕ) (links : Links) (d i : ℕ)
    → Sized n links
    → target < n
    → has_edge (add_edge target index links) d i
      ≡ (has_edge links d i || (i == index && target == d))
unfolding count
has_edge-add n target index links d i z lt = ground (
  arith,
  get_or-set links.children target (get_or links.children target [] ++ index ∷ []) d [],
  count-append i (get_or links.children target []) (index ∷ []),
)

pub Sized-add :
    (n target index : ℕ) (links : Links) → Sized n links → Sized n (add_edge target index links)
Sized-add n target index links z =
    (length-set links.children target _ ∙ z.0, length-set links.indegree index _ ∙ z.1)

pub link_all-eq-ok :
    (names : List (Text × ℕ)) (index : ℕ) (step : Step) (raw : Text) (raws : List Text)
    (links : Links) (seen : List Text) {r : Links × List Text}
    → link_all names index step (raw ∷ raws) links seen ≡ ok r
    → (q : Links × List Text) × (link names index step raw links seen ≡ ok q)
      × (link_all names index step raws q.0 q.1 ≡ ok r)
unfolding link_all
link_all-eq-ok names index step raw raws links seen e =
    >>=-eq-ok (link names index step raw links seen) _ e

-- An accepted step, and the steps behind it.
pub link_steps-eq-ok :
    (names : List (Text × ℕ)) (index : ℕ) (s : Step) (ss : List Step) (links : Links) {r : Links}
    → link_steps names index (s ∷ ss) links ≡ ok r
    → (q : Links × List Text) × (link_all names index s s.depends_on links [] ≡ ok q)
      × (link_steps names (suc index) ss q.0 ≡ ok r)
      × (length s.depends_on ≤ maximum_fan)
      × (validate_template s q.1 ≡ ok tt)
unfolding link_steps
link_steps-eq-ok names index s ss links e =
    let (few, e1) = >>-eq-ok (ltb maximum_fan (length s.depends_on)) _ _ e in
    let (q, first, e2) = >>=-eq-ok (link_all names index s s.depends_on links []) _ e1 in
    let (u, checked, rest) = >>=-eq-ok (validate_template s q.1) _ e2 in
    (q, first, rest, ground (arith, few), checked)

resolves-cons :
    (names : List (Text × ℕ)) (raw : Text) (raws : List Text) (d t : ℕ)
    → lookup (trim_space raw) names ≡ some t
    → resolves names (raw ∷ raws) d ≡ (t == d || resolves names raws d)
unfolding resolves
resolves-cons names raw raws d t e = rw e

or-regroup : (a b p q : Bool) → ((a || (b && p)) || (b && q)) ≡ (a || (b && (p || q)))
or-regroup a b p q = ground arith

edge_at :
    (names : List (Text × ℕ)) (s : Step) (ss : List Step) (index d i : ℕ) (b : Bool)
    → ((b || (i == index && resolves names s.depends_on d))
        || (leb (suc index) i && resolves names (step_deps ss (i - suc index)) d))
      ≡ (b || (leb index i && resolves names (step_deps (s ∷ ss) (i - index)) d))
edge_at names s ss index d i b = elim (Bool-cases (i == index)) [
  | inl e ↦ let z : i - index ≡ 0 = ground arith in rw z (unfold step_deps in ground arith)
  | inr e ↦ elim (Bool-cases (leb index i)) [
    | inl l ↦
        let z : i - index ≡ suc (i - suc index) = ground arith in
        rw z (unfold step_deps in ground arith)
    | inr l ↦ ground arith
  ]
]

module _ (names : List (Text × ℕ)) (n : ℕ)
    (in_range : (t : Text) (d : ℕ) → lookup t names ≡ some d → d < n) where
  module _ {ℓ} (P : Links → Type ℓ)
      (keep : (index target : ℕ) (links : Links)
        → index < n
        → target < n
        → links.edges + 1 ≤ maximum_edges
        → length (get_or links.children target [] ++ index ∷ []) ≤ maximum_fan
        → P links
        → P (add_edge target index links)) where
    link_all-keeps :
        (index : ℕ) (step : Step) (raws : List Text) (links : Links) (seen : List Text)
        {r : Links × List Text}
        → index < n
        → P links
        → link_all names index step raws links seen ≡ ok r
        → P r.0
    link_all-keeps index step [] links seen {r} lt p e =
        let same : links ≡ r.0 = unfold link_all in cc in subst P same p
    link_all-keeps index step (raw ∷ raws) links seen lt p e =
        let (q, first, rest) = link_all-eq-ok names index step raw raws links seen e in
        let a = link-Accepted names index step raw links seen first in
        link_all-keeps index step raws q.0 q.1 lt
          (subst P (sym a.extended)
            (keep index a.target links lt (in_range _ a.target a.resolved) a.edges_le a.fan_le p))
          rest

    -- What every accepted dependency keeps, the whole loop keeps.
    pub link_steps-keeps :
        (index : ℕ) (ss : List Step) (links : Links) {r : Links}
        → index + length ss ≤ n
        → P links
        → link_steps names index ss links ≡ ok r
        → P r
    link_steps-keeps index [] links {r} h p e =
        let same : links ≡ r = unfold link_steps in cc in subst P same p
    link_steps-keeps index (s ∷ ss) links h p e =
        let (q, first, rest, few, checked) = link_steps-eq-ok names index s ss links e in
        link_steps-keeps (suc index) ss q.0 (omega arith)
          (link_all-keeps index s s.depends_on links [] (omega arith) p first) rest

  link_all-edges :
      (index : ℕ) (step : Step) (raws : List Text) (links : Links) (seen : List Text)
      {r : Links × List Text}
      → Sized n links
      → link_all names index step raws links seen ≡ ok r
      → (d i : ℕ) → has_edge r.0 d i ≡ (has_edge links d i || (i == index && resolves names raws d))
  link_all-edges index step [] links seen {r} z e d i =
      let same : links ≡ r.0 = unfold link_all in cc in
      rw (← same) (unfold resolves in ground arith)
  link_all-edges index step (raw ∷ raws) links seen z e d i =
      let (q, first, rest) = link_all-eq-ok names index step raw raws links seen e in
      let a = link-Accepted names index step raw links seen first in
      let lt = in_range _ a.target a.resolved in
      let grown =
        link_all-edges index step raws q.0 q.1
          (subst (Sized n) (sym a.extended) (Sized-add n a.target index links z)) rest d i in
      let added = has_edge-add n a.target index links d i z lt in
      grown
      ∙ rw (a.extended, added)
          (rw (resolves-cons names raw raws d a.target a.resolved)
            (or-regroup (has_edge links d i) (i == index) (a.target == d) (resolves names raws d)))

  pub link_steps-edges :
      (index : ℕ) (ss : List Step) (links : Links) {r : Links}
      → index + length ss ≤ n
      → Sized n links
      → link_steps names index ss links ≡ ok r
      → (d i : ℕ)
      → has_edge r d i
        ≡ (has_edge links d i || (leb index i && resolves names (step_deps ss (i - index)) d))
  link_steps-edges index [] links {r} h z e d i =
      let same : links ≡ r = unfold link_steps in cc in
      rw (← same) (unfold step_deps resolves in ground arith)
  link_steps-edges index (s ∷ ss) links h z e d i =
      let (q, first, rest, few, checked) = link_steps-eq-ok names index s ss links e in
      let zq =
        link_all-keeps (Sized n) (λ index target l _ _ _ _ y. Sized-add n target index l y) index s
          s.depends_on links [] (omega arith) z first in
      let before = link_all-edges index s s.depends_on links [] z first d i in
      let after = link_steps-edges (suc index) ss q.0 (omega arith) zq rest d i in
      after ∙ rw before (edge_at names s ss index d i (has_edge links d i))
