-- ===== src/Pipeline/Graph/Rounds/Invariant.antt =====
-- The invariant of the planner's rounds (internal/cluster/pipeline_graph.go), over the layers of
-- indices that the rounds have processed.
use context_bridge.Prelude.{
  ℕ, ◌+◌, ◌<◌, Bool, false, not, ◌&&◌, List, [], ◌∷◌, ◌++◌, map, ltb, ◌==◌, if◌then◌else◌, length,
  get_or, ◌≡◌, sym, ap, arith, Bool-cases, inl, inr, select, count, total, count-append,
  count-select, total-select_split, length-total, select-eq, le-total, length-append, ◌∙◌,
}
use context_bridge.Pipeline.Graph.Rounds.{Progress, is_ready, round}
use context_bridge.Pipeline.Graph.Rounds.Counters.{waits, length-mark, get_or-mark, get_or-release}
use context_bridge.Pipeline.Graph.Rounds.Layers.{
  concat, layer_of, concat-append, map-snoc, layer_of-le, layer_of-append_old, layer_of-append_new,
  count_of_layer,
}

abbrev pub pending : List Bool → ℕ → List ℕ
pending processed n = select (λ x. not (get_or processed x false)) 0 n

module _ {ℓ} {A : Type ℓ} (name : ℕ → A) (n : ℕ) (children : List (List ℕ)) where
  pub record Inv (s : Progress A) (done : List (List ℕ)) : Type ℓ where
    pub order_done : s.order ≡ map name (concat done)
    pub layers_done : s.layers ≡ map (map name) done
    pub processed_all : length s.processed ≡ n
    pub once :
        (i : ℕ) → i < n → count i (concat done) ≡ (if get_or s.processed i false then 1 else 0)
    pub below : (i : ℕ) → 0 < count i (concat done) → i < n
    pub waiting :
        (i : ℕ) → i < n → get_or s.remaining i 0 ≡ waits children (pending s.processed n) i
    pub counted : length (concat done) + length (pending s.processed n) ≡ n
    pub layered :
        (i d : ℕ)
        → 0 < count i (get_or children d [])
        → 0 < count i (concat done)
        → layer_of d done < layer_of i done

  -- The steps that a round takes.
  abbrev pub ready : Progress A → List ℕ
  ready s = select (is_ready s.processed s.remaining) 0 n

  -- What is pending splits into the steps of a round and what is pending after it.
  pending_split :
      (w : ℕ → ℕ) (s : Progress A)
      → length s.processed ≡ n
      → total w (pending s.processed n)
        ≡ total w (ready s) + total w (pending (round name children (ready s) s).processed n)
  unfolding round is_ready
  pending_split w s h =
      total-select_split w (λ x. not (get_or s.processed x false))
        (λ x. get_or s.remaining x 0 == 0) 0 n
      ∙ ap (λ ys. total w (ready s) + total w ys)
          (select-eq _ _ 0 n (λ x _ lt. ground (
            arith,
            get_or-mark s.processed (ready s) x (omega arith),
            count-select (is_ready s.processed s.remaining) x 0 n,
          )))

  count-ready :
      (s : Progress A) (i : ℕ)
      → count i (ready s) ≡ (if ltb i n && is_ready s.processed s.remaining i then 1 else 0)
  count-ready s i = ground (arith, count-select (is_ready s.processed s.remaining) i 0 n)

  count-pending :
      (s : Progress A) (i : ℕ)
      → i < n
      → count i (pending s.processed n) ≡ (if get_or s.processed i false then 0 else 1)
  count-pending s i h = ground (arith, count-select (λ x. not (get_or s.processed x false)) i 0 n)

  -- A dependency of a ready step is processed.
  ready_waits :
      (s : Progress A) {done : List (List ℕ)} (i d : ℕ)
      → Inv s done
      → 0 < count i (ready s)
      → d < n
      → 0 < count i (get_or children d [])
      → 0 < count d (concat done)
  unfolding is_ready
  ready_waits s i d v r lt e = ground (
    arith,
    count-ready s i,
    count-pending s d,
    v.waiting i,
    v.once d,
    le-total (λ j. count i (get_or children j [])) d (pending s.processed n),
  )

  module _ (source : (d i : ℕ) → 0 < count i (get_or children d []) → d < n) where
    round_once :
        (s : Progress A) (done : List (List ℕ))
        → Inv s done
        → (i : ℕ) → i < n
        → count i (concat (done ++ ready s ∷ []))
          ≡ (if get_or (round name children (ready s) s).processed i false then 1 else 0)
    unfolding round is_ready
    round_once s done v i h =
        rw (concat-append done (ready s), count-append i (concat done) (ready s))
          (ground (
            arith,
            v.processed_all,
            v.once i,
            count-ready s i,
            get_or-mark s.processed (ready s) i,
          ))

    round_layered :
        (s : Progress A) (done : List (List ℕ))
        → Inv s done
        → (i d : ℕ) → 0 < count i (get_or children d [])
        → 0 < count i (concat (done ++ ready s ∷ []))
        → layer_of d (done ++ ready s ∷ []) < layer_of i (done ++ ready s ∷ [])
    round_layered s done v i d e h = elim (Bool-cases (ltb 0 (count i (concat done)))) [
      | inl old ↦ ground (
        arith,
        v.layered i d e,
        layer_of-le i done,
        count_of_layer d done,
        layer_of-append_old i done (ready s),
        layer_of-append_old d done (ready s),
      )
      | inr new ↦
          let r : 0 < count i (ready s) = ground (
            arith,
            rw (concat-append done (ready s)) at h,
            count-append i (concat done) (ready s),
          ) in
          let p = ready_waits s i d v r (source d i e) e in
          ground (
            arith,
            p,
            r,
            layer_of-le d done,
            layer_of-append_new i done (ready s),
            layer_of-append_old d done (ready s),
          )
    ]

    -- A round keeps the invariant, with the steps that it takes as one more layer.
    pub round-Inv :
        (s : Progress A) (done : List (List ℕ))
        → Inv s done
        → Inv (round name children (ready s) s) (done ++ ready s ∷ [])
    unfolding round
    round-Inv s done v = record {
      order_done =
          rw (v.order_done, concat-append done (ready s))
            (sym (map-snoc name (concat done) (ready s)));
      layers_done = rw (v.layers_done) (sym (map-snoc (map name) done (ready s ∷ [])));
      processed_all = length-mark s.processed (ready s) ∙ v.processed_all;
      once = round_once s done v;
      below = λ i h. ground (
        arith,
        rw (concat-append done (ready s)) at h,
        count-append i (concat done) (ready s),
        v.below i,
        count-ready s i,
      );
      waiting = λ i h. ground (
        arith,
        get_or-release children s.remaining (ready s) i,
        v.waiting i h,
        pending_split (λ j. count i (get_or children j [])) s v.processed_all,
      );
      counted =
          rw (concat-append done (ready s), length-append (concat done) (ready s))
            (omega (
              arith,
              v.counted,
              pending_split (λ _. 1) s v.processed_all,
              length-total (ready s),
              length-total (pending s.processed n),
              length-total (pending (round name children (ready s) s).processed n),
            ));
      layered = round_layered s done v;
    }
