-- ===== src/Coordinator/Weights.antt =====
-- execution/coordinator.rs: what the tasks and outputs of a query add up to, and what the tasks of all its
-- chunks do.
use stats_cruncher.Base.{
  ℕ, suc, ◌+◌, ◌≡◌, refl, ap, subst, Bool, true, false, not, some, List, [], ◌∷◌, ◌++◌, arith, ◌==◌,
  if◌then◌else◌, length, filter, get_elem?, ==_iff, length-append, snoc_append,
}
use stats_cruncher.Query.{Query, Response}
use stats_cruncher.Worker.{Task}
use stats_cruncher.Coordinator.{dispatched}
use stats_cruncher.Coordinator.Chunks.{Chunk}
use stats_cruncher.Coordinator.Dispatch.{tasks_of, task_of}
use stats_cruncher.Coordinator.System.{WorkerOutput}

abbrev pub sum_chunks : (Chunk → ℕ) → List Chunk → ℕ
sum_chunks g [] = 0
sum_chunks g (c ∷ cs) = g c + sum_chunks g cs

-- A mask for the chunks, which skips only what weighs nothing.
abbrev pub Fits : (Chunk → ℕ) → List Bool → List Chunk → Type 0
Fits g [] [] = Unit {0}
Fits g (b ∷ mask) (c ∷ cs) = (b ≡ true → g c ≡ 0) × Fits g mask cs
Fits g _ _ = ⊥

abbrev pub Numbered : ℕ → List Chunk → Type 0
Numbered i [] = Unit {0}
Numbered i (c ∷ cs) = (c.index ≡ i) × Numbered (suc i) cs

get_elem?-after :
    (pre post : List Bool) (b : Bool) → get_elem? (pre ++ b ∷ post) (length pre) ≡ some b
get_elem?-after [] post b = refl
get_elem?-after (x ∷ pre) post b = get_elem?-after pre post b

module _ {W : Type 0} where
  -- The weights of the tasks of a query, and of its outputs, added up.
  unfoldable pub weigh : (Task W → ℕ) → ℕ → List (Task W) → ℕ
  weigh w q [] = 0
  weigh w q (t ∷ ts) = (if t.query_id == q then w t else 0) + weigh w q ts

  unfoldable pub weigh_outputs : (Response W → ℕ) → ℕ → List (WorkerOutput W) → ℕ
  weigh_outputs v q [] = 0
  weigh_outputs v q (o ∷ os) = (if o.query_id == q then v o.partial else 0) + weigh_outputs v q os

  pub weigh-append :
      (w : Task W → ℕ) (q : ℕ) (ts us : List (Task W))
      → weigh w q (ts ++ us) ≡ weigh w q ts + weigh w q us
  unfolding weigh
  weigh-append w q [] us = omega arith
  weigh-append w q (t ∷ ts) us = omega (arith, weigh-append w q ts us)

  pub weigh_outputs-append :
      (v : Response W → ℕ) (q : ℕ) (os ps : List (WorkerOutput W))
      → weigh_outputs v q (os ++ ps) ≡ weigh_outputs v q os + weigh_outputs v q ps
  unfolding weigh_outputs
  weigh_outputs-append v q [] ps = omega arith
  weigh_outputs-append v q (o ∷ os) ps = omega (arith, weigh_outputs-append v q os ps)

  -- The tasks of one query weigh nothing for another.
  pub weigh-tasks_of_other :
      (w : Task W → ℕ) (q q' : ℕ) (mask : List Bool) (query : Query W) (cs : List Chunk)
      → (q' == q) ≡ false
      → weigh w q (tasks_of mask query q' cs) ≡ 0
  unfolding weigh tasks_of
  weigh-tasks_of_other w q q' mask query [] h = refl
  weigh-tasks_of_other w q q' mask query (c ∷ cs) h =
      ground (arith, h, weigh-tasks_of_other w q q' mask query cs h)

  weigh-tasks_of_from :
      (w : Task W → ℕ) (g : Chunk → ℕ) (q : ℕ) (query : Query W) (pre mask : List Bool)
      (cs : List Chunk)
      → ((c : Chunk) → w (task_of query q c) ≡ g c)
      → Numbered (length pre) cs
      → Fits g mask cs
      → weigh w q (tasks_of (pre ++ mask) query q cs) ≡ sum_chunks g cs
  unfolding weigh tasks_of
  weigh-tasks_of_from w g q query pre [] [] e n h = refl
  weigh-tasks_of_from w g q query pre (b ∷ mask) (c ∷ cs) e n h =
      let rest : weigh w q (tasks_of (pre ++ b ∷ mask) query q cs) ≡ sum_chunks g cs =
        subst (λ bs. weigh w q (tasks_of bs query q cs) ≡ sum_chunks g cs) (snoc_append pre mask b)
          (weigh-tasks_of_from w g q query (pre ++ b ∷ []) mask cs e
            (subst (λ i. Numbered i cs) (omega (arith, length-append pre (b ∷ []))) n.1) h.1) in
      ground (
        arith,
        rest,
        e c,
        n.0,
        h.0,
        ap (get_elem? (pre ++ b ∷ mask)) n.0,
        get_elem?-after pre mask b,
        ==_iff q q,
      )
  weigh-tasks_of_from w g q query pre [] (c ∷ cs) e n h = absurd h
  weigh-tasks_of_from w g q query pre (b ∷ mask) [] e n h = absurd h

  -- The tasks of a query weigh what its chunks weigh.
  pub weigh-tasks_of :
      (w : Task W → ℕ) (g : Chunk → ℕ) (q : ℕ) (query : Query W) (mask : List Bool)
      (cs : List Chunk)
      → ((c : Chunk) → w (task_of query q c) ≡ g c)
      → Numbered 0 cs
      → Fits g mask cs
      → weigh w q (tasks_of mask query q cs) ≡ sum_chunks g cs
  weigh-tasks_of w g q query mask cs e n h = weigh-tasks_of_from w g q query [] mask cs e n h

  -- As many tasks as chunks that the mask lets through.
  count-tasks_of_from :
      (g : Chunk → ℕ) (q : ℕ) (query : Query W) (pre mask : List Bool) (cs : List Chunk)
      → Numbered (length pre) cs
      → Fits g mask cs
      → weigh (λ t. 1) q (tasks_of (pre ++ mask) query q cs) ≡ length (filter not mask)
  unfolding weigh tasks_of
  count-tasks_of_from g q query pre [] [] n h = refl
  count-tasks_of_from g q query pre (b ∷ mask) (c ∷ cs) n h =
      let rest : weigh (λ t. 1) q (tasks_of (pre ++ b ∷ mask) query q cs)
          ≡ length (filter not mask) =
        subst (λ bs. weigh (λ t. 1) q (tasks_of bs query q cs) ≡ length (filter not mask))
          (snoc_append pre mask b)
          (count-tasks_of_from g q query (pre ++ b ∷ []) mask cs
            (subst (λ i. Numbered i cs) (omega (arith, length-append pre (b ∷ []))) n.1) h.1) in
      ground
        (arith, rest, ap (get_elem? (pre ++ b ∷ mask)) n.0, get_elem?-after pre mask b, ==_iff q q)
  count-tasks_of_from g q query pre [] (c ∷ cs) n h = absurd h
  count-tasks_of_from g q query pre (b ∷ mask) [] n h = absurd h

  pub count-tasks_of :
      (g : Chunk → ℕ) (q : ℕ) (query : Query W) (mask : List Bool) (cs : List Chunk)
      → Numbered 0 cs
      → Fits g mask cs
      → weigh (λ t. 1) q (tasks_of mask query q cs) ≡ dispatched mask
  unfolding dispatched
  count-tasks_of g q query mask cs n h = count-tasks_of_from g q query [] mask cs n h

  -- Where there is no task there is no weight.
  pub weigh_none :
      (w : Task W → ℕ) (q : ℕ) (ts : List (Task W)) → weigh (λ t. 1) q ts ≡ 0 → weigh w q ts ≡ 0
  unfolding weigh
  weigh_none w q [] h = refl
  weigh_none w q (t ∷ ts) h = ground (arith, h, weigh_none w q ts)

  pub weigh_outputs_none :
      (v : Response W → ℕ) (q : ℕ) (os : List (WorkerOutput W))
      → weigh_outputs (λ p. 1) q os ≡ 0
      → weigh_outputs v q os ≡ 0
  unfolding weigh_outputs
  weigh_outputs_none v q [] h = refl
  weigh_outputs_none v q (o ∷ os) h = ground (arith, h, weigh_outputs_none v q os)
