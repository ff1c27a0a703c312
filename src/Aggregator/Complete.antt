-- ===== src/Aggregator/Complete.antt =====
-- execution/aggregator.rs: what an aggregator answers to the partial results of a query.
use stats_cruncher.Base.{
  ℕ, ◌+◌, ◌%◌, ◌^◌, ◌≡◌, refl, Option, none, some, List, [], ◌∷◌, arith, length,
}
use stats_cruncher.Float.{Float}
use stats_cruncher.Query.{Response, default_response}
use stats_cruncher.Aggregator.{Aggregator, new, merge, add_partial}

module _ {W : Type 0} ⦃f : Float W⦄ where
  -- The answers to the partial results, in the order in which they arrive.
  pub answers : Aggregator W → List (Response W) → List (Option (Response W))
  answers a [] = []
  answers a (p ∷ ps) = let (answer, a') = merge a p in answer ∷ answers a' ps

  pub add_all : Response W → List (Response W) → Response W
  add_all acc [] = acc
  add_all acc (p ∷ ps) = add_all (add_partial acc p) ps

  -- Nothing for every partial result but the last, and then the response.
  abbrev pub silent_until : Response W → List (Response W) → List (Option (Response W))
  silent_until r [] = []
  silent_until r (p ∷ []) = some r ∷ []
  silent_until r (p ∷ q ∷ ps) = none ∷ silent_until r (q ∷ ps)

  answers_from :
      (a : Aggregator W) (ps : List (Response W))
      → a.received_chunks + length ps ≡ a.expected_chunks
      → answers a ps ≡ silent_until (add_all a.acc ps) ps
  unfolding answers merge add_all
  answers_from a [] h = refl
  answers_from a (p ∷ []) h = ground arith
  answers_from a (p ∷ q ∷ ps) h = ground (
    arith,
    answers_from (record a { received_chunks = a.received_chunks + 1; acc = add_partial a.acc p })
        (q ∷ ps),
  )

  -- An aggregator for as many chunks as partial results arrive answers nothing until the last of them, and
  -- then with all of them merged in the order of arrival.
  pub answers-silent_until :
      (ps : List (Response W))
      → answers (new (length ps)) ps ≡ silent_until (add_all default_response ps) ps
  unfolding new
  answers-silent_until ps = answers_from (new (length ps)) ps (omega arith)

  pub sum_matched : List (Response W) → ℕ
  sum_matched [] = 0
  sum_matched (p ∷ ps) = p.matched_rows + sum_matched ps

  -- Merging partial results one after another adds up their counts of rows, modulo 2 ^ 64.
  pub matched_rows-add_all :
      (acc : Response W) (ps : List (Response W))
      → acc.matched_rows ≡ acc.matched_rows % 2 ^ 64
      → (add_all acc ps).matched_rows ≡ (acc.matched_rows + sum_matched ps) % 2 ^ 64
  unfolding add_all add_partial sum_matched
  matched_rows-add_all acc [] h = omega arith
  matched_rows-add_all acc (p ∷ ps) h =
      omega (arith, matched_rows-add_all (add_partial acc p) ps (omega arith))
