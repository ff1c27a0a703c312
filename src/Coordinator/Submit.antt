-- ===== src/Coordinator/Submit.antt =====
-- execution/coordinator.rs: `admit` keeps the invariant.
use stats_cruncher.Base.{
  ◌∙◌, ℕ, ◌+◌, ◌^◌, ◌≤◌, ◌<◌, ◌≡◌, ◌≢◌, refl, sym, ap, ap₂, subst, ◌⊎◌, List, arith, length,
  AppResult, ok, err, panic,
}
use stats_cruncher.Float.{Float}
use stats_cruncher.Bitmap.{Bitmap}
use stats_cruncher.Map.{number_key}
use stats_cruncher.Query.{Query, default_response}
use stats_cruncher.Worker.Meaning.{satisfies}
use stats_cruncher.Storage.Store.{ColumnStore, chunk_count}
use stats_cruncher.Storage.Table.{Table}
use stats_cruncher.Coordinator.{Coordinator, admit, dispatched}
use stats_cruncher.Coordinator.System.{System, submitted, note_accepted}
use stats_cruncher.Coordinator.Dispatch.{Enqueued, admit-Enqueued, mask_of, answered}
use stats_cruncher.Coordinator.Numbered.{index-Fits, matching_in}
use stats_cruncher.Coordinator.Measure.{Measure, rows_in, of_rows_empty}
use stats_cruncher.Coordinator.Invariant.{tally_sent-snoc, IsSound, IsBusy-same, Answered-snoc}
use stats_cruncher.Coordinator.Skips.{SkipsSoundly, nothing_matches}
use stats_cruncher.Coordinator.Entered.{
  accepting, skip_mask, all_chunks, mask-Fits, numbered, entered-IsSound,
}

note_accepted_not :
    (r : AppResult (Unit {0})) (k : ℕ) (ks : List ℕ) → r ≢ ok tt → note_accepted r k ks ≡ ks
note_accepted_not (ok tt) k ks h = absurd (h refl)
note_accepted_not (err e) k ks h = refl
note_accepted_not panic k ks h = refl

module _ {B W : Type 0} ⦃m : Bitmap B⦄ ⦃f : Float W⦄ {st : ColumnStore B W} {table : Table W}
    (μ : Measure st table) (chunked : 1 ≤ st.chunk_size) (skips : SkipsSoundly st table)
    (asked : ℕ → Query W) (s : System B W) (i : IsSound μ asked s) (k : ℕ) where
  answered-IsSound :
      (chunk_count st ≡ 0) ⊎ (dispatched (mask_of (asked k) st) ≡ 0)
      → IsSound μ asked
          (accepting μ chunked skips asked s i k (answered k (ok default_response) s.coordinator))
  answered-IsSound h =
      let s' : System B W =
        accepting μ chunked skips asked s i k (answered k (ok default_response) s.coordinator) in
      record {
        same_store = i.same_store;
        opened = i.opened;
        tasks_in = i.tasks_in;
        running_in = i.running_in;
        ascending = i.ascending;
        unused = i.unused;
        idle = i.idle;
        busy = λ q e h'. IsBusy-same μ asked s s' q e refl refl (i.busy q e h');
        outputs_good = i.outputs_good;
        answers = Answered-snoc μ asked s.coordinator.sent k _ i.answers (
          default_response,
          refl,
          μ.default_value
              ∙ sym (μ.norm_zero)
              ∙ ap μ.norm (
                  sym (
                    of_rows_empty μ (rows_in table (asked k) 0 st.row_count)
                      (nothing_matches st table chunked skips asked k h))),
        );
        once = λ j.
            omega (arith, i.once j, tally_sent-snoc j k (ok default_response) s.coordinator.sent);
      }

  -- The state after `enqueue`, or a rejection before it.
  noted-IsSound :
      (r : AppResult (Unit {0})) (c : Coordinator B W)
      → s.coordinator.next_id + 1 < 2 ^ 64
      → Enqueued (asked k) k s.coordinator r c
      → IsSound μ asked (record s { coordinator = c; accepted = note_accepted r k s.accepted })
  noted-IsSound r c room enqueued = elim enqueued [
    | Enqueued.rejected no_ok same ↦
        subst (IsSound μ asked) (sym (by_parts same (note_accepted_not r k s.accepted no_ok))) i
    | Enqueued.at_once is_ok nothing same ↦
        subst (IsSound μ asked) (sym (by_parts same (ap (λ r. note_accepted r k s.accepted) is_ok)))
          (answered-IsSound (
            subst (λ x. (chunk_count x ≡ 0) ⊎ (dispatched (mask_of (asked k) x) ≡ 0)) i.same_store
              nothing))
    | Enqueued.in_flight is_ok sends same ↦
        subst (IsSound μ asked) (sym (by_parts same (ap (λ r. note_accepted r k s.accepted) is_ok)))
          (entered-IsSound μ chunked skips asked s i k room sends)
  ]
    where
      by_parts :
          {d d' : Coordinator B W} {l l' : List ℕ}
          → d ≡ d'
          → l ≡ l'
          → record s { coordinator = d; accepted = l }
            ≡ record s { coordinator = d'; accepted = l' }
      by_parts p q = ap₂ (λ d l. record s { coordinator = d; accepted = l }) p q

  pub submit-IsSound :
      (rss : ℕ) → s.coordinator.next_id + 1 < 2 ^ 64 → IsSound μ asked (submitted rss (asked k) k s)
  unfolding submitted
  submit-IsSound rss room =
      noted-IsSound (admit rss (asked k) k s.coordinator).0 (admit rss (asked k) k s.coordinator).1
        room
        (admit-Enqueued rss (asked k) k s.coordinator i.opened (
          index-Fits (matching_in (satisfies (asked k) table)) 0
            (length (skip_mask μ chunked skips asked s i k)) (skip_mask μ chunked skips asked s i k)
            (all_chunks μ chunked skips asked s i k) (numbered μ chunked skips asked s i k)
            (mask-Fits μ chunked skips asked s i k) (omega arith)))
