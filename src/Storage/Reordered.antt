-- ===== src/Storage/Reordered.antt =====
-- `apply_perm` of storage.rs over all columns of a store.
use stats_cruncher.Base.{
  ℕ, ◌^◌, ◌<◌, ◌≡◌, refl, sym, ◌∙◌, ap, subst, List, [], ◌∷◌, map, length, length-map, All, ok,
  ◌>>=◌,
}
use stats_cruncher.Text.{Text}
use stats_cruncher.Map.{Map, text_key}
use stats_cruncher.Float.{Float}
use stats_cruncher.Bitmap.{Bitmap, IsBitmap}
use stats_cruncher.Storage.Column.{Column}
use stats_cruncher.Storage.Sort.{permute, apply_perm, apply_perms}
use stats_cruncher.Storage.Table.{
  Cell, Table, int_cell, float_cell, IsInteger, IsFloatCell, IsDateTime, HoldsValues, Holds,
}
use stats_cruncher.Storage.Permuted.{
  IsPermutation, at_or, pick, permute_lem, pick-map, All-pick, permuted,
}
use stats_cruncher.Storage.MovedNulls.{moved_nulls, moved_nulls-HoldsNulls}
use stats_cruncher.Storage.Places.{places_of}
use stats_cruncher.Storage.Rebuilt.{apply_perm-string}

module _ {B W : Type 0} ⦃m : Bitmap B⦄ ⦃f : Float W⦄ (laws : IsBitmap B) (n : ℕ) (perm : List ℕ)
    (h : IsPermutation n perm) (small : n < 2 ^ 32) where
  -- The values of cells, picked, are the values of the picked cells.
  permute-map :
      {A : Type 0} (value : Cell W → A) (v : List A) (cells : List (Cell W))
      → length cells ≡ n
      → v ≡ map value cells
      → permute v perm ≡ ok (map value (pick Cell.null perm cells))
  permute-map value v cells l e =
      let lengths : n ≡ length v = sym l ∙ sym (length-map value cells) ∙ sym (ap length e) in
      permute_lem (value Cell.null) v perm (subst (λ k. All (λ row. row < k) perm) lengths h.within)
      ∙ ap (λ x. ok (pick (value Cell.null) perm x)) e
      ∙ ap ok (pick-map value Cell.null perm cells)

  apply_perm-HoldsValues :
      (c : Column B W) (cells : List (Cell W))
      → length cells ≡ n
      → HoldsValues c cells
      → (c' : Column B W) × (apply_perm perm c ≡ ok c') × HoldsValues c' (pick Cell.null perm cells)
  unfolding apply_perm
  apply_perm-HoldsValues (Column.integer v) cells l (e, kinds) = (
    Column.integer (map int_cell (pick Cell.null perm cells)),
    ap (λ r. r >>= λ x. ok (Column.integer x)) (permute-map int_cell v cells l e),
    (refl, All-pick IsInteger Cell.null perm cells tt kinds),
  )
  apply_perm-HoldsValues (Column.float v) cells l (e, kinds) = (
    Column.float (map float_cell (pick Cell.null perm cells)),
    ap (λ r. r >>= λ x. ok (Column.float x)) (permute-map float_cell v cells l e),
    (refl, All-pick IsFloatCell Cell.null perm cells tt kinds),
  )
  apply_perm-HoldsValues (Column.date_time v) cells l (e, kinds) = (
    Column.date_time (map int_cell (pick Cell.null perm cells)),
    ap (λ r. r >>= λ x. ok (Column.date_time x)) (permute-map int_cell v cells l e),
    (refl, All-pick IsDateTime Cell.null perm cells tt kinds),
  )
  apply_perm-HoldsValues (Column.string sc) cells l holds =
      let (new_sc, done, values) = apply_perm-string {W = W} laws n perm h small sc cells l holds in
      (Column.string new_sc, done, values)

  -- All columns are put in the new order, and then hold the table in that order.
  pub apply_perms-Holds :
      (nulls : Map Text B) (names : List Text) (columns : List (Column B W)) (table : Table W)
      → Holds n nulls names columns table
      → (columns' : List (Column B W)) × (apply_perms perm columns ≡ ok columns')
        × Holds n (moved_nulls (places_of n perm) nulls) names columns' (permuted perm table)
  unfolding apply_perms
  apply_perms-Holds nulls [] [] [] holds = ([], refl, tt)
  apply_perms-Holds nulls (name ∷ names) (c ∷ columns) ((k, cells) ∷ table) holds =
      let (c', done, values) = apply_perm-HoldsValues c cells holds.1 holds.2 in
      let (columns', rest, more) = apply_perms-Holds nulls names columns table holds.4 in
      (
        c' ∷ columns',
        ap (λ r. r >>= λ c'. apply_perms perm columns >>= λ cs. ok (c' ∷ cs)) done
            ∙ ap (λ r. r >>= λ cs. ok (c' ∷ cs)) rest,
        (
          holds.0,
          length-map (at_or Cell.null cells) perm ∙ h.same_length,
          values,
          moved_nulls-HoldsNulls laws n perm h small nulls name cells holds.1 holds.3,
          more,
        ),
      )
  apply_perms-Holds nulls _ _ _ holds = absurd holds
