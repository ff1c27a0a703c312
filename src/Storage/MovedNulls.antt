-- ===== src/Storage/MovedNulls.antt =====
-- `sort_by` of storage.rs: where the null rows go.
use stats_cruncher.Base.{
  ℕ, ◌^◌, ◌≤◌, ◌<◌, ◌≡◌, refl, sym, ◌∙◌, ap, ◌⊎◌, inl, inr, true, false, Option, none, some, List,
  [], ◌∷◌, arith, ◌==◌, Bool-cases, length, get_elem?, get_elem?_total, lt_of_get_elem?,
  Option-cases, All, ok, ◌>>=◌,
}
use stats_cruncher.Map.{Map, get, text_key}
use stats_cruncher.Text.{Text, beq}
use stats_cruncher.Bitmap.{Bitmap, IsBitmap}
use stats_cruncher.Storage.Sort.{move_nulls}
use stats_cruncher.Storage.Table.{Cell, is_null_cell, test_at, null_test, HoldsNulls, NullsWithin}
use stats_cruncher.Storage.Permuted.{
  IsPermutation, at_or, pick, permute_lem, All-get_elem?, test_at-pick, test_at-pick_none,
}
use stats_cruncher.Storage.Places.{
  places_of, length-places_of, places_of_iff, places_of-below, elem-map, elem-map_none, All_of_elem,
}

module _ {B : Type 0} ⦃m : Bitmap B⦄ where
  abbrev moved_bitmap : List ℕ → B → B
  moved_bitmap places b = m.collect (pick 0 (m.iter b) places)

  abbrev pub moved_nulls : List ℕ → Map Text B → Map Text B
  moved_nulls places [] = []
  moved_nulls places ((name, b) ∷ nulls) = (name, moved_bitmap places b) ∷ moved_nulls places nulls

  module _ (laws : IsBitmap B) (n : ℕ) (perm : List ℕ) (h : IsPermutation n perm)
      (small : n < 2 ^ 32) where
    abbrev places : List ℕ
    places = places_of n perm

    All-iter : (P : ℕ → Type 0) (b : B) → ((x : ℕ) → m.contains b x ≡ true → P x) → All P (m.iter b)
    All-iter P b f = All_of_elem P (m.iter b) (λ x e. f x (laws.contains-iter b x ∙ e))

    pub move_nulls_lem :
        (nulls : Map Text B)
        → NullsWithin n nulls
        → move_nulls places nulls ≡ ok (moved_nulls places nulls)
    unfolding move_nulls
    move_nulls_lem [] w = refl
    move_nulls_lem ((name, b) ∷ nulls) w =
        let below =
          All-iter (λ x. x < length places) b
            (λ x e. omega (arith, w.0 x e, length-places_of n perm h small)) in
        ap
          (λ r.
            r >>= λ moved. move_nulls places nulls >>= λ rest. ok ((name, m.collect moved) ∷ rest))
          (permute_lem 0 places (m.iter b) below)
        ∙ ap (λ r. r >>= λ rest. ok ((name, moved_bitmap places b) ∷ rest))
            (move_nulls_lem nulls w.1)

    -- A place is in the moved bitmap when the row that went there was in the bitmap.
    contains-moved_bitmap :
        (b : B) (r row : ℕ)
        → ((x : ℕ) → m.contains b x ≡ true → x < n)
        → get_elem? perm r ≡ some row
        → row < n
        → m.contains (moved_bitmap places b) r ≡ m.contains b row
    contains-moved_bitmap b r row w at l =
        laws.contains-collect (pick 0 (m.iter b) places) r
        ∙ elem-map (at_or 0 places) (m.iter b) r row (
            All-iter (λ x. (at_or 0 places x == r) ≡ (x == row)) b
              (λ x e. places_of_iff n perm h small r row x at l (w x e)))
        ∙ sym (laws.contains-iter b row)

    contains-moved_bitmap_none :
        (b : B) (r : ℕ)
        → ((x : ℕ) → m.contains b x ≡ true → x < n)
        → n ≤ r
        → m.contains (moved_bitmap places b) r ≡ false
    contains-moved_bitmap_none b r w l =
        laws.contains-collect (pick 0 (m.iter b) places) r
        ∙ elem-map_none (at_or 0 places) (m.iter b) r n l (
            All-iter (λ x. at_or 0 places x < n) b
              (λ x e. places_of-below n perm h small x (w x e)))

    order : (a b : ℕ) → (a < b) ⊎ (b ≤ a)
    order a b = omega arith

    contains-below :
        (b : B) (r : ℕ)
        → ((x : ℕ) → m.contains b x ≡ true → x < n)
        → m.contains (moved_bitmap places b) r ≡ true
        → r < n
    contains-below b r w e = elim (order r n) [
      | inl less ↦ less
      | inr more ↦ absurd (ground (arith, e, contains-moved_bitmap_none b r w more))
    ]

    -- Moved null rows are rows of the store.
    pub moved_nulls-NullsWithin :
        (nulls : Map Text B) → NullsWithin n nulls → NullsWithin n (moved_nulls places nulls)
    moved_nulls-NullsWithin [] w = tt
    moved_nulls-NullsWithin ((name, b) ∷ nulls) w =
        (λ r e. contains-below b r w.0 e, moved_nulls-NullsWithin nulls w.1)

    HoldsNulls-below :
        {W : Type 0} (o : Option B) (cells : List (Cell W)) (x : ℕ)
        → length cells ≡ n
        → HoldsNulls o cells
        → null_test o x ≡ true
        → x < n
    HoldsNulls-below o cells x l k e = elim (Option-cases (get_elem? cells x)) [
      | inl beyond ↦ absurd (no_test (rw (test_at, beyond) at (sym (k x) ∙ e)))
      | inr (c, there) ↦ omega (arith, l, lt_of_get_elem? cells x there)
    ]
      where
        no_test : false ≡ true → ⊥
        no_test q = cc

    abbrev moved_entry : Option B → Option B
    moved_entry none = none
    moved_entry (some b) = some (moved_bitmap places b)

    moved_entry-inside :
        (o : Option B) (r row : ℕ)
        → ((x : ℕ) → null_test o x ≡ true → x < n)
        → get_elem? perm r ≡ some row
        → row < n
        → null_test (moved_entry o) r ≡ null_test o row
    moved_entry-inside none r row w at l = refl
    moved_entry-inside (some b) r row w at l = contains-moved_bitmap b r row w at l

    moved_entry-outside :
        (o : Option B) (r : ℕ)
        → ((x : ℕ) → null_test o x ≡ true → x < n)
        → n ≤ r
        → null_test (moved_entry o) r ≡ false
    moved_entry-outside none r w l = refl
    moved_entry-outside (some b) r w l = contains-moved_bitmap_none b r w l

    get-moved_nulls :
        (nulls : Map Text B) (name : Text)
        → get name (moved_nulls places nulls) ≡ moved_entry (get name nulls)
    unfolding get
    get-moved_nulls [] name = refl
    get-moved_nulls ((n, b) ∷ nulls) name = elim (Bool-cases (beq n name)) [
      | inl hit ↦ rw hit refl
      | inr miss ↦ rw miss (get-moved_nulls nulls name)
    ]

    -- The null rows of a name, once they are moved, are those of the cells in the new order.
    pub moved_nulls-HoldsNulls :
        {W : Type 0} (nulls : Map Text B) (name : Text) (cells : List (Cell W))
        → length cells ≡ n
        → HoldsNulls (get name nulls) cells
        → HoldsNulls (get name (moved_nulls places nulls)) (pick Cell.null perm cells)
    moved_nulls-HoldsNulls nulls name cells l k r =
        let w : (x : ℕ) → null_test (get name nulls) x ≡ true → x < n =
          λ x e. HoldsNulls-below (get name nulls) cells x l k e in
        ap (λ o. null_test o r) (get-moved_nulls nulls name) ∙ elim (order r n) [
          | inl less ↦
              let (row, at) = get_elem?_total perm r (omega (arith, less, h.same_length)) in
              let row_below = All-get_elem? (λ x. x < n) perm r row at h.within in
              moved_entry-inside (get name nulls) r row w at row_below
              ∙ k row
              ∙ sym (test_at-pick is_null_cell perm cells r row at (omega (arith, row_below, l)))
          | inr more ↦
              moved_entry-outside (get name nulls) r w more
              ∙ sym
                  (test_at-pick_none is_null_cell perm cells r (omega (arith, more, h.same_length)))
        ]
