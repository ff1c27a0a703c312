-- ===== src/Api/Dto.antt =====
-- api/dto.rs: the bodies of requests and responses, and their conversions to and from query/model.rs.
-- Parsing of RFC 3339 and printing of times are the chrono crate's, and printing of a float is the
-- standard library's: they are parameters. The message of a rejected request is not kept.
use stats_cruncher.Base.{ℕ, Option, none, some, List, [], ◌∷◌, map, ltb, if◌then◌else◌}
use stats_cruncher.Base.Int.{ℤ}
use stats_cruncher.Text.{Text, trim}
use stats_cruncher.Map.{Map, get, text_key}
use stats_cruncher.Float.{Float}
use stats_cruncher.Query.{
  Query, RangeFilter, NumericBound, Comparison, StringMatch, Response, NumericStats, ColumnKind,
}

pub data BoundValue (W : Type 0) : Type 0 where
  number : W → BoundValue W
  date_time : Text → BoundValue W

pub record RangeDto (W : Type 0) : Type 0 where
  pub eq : Option (BoundValue W)
  pub gt : Option (BoundValue W)
  pub gte : Option (BoundValue W)
  pub lt : Option (BoundValue W)
  pub lte : Option (BoundValue W)

pub data RangeOrList (W : Type 0) : Type 0 where
  one : RangeDto W → RangeOrList W
  many : List (RangeDto W) → RangeOrList W

pub record QueryRequest (W : Type 0) : Type 0 where
  pub must : Map Text (List Text)
  pub must_not : Map Text (List Text)
  pub ranges : Map Text (RangeOrList W)

pub record ColumnStatsDto (W : Type 0) : Type 0 where
  pub count : ℕ
  pub sum : Option W
  pub min : Option W
  pub max : Option W
  pub oldest : Option Text
  pub newest : Option Text

pub record QueryResponse (W : Type 0) : Type 0 where
  pub matched_rows : ℕ
  pub numeric : Map Text (ColumnStatsDto W)
  pub string_counts : Map Text (Map Text ℕ)

-- `opt.map(...)` and `?` on an `Option` that stands for a `Result` without its message.
abbrev pub then_some : {A B : Type 0} → Option A → (A → Option B) → Option B
then_some none k = none
then_some (some a) k = k a

abbrev pub string_matches : Map Text (List Text) → Map Text StringMatch
string_matches entries = map (λ (k, v). (k, record { values = v })) entries

module _ {W : Type 0} ⦃f : Float W⦄ (parse_rfc3339 : Text → Option ℤ) where
  unfoldable pub bound_value : BoundValue W → Option W
  bound_value (BoundValue.number n) = some n
  bound_value (BoundValue.date_time s) =
      then_some (parse_rfc3339 (trim s)) λ timestamp. some (f.of_int timestamp)

  unfoldable pub to_bound : BoundValue W → Comparison → Option (Option (NumericBound W))
  unfolding bound_value
  to_bound v comparison =
      then_some (bound_value v) λ x. some (some (record { value = x; comparison = comparison }))

  -- The bound of two that a range may give: the inclusive one, if it is there.
  unfoldable pub one_bound :
      Option (BoundValue W)
      → Comparison
      → Option (BoundValue W)
      → Comparison
      → Option (Option (NumericBound W))
  unfolding to_bound
  one_bound (some v) inclusive other strict = to_bound v inclusive
  one_bound none inclusive (some v) strict = to_bound v strict
  one_bound none inclusive none strict = some none

  unfoldable pub range_filter : RangeDto W → Option (RangeFilter W)
  unfolding bound_value one_bound
  range_filter r = elim r.eq [
    | some v ↦ then_some (bound_value v) λ x. some (record {
      lower = some (record { value = x; comparison = Comparison.gte });
      upper = some (record { value = x; comparison = Comparison.lte });
    })
    | none ↦ then_some (one_bound r.gte Comparison.gte r.gt Comparison.gt) λ lower.
        then_some (one_bound r.lte Comparison.lte r.lt Comparison.lt)
          λ upper. some (record { lower = lower; upper = upper })
  ]

  unfoldable pub range_filters : List (RangeDto W) → Option (List (RangeFilter W))
  unfolding range_filter
  range_filters [] = some []
  range_filters (r ∷ rs) =
      then_some (range_filter r) λ rf. then_some (range_filters rs) λ rest. some (rf ∷ rest)

  unfoldable pub ranges_of : Map Text (RangeOrList W) → Option (Map Text (List (RangeFilter W)))
  unfolding range_filters
  ranges_of [] = some []
  ranges_of ((k, RangeOrList.one r) ∷ entries) =
      then_some (range_filter r)
        λ rf. then_some (ranges_of entries) λ rest. some ((k, rf ∷ []) ∷ rest)
  ranges_of ((k, RangeOrList.many rs) ∷ entries) =
      then_some (range_filters rs)
        λ rfs. then_some (ranges_of entries) λ rest. some ((k, rfs) ∷ rest)

  unfoldable pub query_of : QueryRequest W → Option (Query W)
  unfolding ranges_of
  query_of req = then_some (ranges_of req.ranges) λ ranges. some (record {
    must = string_matches req.must;
    must_not = string_matches req.must_not;
    ranges = ranges;
  })

module _ {W : Type 0} ⦃f : Float W⦄ (to_rfc3339 : ℤ → Option Text)
    (float_to_string : W → Text) where
  unfoldable pub epoch_to_rfc3339 : W → Text
  epoch_to_rfc3339 epoch_secs = elim (to_rfc3339 (f.to_int epoch_secs)) [
    | some t ↦ t
    | none ↦ float_to_string epoch_secs
  ]

  -- `(count > 0).then_some(x)`
  abbrev pub when_some : {A : Type 0} → ℕ → A → Option A
  when_some count a = if ltb 0 count then some a else none

  unfoldable pub stats_dto : ColumnKind → NumericStats W → ColumnStatsDto W
  unfolding epoch_to_rfc3339
  stats_dto ColumnKind.date_time stats = record {
    count = stats.count;
    sum = none;
    min = none;
    max = none;
    oldest = when_some stats.count (epoch_to_rfc3339 stats.min);
    newest = when_some stats.count (epoch_to_rfc3339 stats.max);
  }
  stats_dto ColumnKind.numeric stats = record {
    count = stats.count;
    sum = some stats.sum;
    min = when_some stats.count stats.min;
    max = when_some stats.count stats.max;
    oldest = none;
    newest = none;
  }

  abbrev pub kind_in : Map Text ColumnKind → Text → ColumnKind
  kind_in kinds name = elim (get name kinds) [ none ↦ ColumnKind.numeric | some kind ↦ kind ]

  unfoldable pub query_response : Response W → QueryResponse W
  unfolding stats_dto get
  query_response r = record {
    matched_rows = r.matched_rows;
    numeric =
        map (λ (name, stats). (name, stats_dto (kind_in r.column_types name) stats)) r.numeric;
    string_counts = r.string_counts;
  }
