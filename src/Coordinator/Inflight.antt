-- ===== src/Coordinator/Inflight.antt =====
-- execution/coordinator.rs: the map of the queries in flight, as a list that rises in its keys, and the
-- replies that its entries hold.
use stats_cruncher.Base.{
  ℕ, suc, ◌+◌, ◌≤◌, ◌<◌, ◌≡◌, refl, Option, none, some, [], ◌∷◌, arith, ltb, ◌==◌, if◌then◌else◌,
  inl, inr, Bool-cases, ==_iff,
}
use stats_cruncher.Map.{Map, get, insert, remove, number_key}
use stats_cruncher.Coordinator.{InflightQuery}

abbrev pub holds_reply : ℕ → Option ℕ → ℕ
holds_reply k none = 0
holds_reply k (some reply) = if reply == k then 1 else 0

module _ {A : Type 0} where
  abbrev pub Ascending : ℕ → Map ℕ A → Type 0
  Ascending b [] = Unit {0}
  Ascending b ((q, a) ∷ m) = (b ≤ q) × Ascending (suc q) m

  Ascending-weaken : (b c : ℕ) (m : Map ℕ A) → b ≤ c → Ascending c m → Ascending b m
  Ascending-weaken b c [] h s = tt
  Ascending-weaken b c ((q, a) ∷ m) h s = (omega arith, s.1)

  get-below : (b q : ℕ) (m : Map ℕ A) → Ascending b m → q < b → get q m ≡ none
  unfolding get
  get-below b q [] s h = refl
  get-below b q ((j, a) ∷ m) s h = ground (arith, get-below (suc j) q m s.1)

  remove-below : (b q : ℕ) (m : Map ℕ A) → Ascending b m → q < b → remove q m ≡ m
  unfolding remove
  remove-below b q [] s h = refl
  remove-below b q ((j, a) ∷ m) s h = ground (arith, remove-below (suc j) q m s.1)

  pub Ascending-insert :
      (b q : ℕ) (a : A) (m : Map ℕ A) → b ≤ q → Ascending b m → Ascending b (insert q a m)
  unfolding insert
  Ascending-insert b q a [] h s = (h, tt)
  Ascending-insert b q a ((j, c) ∷ m) h s = elim (Bool-cases (j == q)) [
    | inl same ↦ rw same (h, ground (arith, same, s.1))
    | inr other ↦ elim (Bool-cases (ltb q j)) [
      | inl first ↦ rw (other, first) (h, (ground arith, s.1))
      | inr later ↦ rw (other, later) (s.0, Ascending-insert (suc j) q a m (ground arith) s.1)
    ]
  ]

  pub Ascending-remove : (b q : ℕ) (m : Map ℕ A) → Ascending b m → Ascending b (remove q m)
  unfolding remove
  Ascending-remove b q [] s = tt
  Ascending-remove b q ((j, a) ∷ m) s =
      let rest = Ascending-remove (suc j) q m s.1 in
      elim (Bool-cases (j == q)) [
        | inl same ↦ rw same (Ascending-weaken b (suc j) (remove q m) (omega (arith, s.0)) rest)
        | inr other ↦ rw other (s.0, rest)
      ]

module _ {W : Type 0} where
  -- How many queries in flight hold the reply.
  unfoldable pub pending : ℕ → Map ℕ (InflightQuery W) → ℕ
  pending k [] = 0
  pending k ((q, e) ∷ m) = holds_reply k e.reply + pending k m

  pub pending-remove :
      (b k q : ℕ) (e : InflightQuery W) (m : Map ℕ (InflightQuery W))
      → Ascending b m
      → get q m ≡ some e
      → pending k m ≡ holds_reply k e.reply + pending k (remove q m)
  unfolding pending get remove
  pending-remove b k q e [] s h = cc
  pending-remove b k q e ((j, d) ∷ m) s h = elim (Bool-cases (j == q)) [
    | inl same ↦ ground (arith, same, h, remove-below (suc j) q m s.1)
    | inr other ↦ ground (arith, other, h, pending-remove (suc j) k q e m s.1)
  ]

  pub pending-insert_new :
      (b k q : ℕ) (e : InflightQuery W) (m : Map ℕ (InflightQuery W))
      → Ascending b m
      → get q m ≡ none
      → pending k (insert q e m) ≡ holds_reply k e.reply + pending k m
  unfolding pending get insert
  pending-insert_new b k q e [] s h = refl
  pending-insert_new b k q e ((j, d) ∷ m) s h = elim (Bool-cases (j == q)) [
    | inl same ↦ ground (arith, same, h)
    | inr other ↦ ground (arith, other, h, pending-insert_new (suc j) k q e m s.1)
  ]

  -- An entry that is written back with its reply changes nothing.
  pub pending-insert_old :
      (b k q : ℕ) (e d : InflightQuery W) (m : Map ℕ (InflightQuery W))
      → Ascending b m
      → get q m ≡ some e
      → d.reply ≡ e.reply
      → pending k (insert q d m) ≡ pending k m
  unfolding pending get insert
  pending-insert_old b k q e d [] s h r = cc
  pending-insert_old b k q e d ((j, c) ∷ m) s h r = elim (Bool-cases (j == q)) [
    | inl same ↦ ground (arith, same, h, r)
    | inr other ↦
        ground
          (arith, other, h, r, get-below (suc j) q m s.1, pending-insert_old (suc j) k q e d m s.1)
  ]

  pub pending-none :
      (k : ℕ) (m : Map ℕ (InflightQuery W)) → ((q : ℕ) → get q m ≡ none) → pending k m ≡ 0
  unfolding pending get
  pending-none k [] h = refl
  pending-none k ((j, d) ∷ m) h = ground (arith, h j, ==_iff j j)
