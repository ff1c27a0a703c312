-- ===== src/Bitmap.antt =====
-- `RoaringBitmap` of the roaring crate: a set of `u32`. The crate is a parameter; `IsBitmap` states
-- its documented behaviour: the operations of sets, and `iter` yields the members in ascending order.
pub mod Sets
pub mod Sample
use stats_cruncher.Base.{
  ℕ, suc, ◌≡◌, ◌≤◌, Bool, false, not, ◌&&◌, ◌||◌, List, [], ◌∷◌, leb, ltb, ◌==◌, length, elem,
}

pub record Bitmap (B : Type 0) : Type 0 where
  pub new : B
  pub insert : ℕ → B → B
  -- `insert_range(s..e)`
  pub insert_range : ℕ → ℕ → B → B
  -- `|=`, `&=`, `-=`
  pub union : B → B → B
  pub inter : B → B → B
  pub diff : B → B → B
  pub contains : B → ℕ → Bool
  pub is_empty : B → Bool
  pub len : B → ℕ
  pub iter : B → List ℕ
  -- `collect()`, from any iterator
  pub collect : List ℕ → B

-- A list that rises strictly, from `b` on.
abbrev pub Rising : ℕ → List ℕ → Type 0
Rising b [] = Unit {0}
Rising b (x ∷ xs) = (b ≤ x) × Rising (suc x) xs

pub record IsBitmap (B : Type 0) ⦃m : Bitmap B⦄ : Type 0 where
  pub contains-new : (r : ℕ) → m.contains m.new r ≡ false
  pub contains-insert : (x r : ℕ) (b : B) → m.contains (m.insert x b) r ≡ (x == r || m.contains b r)
  pub contains-insert_range :
      (s e r : ℕ) (b : B)
      → m.contains (m.insert_range s e b) r ≡ ((leb s r && ltb r e) || m.contains b r)
  pub contains-union :
      (a b : B) (r : ℕ) → m.contains (m.union a b) r ≡ (m.contains a r || m.contains b r)
  pub contains-inter :
      (a b : B) (r : ℕ) → m.contains (m.inter a b) r ≡ (m.contains a r && m.contains b r)
  pub contains-diff :
      (a b : B) (r : ℕ) → m.contains (m.diff a b) r ≡ (m.contains a r && not (m.contains b r))
  pub contains-collect : (xs : List ℕ) (r : ℕ) → m.contains (m.collect xs) r ≡ elem r xs
  pub contains-iter : (b : B) (r : ℕ) → m.contains b r ≡ elem r (m.iter b)
  pub iter-Rising : (b : B) → Rising 0 (m.iter b)
  pub len-iter : (b : B) → m.len b ≡ length (m.iter b)
  pub is_empty-len : (b : B) → m.is_empty b ≡ (m.len b == 0)
