-- ===== src/Store/Table/Rows.antt =====
-- Rows found and replaced by their key, and rows in the order of a query.
use Prim.Native.String.{compare}
use text.Mathlib.Text.{is_lt}
use codex_collaboration_coor.Common.{
  ◌≡◌, refl, Bool, true, false, Option, none, some, List, [], ◌∷◌, String, ◌==◌, eq_iff,
  if◌then◌else◌, arith, count_of, any_of, all_of, ◌&&◌,
}

module _ {R : Type 0} (key : R → String) where
  -- `SELECT * FROM t WHERE id = ?`
  unfoldable pub find_row : String → List R → Option R
  find_row id [] = none
  find_row id (r ∷ rs) = if key r == id then some r else find_row id rs

  unfoldable pub has_row : String → List R → Bool
  has_row id [] = false
  has_row id (r ∷ rs) = if key r == id then true else has_row id rs

  -- `UPDATE t SET ... WHERE id = :id`
  unfoldable pub replace_row : R → List R → List R
  replace_row r [] = []
  replace_row r (x ∷ xs) = (if key x == key r then r else x) ∷ replace_row r xs

  pub has_row-find_row :
      (id : String) (rs : List R) {r : R} → find_row id rs ≡ some r → has_row id rs ≡ true
  unfolding find_row has_row
  has_row-find_row id [] h = ground arith
  has_row-find_row id (x ∷ rs) {r} h = ground (arith, has_row-find_row id rs {r = r})

  pub key-find_row : (id : String) (rs : List R) {r : R} → find_row id rs ≡ some r → key r ≡ id
  unfolding find_row
  key-find_row id [] h = ground arith
  key-find_row id (x ∷ rs) {r} h = ground (arith, eq_iff (key x) id, key-find_row id rs {r = r})

  -- A replaced row is found under its key, and every other key finds what it found.
  pub find_row-replace_row :
      (r : R) (id : String) (rs : List R)
      → find_row id (replace_row r rs)
        ≡ (if key r == id && has_row id rs then some r else find_row id rs)
  unfolding find_row replace_row has_row
  find_row-replace_row r id [] = ground arith
  find_row-replace_row r id (x ∷ rs) = ground (
    arith,
    eq_iff (key x) (key r),
    eq_iff (key x) id,
    eq_iff (key r) id,
    find_row-replace_row r id rs,
  )

  -- A test that every row passes, and the row that is written.
  pub all_of-replace_row :
      (p : R → Bool) (r : R) (rs : List R)
      → p r ≡ true
      → all_of p rs ≡ true
      → all_of p (replace_row r rs) ≡ true
  unfolding replace_row
  all_of-replace_row p r [] h e = refl
  all_of-replace_row p r (x ∷ xs) h e = ground (arith, all_of-replace_row p r xs)

-- A row placed before the first one that it precedes, and the rows in order. Rows that neither
-- precedes stay as they were.
module _ {R : Type 0} (before : R → R → Bool) where
  unfoldable pub place : R → List R → List R
  place r [] = r ∷ []
  place r (x ∷ xs) = let rest = place r xs in if before x r then x ∷ rest else r ∷ x ∷ xs

  unfoldable pub order_by : List R → List R
  unfolding place
  order_by [] = []
  order_by (x ∷ xs) = place x (order_by xs)

  count_of-place :
      (p : R → Bool) (r : R) (xs : List R) → count_of p (place r xs) ≡ count_of p (r ∷ xs)
  unfolding place
  count_of-place p r [] = refl
  count_of-place p r (x ∷ xs) = ground (arith, count_of-place p r xs)

  -- The order of a query changes no count.
  pub count_of-order_by : (p : R → Bool) (xs : List R) → count_of p (order_by xs) ≡ count_of p xs
  unfolding order_by
  count_of-order_by p [] = refl
  count_of-order_by p (x ∷ xs) =
      ground (arith, count_of-place p x (order_by xs), count_of-order_by p xs)

  any_of-place : (p : R → Bool) (r : R) (xs : List R) → any_of p (place r xs) ≡ any_of p (r ∷ xs)
  unfolding place
  any_of-place p r [] = refl
  any_of-place p r (x ∷ xs) = ground (arith, any_of-place p r xs)

  pub any_of-order_by : (p : R → Bool) (xs : List R) → any_of p (order_by xs) ≡ any_of p xs
  unfolding order_by
  any_of-order_by p [] = refl
  any_of-order_by p (x ∷ xs) = ground (arith, any_of-place p x (order_by xs), any_of-order_by p xs)

-- `ORDER BY a, b` for two text columns.
module _ {R : Type 0} (a b : R → String) where
  abbrev pub text_before : R → R → Bool
  text_before x y =
      if is_lt (compare (a x) (a y)) then true else (a x == a y) && is_lt (compare (b x) (b y))
