-- ===== src/Store/Table/TextOrder.antt =====
-- The order of texts in which rows are sorted and compared.
use Prim.Native.String.{compare, [], ◌∷◌}
use Prim.Native.String.compare
use text.Mathlib.Text.{is_lt}
use codex_collaboration_coor.Common.{◌≡◌, refl, true, false, String, eq_iff, arith}
use codex_collaboration_coor.Store.Table.Rows.{text_before}

compare_trans :
    (s t u : String)
    → is_lt (compare s t) ≡ true
    → is_lt (compare t u) ≡ true
    → is_lt (compare s u) ≡ true
compare_trans s [] [] h k = h
compare_trans [] [] (e ∷ u) h k = k
compare_trans (c ∷ s) [] (e ∷ u) h k = absurd (cc (rw (compare.cons-nil c s) at h))
compare_trans s (d ∷ t) [] h k = absurd (cc (rw (compare.cons-nil d t) at k))
compare_trans [] (d ∷ t) (e ∷ u) h k = rw (compare.nil-cons e u) refl
compare_trans (c ∷ s) (d ∷ t) (e ∷ u) h k = ground (
  arith,
  compare.cons-cons c d s t,
  compare.cons-cons d e t u,
  compare.cons-cons c e s u,
  compare_trans s t u,
)

compare_irrefl : (s : String) → is_lt (compare s s) ≡ false
compare_irrefl [] = refl
compare_irrefl (c ∷ s) = ground (arith, compare.cons-cons c c s s, compare_irrefl s)

-- Rows ordered by two columns.
module _ {R : Type 0} (a b : R → String) where
  pub text_before_trans :
      (x y z : R)
      → text_before a b x y ≡ true
      → text_before a b y z ≡ true
      → text_before a b x z ≡ true
  text_before_trans x y z h k = ground (
    arith,
    eq_iff (a x) (a y),
    eq_iff (a y) (a z),
    eq_iff (a x) (a z),
    compare_trans (a x) (a y) (a z),
    compare_trans (b x) (b y) (b z),
  )

  pub text_before_irrefl : (x : R) → text_before a b x x ≡ false
  text_before_irrefl x = ground (arith, compare_irrefl (a x), compare_irrefl (b x))
