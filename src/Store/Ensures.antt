-- ===== src/Store/Ensures.antt =====
-- What an update that returns leaves in its table.
use codex_collaboration_coor.Common.{
  String, eq_refl, some, List, true, Bool-cases, inl, inr, ◌≡◌, refl, ◌∙◌,
}
use codex_collaboration_coor.Exec.Ensures.{Ensures}
use codex_collaboration_coor.Store.{World}
use codex_collaboration_coor.Store.Table.{Table, get, update}
use codex_collaboration_coor.Store.Table.Rows.{find_row, has_row, replace_row, find_row-replace_row}
use codex_collaboration_coor.Store.Keeps.{Unseen}

-- The row that a table has under a key.
abbrev pub Has : {R : Type 0} → Table R → R → World → Type 0
Has t r w = find_row t.key (t.key r) (t.rows w) ≡ some r

-- The state reads back the rows that were written.
abbrev pub ReadsBack : {R : Type 0} → Table R → Type 0
ReadsBack {R} t = (w : World) (rs : List R) → t.rows (t.with_rows w rs) ≡ rs

module _ {R : Type 0} (t : Table R) where
  replaced :
      (r : R) (rs : List R)
      → has_row t.key (t.key r) rs ≡ true
      → find_row t.key (t.key r) (replace_row t.key r rs) ≡ some r
  replaced r rs there =
      find_row-replace_row t.key r (t.key r) rs ∙ rw (eq_refl (t.key r), there) refl

  pub Ensures-update :
      {P : World → Type 0} (r : R)
      → ReadsBack t
      → Unseen P t
      → Ensures P (λ saved w. (saved ≡ r) × Has t r w × P w) (update t r)
  unfolding update
  Ensures-update r reads unseen = record {
    at = λ w h a e. elim (Bool-cases (has_row t.key (t.key r) (t.rows w))) [
      | inr gone ↦ absurd (cc (gone, e))
      | inl there ↦ elim (Bool-cases (t.admits r)) [
        | inr refused ↦ absurd (cc (there, refused, e))
        | inl admitted ↦
            rw (there, admitted)
              (
                cc (there, admitted, e),
                rw (reads w (replace_row t.key r (t.rows w))) (replaced r (t.rows w) there),
                unseen.at w (replace_row t.key r (t.rows w)) h,
              )
      ]
    ];
  }

  pub Ensures-get :
      {P : World → Type 0} (id : String)
      → Ensures P (λ o w. (o ≡ find_row t.key id (t.rows w)) × P w) (get t id)
  unfolding get
  Ensures-get id = record { at = λ w h a e. (cc e, h) }
