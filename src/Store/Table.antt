-- ===== src/Store/Table.antt =====
-- A table of the database as its repository uses it: `create`, `get`, `update` and the ordered `list`.
-- A row that fails a CHECK of the table is refused. Ids are drawn from `uuid4` and are taken as
-- distinct, and foreign keys are not modelled.
pub mod Rows
pub mod TextOrder
use codex_collaboration_coor.Common.{
  Bool, true, false, Option, none, some, List, [], ◌∷◌, ◌++◌, String, ◌<>◌, ◌==◌, if◌then◌else◌,
}
use codex_collaboration_coor.Exec.{Exec, Outcome, ok, err, Error, lookup_error, integrity_error}
use codex_collaboration_coor.Store.{World}
use Rows.{find_row, replace_row, has_row}

pub record Table (R : Type 0) : Type 0 where
  pub name : String
  pub key : R → String
  -- the CHECK constraints of the table
  pub admits : R → Bool
  pub rows : World → List R
  pub with_rows : World → List R → World

module _ {R : Type 0} (t : Table R) where
  unfoldable pub create : R → Exec World R
  create r w =
      if t.admits r
      then (ok r, t.with_rows w (t.rows w ++ r ∷ []))
      else (err (integrity_error t.name), w)

  unfoldable pub get : String → Exec World (Option R)
  get id w = (ok (find_row t.key id (t.rows w)), w)

  -- `UPDATE ... WHERE id = :id`, then `if result.rowcount == 0: raise LookupError`
  unfoldable pub update : R → Exec World R
  update r w =
      if has_row t.key (t.key r) (t.rows w)
      then (if t.admits r
          then (ok r, t.with_rows w (replace_row t.key r (t.rows w)))
          else (err (integrity_error t.name), w))
      else (err (lookup_error (t.name <> " not found: " <> t.key r)), w)
