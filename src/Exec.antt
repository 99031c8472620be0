-- ===== src/Exec.antt =====
-- Service methods: they read and write the store and may raise. Each repository call commits on its
-- own, so what was written before a raise stays written, and the state comes back beside the error.
pub mod Keeps
pub mod Moves
pub mod Ensures
use codex_collaboration_coor.Common.{String, Option, none, some, List, [], ◌∷◌}

-- The exceptions that the services and the database raise, with their text.
pub data Error : Type 0 where
  lookup_error value_error conflict_error permission_error : String → Error
  integrity_error bridge_error type_error not_found_error forbidden_error unauthorized_error :
      String → Error

pub data Outcome (A : Type 0) : Type 0 where
  ok : A → Outcome A
  err : Error → Outcome A

abbrev pub Exec : Type 0 → Type 0 → Type 0
Exec S A = S → Outcome A × S

module _ {S A : Type 0} where
  unfoldable pub pure : A → Exec S A
  pure a s = (ok a, s)

  unfoldable pub raise : Error → Exec S A
  raise e s = (err e, s)

  -- A read of the state.
  unfoldable pub gets : (S → A) → Exec S A
  gets f s = (ok (f s), s)

  -- A pure function that may raise.
  unfoldable pub lift : Outcome A → Exec S A
  lift r s = (r, s)

  -- `if x is None: raise ...; return x`
  unfoldable pub some_or_raise : Error → Option A → Exec S A
  unfolding pure raise
  some_or_raise e none = raise e
  some_or_raise e (some a) = pure a

module _ {S A B : Type 0} where
  abbrev carry_on : (A → Exec S B) → Outcome A → Exec S B
  carry_on rest (err x) now = (err x, now)
  carry_on rest (ok a) now = rest a now

  infixl 5 ◌>>=◌ ◌>>◌
  -- Opening this opens the actions above, too.
  unfoldable pub ◌>>=◌ : Exec S A → (A → Exec S B) → Exec S B
  unfolding pure raise gets lift some_or_raise
  ◌>>=◌ first rest before = let (outcome, now) = first before in carry_on rest outcome now

  abbrev pub ◌>>◌ : Exec S A → Exec S B → Exec S B
  first >> rest = first >>= λ _. rest

-- `try: ... except Exception: return fallback`
module _ {A : Type 0} where
  abbrev or_fallback : A → Outcome A → Outcome A
  or_fallback a (ok b) = ok b
  or_fallback a (err e) = ok a

module _ {S A : Type 0} where
  unfoldable pub catch : A → Exec S A → Exec S A
  catch a m s = let (r, s') = m s in (or_fallback a r, s')

-- `[await f(x) for x in xs]`
module _ {S A B : Type 0} where
  unfoldable pub collect : (A → Exec S B) → List A → Exec S (List B)
  unfolding pure
  collect f [] = pure []
  collect f (x ∷ xs) = do b ← f x; bs ← collect f xs; pure (b ∷ bs)
