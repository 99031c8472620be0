-- ===== src/Exec/Moves.antt =====
-- Actions that lead from one condition on the state to another, and what an action can return.
use codex_collaboration_coor.Common.{◌≡◌, refl, subst}
use codex_collaboration_coor.Exec.{Outcome, ok, err, Exec, ◌>>=◌, pure, lift}
use codex_collaboration_coor.Exec.Keeps.{Keeps, Keeps-bind, Keeps-lift}

-- From `P` the action ends in `Q`, whether it returns or raises.
pub record Moves {S A : Type 0} (P Q : S → Type 0) (m : Exec S A) : Type 0 where
  pub at : (s : S) → P s → Q (m s).1

-- Whatever the action returns satisfies `Q`.
pub record Returns {S A : Type 0} (Q : A → Type 0) (m : Exec S A) : Type 0 where
  pub at : (s : S) (a : A) → (m s).0 ≡ ok a → Q a

module _ {S A B : Type 0} {P Q : S → Type 0} where
  carry :
      (r : Outcome A) (f : A → Exec S B) (s : S)
      → ((a : A) → Moves P Q (f a))
      → ((t : S) → P t → Q t)
      → P s
      → Q ((lift r >>= f) s).1
  unfolding ◌>>=◌
  carry (ok a) f s mf weaken h = (mf a).at s h
  carry (err e) f s mf weaken h = weaken s h

  -- The first part keeps `P`, and the rest goes on to `Q`.
  pub Moves-bind :
      (m : Exec S A) (f : A → Exec S B)
      → ((t : S) → P t → Q t)
      → Keeps P m
      → ((a : A) → Moves P Q (f a))
      → Moves P Q (m >>= f)
  unfolding ◌>>=◌
  Moves-bind m f weaken km mf = record {
    at = λ s h. let (r, s') = m s in carry r f s' mf weaken (km.at s h);
  }

  -- The first part goes to `Q`, and the rest keeps it.
  pub Moves-then :
      (m : Exec S A) (f : A → Exec S B)
      → Moves P Q m
      → ((a : A) → Keeps Q (f a))
      → Moves P Q (m >>= f)
  unfolding ◌>>=◌
  Moves-then m f mm kf = record {
    at = λ s h. let (r, s') = m s in (Keeps-bind (lift r) f (Keeps-lift r) kf).at s' (mm.at s h);
  }

module _ {S A B : Type 0} {Q : B → Type 0} where
  returned :
      (r : Outcome A) (f : A → Exec S B) (s : S) (b : B)
      → ((a : A) → Returns Q (f a))
      → ((lift r >>= f) s).0 ≡ ok b
      → Q b
  unfolding ◌>>=◌
  returned (ok a) f s b rf e = (rf a).at s b e
  returned (err x) f s b rf e = absurd (cc)

  pub Returns-bind :
      (m : Exec S A) (f : A → Exec S B) → ((a : A) → Returns Q (f a)) → Returns Q (m >>= f)
  unfolding ◌>>=◌
  Returns-bind m f rf = record { at = λ s b e. let (r, s') = m s in returned r f s' b rf e }

module _ {S A : Type 0} (Q : A → Type 0) where
  pub Returns-pure : (a : A) → Q a → Returns {S = S} Q (pure a)
  unfolding pure
  Returns-pure a q = record { at = λ s b e. subst Q (cc e) q }

-- An action that never returns makes what starts with it never return.
module _ {S A B : Type 0} (Q : B → Type 0) where
  stuck :
      (r : Outcome A) (f : A → Exec S B) (s : S) (b : B)
      → ((a : A) → r ≡ ok a → ⊥)
      → ((lift r >>= f) s).0 ≡ ok b
      → Q b
  unfolding ◌>>=◌
  stuck (ok a) f s b never e = absurd (never a refl)
  stuck (err x) f s b never e = absurd (cc)

  pub Returns-bind_never :
      (m : Exec S A) (f : A → Exec S B) → Returns (λ _. ⊥) m → Returns Q (m >>= f)
  unfolding ◌>>=◌
  Returns-bind_never m f never = record {
    at = λ s b e. let (r, s') = m s in stuck r f s' b (never.at s) e;
  }
