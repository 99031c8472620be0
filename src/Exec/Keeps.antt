-- ===== src/Exec/Keeps.antt =====
-- What holds of the state whatever an action does: one rule for each way to build an action.
use codex_collaboration_coor.Common.{
  Option, none, some, List, [], ◌∷◌, ◌≡◌, refl, sym, subst, Bool, true, false, if◌then◌else◌,
}
use codex_collaboration_coor.Exec.{
  Error, Outcome, ok, err, Exec, pure, raise, gets, lift, some_or_raise, ◌>>=◌, catch, collect,
}

-- An invariant of the state that no run of the action breaks, with a result or with an error.
pub record Keeps {State Value : Type 0} (Inv : State → Type 0) (act : Exec State Value)
    : Type 0 where
  pub at : (before : State) → Inv before → Inv (act before).1

-- First the sequence: an error ends it, a result goes on to the rest.
module _ {State Value Next : Type 0} {Inv : State → Type 0} where
  after_outcome :
      (outcome : Outcome Value) (rest : Value → Exec State Next) (now : State)
      → Inv now
      → ((v : Value) → Keeps Inv (rest v))
      → Inv ((lift outcome >>= rest) now).1
  unfolding ◌>>=◌
  after_outcome (err x) rest now holds each = holds
  after_outcome (ok v) rest now holds each = (each v).at now holds

  pub Keeps-bind :
      (first : Exec State Value) (rest : Value → Exec State Next)
      → Keeps Inv first
      → ((v : Value) → Keeps Inv (rest v))
      → Keeps Inv (first >>= rest)
  unfolding ◌>>=◌
  Keeps-bind first rest kept each = record {
    at = λ before holds.
        let (outcome, now) = first before in
        after_outcome outcome rest now (kept.at before holds) each;
  }

module _ {State Value : Type 0} {Inv : State → Type 0} where
  -- An action that only reads.
  pub Keeps-still :
      (act : Exec State Value) → ((before : State) → (act before).1 ≡ before) → Keeps Inv act
  Keeps-still act still = record { at = λ before holds. subst Inv (sym (still before)) holds }

  pub Keeps-lift : (outcome : Outcome Value) → Keeps Inv (lift outcome)
  unfolding lift
  Keeps-lift outcome = Keeps-still _ (λ before. refl)

  pub Keeps-gets : (read : State → Value) → Keeps Inv (gets read)
  unfolding gets
  Keeps-gets read = Keeps-still _ (λ before. refl)

  pub Keeps-pure : (v : Value) → Keeps Inv (pure v)
  unfolding pure
  Keeps-pure v = Keeps-still _ (λ before. refl)

  pub Keeps-raise : (x : Error) → Keeps Inv (raise {A = Value} x)
  unfolding raise
  Keeps-raise x = Keeps-still _ (λ before. refl)

  pub Keeps-some_or_raise : (x : Error) (found : Option Value) → Keeps Inv (some_or_raise x found)
  unfolding some_or_raise
  Keeps-some_or_raise x (some v) = Keeps-still _ (λ before. refl)
  Keeps-some_or_raise x none = Keeps-still _ (λ before. refl)

  pub Keeps-catch :
      (fallback : Value) (act : Exec State Value) → Keeps Inv act → Keeps Inv (catch fallback act)
  unfolding catch
  Keeps-catch fallback act kept = record { at = kept.at }

  -- Either branch may use the test's outcome.
  pub Keeps-if :
      (test : Bool) (yes_act no_act : Exec State Value)
      → (test ≡ true → Keeps Inv yes_act)
      → (test ≡ false → Keeps Inv no_act)
      → Keeps Inv (if test then yes_act else no_act)
  Keeps-if false yes_act no_act on_yes on_no = on_no refl
  Keeps-if true yes_act no_act on_yes on_no = on_yes refl

pub ruleset keeps_rules = (
  Keeps-bind, Keeps-if, Keeps-pure, Keeps-gets, Keeps-lift, Keeps-some_or_raise, Keeps-raise,
  Keeps-catch,
)

-- Two actions, one after the other, with their results combined.
module _ {S A B C : Type 0} {P : S → Type 0} where
  pub Keeps-both :
      (m : Exec S A) (n : Exec S B) (g : A → B → C)
      → Keeps P m
      → Keeps P n
      → Keeps P (m >>= λ a. n >>= λ b. pure (g a b))
  Keeps-both m n g km kn =
      Keeps-bind m _ km (λ a. Keeps-bind n (λ b. pure (g a b)) kn (λ b. Keeps-pure (g a b)))

module _ {S A B : Type 0} {P : S → Type 0} where
  pub Keeps-collect :
      (f : A → Exec S B) (xs : List A) → ((a : A) → Keeps P (f a)) → Keeps P (collect f xs)
  unfolding collect
  Keeps-collect f [] kf = Keeps-pure []
  Keeps-collect f (x ∷ xs) kf = Keeps-both (f x) (collect f xs) ◌∷◌ (kf x) (Keeps-collect f xs kf)
