-- ===== src/Exec/Ensures.antt =====
-- What an action that returns leaves behind: from `P`, its result and the state after it satisfy `Q`.
use codex_collaboration_coor.Common.{
  ◌≡◌, refl, subst, Option, none, some, Bool, true, false, if◌then◌else◌,
}
use codex_collaboration_coor.Exec.{
  Error, Outcome, ok, err, Exec, ◌>>=◌, pure, raise, lift, some_or_raise,
}
use codex_collaboration_coor.Exec.Keeps.{Keeps}

pub record Ensures {S A : Type 0} (P : S → Type 0) (Q : A → S → Type 0) (m : Exec S A)
    : Type 0 where
  pub at : (s : S) → P s → (a : A) → (m s).0 ≡ ok a → Q a (m s).1

module _ {S A : Type 0} {P : S → Type 0} {Q : A → S → Type 0} where
  pub Ensures-pure : (a : A) → ((s : S) → P s → Q a s) → Ensures P Q (pure a)
  unfolding pure
  Ensures-pure a q = record { at = λ s h b e. subst (λ x. Q x s) (cc e) (q s h) }

  pub Ensures-raise : (e : Error) → Ensures P Q (raise e)
  unfolding raise
  Ensures-raise x = record { at = λ s h b e. absurd (cc e) }

  pub Ensures-some :
      (e : Error) (o : Option A)
      → ((a : A) → o ≡ some a → (s : S) → P s → Q a s)
      → Ensures P Q (some_or_raise e o)
  unfolding some_or_raise pure raise
  Ensures-some x none q = record { at = λ s h b e. absurd (cc e) }
  Ensures-some x (some a) q = record { at = λ s h b e. subst (λ y. Q y s) (cc e) (q a refl s h) }

  pub Ensures-if :
      (b : Bool) (m n : Exec S A)
      → (b ≡ true → Ensures P Q m)
      → (b ≡ false → Ensures P Q n)
      → Ensures P Q (if b then m else n)
  Ensures-if true m n em en = em refl
  Ensures-if false m n em en = en refl

-- Nothing asked.
module _ {S A : Type 0} {P : S → Type 0} where
  pub Ensures-any : (m : Exec S A) → Ensures P (λ _ _. Unit {0}) m
  Ensures-any m = record { at = λ s h a e. tt }

-- What an action keeps, it ensures.
module _ {S A : Type 0} {P : S → Type 0} where
  pub Ensures-kept : (m : Exec S A) → Keeps P m → Ensures P (λ _ s. P s) m
  Ensures-kept m k = record { at = λ s h a e. k.at s h }

module _ {S A B : Type 0} {Q : B → S → Type 0} (R : A → S → Type 0) where
  carry :
      (r : Outcome A) (f : A → Exec S B) (s : S)
      → ((a : A) → Ensures (R a) Q (f a))
      → ((a : A) → r ≡ ok a → R a s)
      → (b : B) → ((lift r >>= f) s).0 ≡ ok b
      → Q b ((lift r >>= f) s).1
  unfolding ◌>>=◌
  carry (ok a) f s ef h b e = (ef a).at s (h a refl) b e
  carry (err x) f s ef h b e = absurd (cc e)

  pub Ensures-bind :
      {P : S → Type 0} (m : Exec S A) (f : A → Exec S B)
      → Ensures P R m
      → ((a : A) → Ensures (R a) Q (f a))
      → Ensures P Q (m >>= f)
  unfolding ◌>>=◌
  Ensures-bind m f em ef = record {
    at = λ s h b e. let (r, s') = m s in carry r f s' ef (λ a q. em.at s h a q) b e;
  }

-- Both at once: what the first part returns is known to the second.
module _ {S A B : Type 0} {P : S → Type 0} (R : A → Type 0) where
  known :
      (r : Outcome A) (f : A → Exec S B) (s : S)
      → ((a : A) → R a → Keeps P (f a))
      → P s
      → ((a : A) → r ≡ ok a → R a)
      → P ((lift r >>= f) s).1
  unfolding ◌>>=◌
  known (ok a) f s kf h q = (kf a (q a refl)).at s h
  known (err x) f s kf h q = h

  pub Keeps-bind_known :
      (m : Exec S A) (f : A → Exec S B)
      → Keeps P m
      → Ensures P (λ a s. R a) m
      → ((a : A) → R a → Keeps P (f a))
      → Keeps P (m >>= f)
  unfolding ◌>>=◌
  Keeps-bind_known m f km em kf = record {
    at = λ s h. let (r, s') = m s in known r f s' kf (km.at s h) (λ a e. em.at s h a e);
  }
