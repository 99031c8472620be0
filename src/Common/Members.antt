-- ===== src/Common/Members.antt =====
-- The elements that a search finds, and counts of the elements of a list.
use mathlib.Core.List.{Memᴰ}
use codex_collaboration_coor.Common.{
  ◌<◌, ◌≤◌, String, eq_refl, Bool, true, false, Option, none, some, List, [], ◌∷◌, ◌≡◌, refl, subst,
  sym, arith, find_first, count_of, any_of, all_of, one_of, Bool-cases, inl, inr, first_some, head,
  ◌⊎◌,
}

module _ {A : Type 0} where
  pub first_some-some :
      (o q : Option A) {x : A} → first_some o q ≡ some x → (o ≡ some x) ⊎ (q ≡ some x)
  first_some-some none q h = inr h
  first_some-some (some a) q h = inl h

  pub first_some-none : (o q : Option A) → first_some o q ≡ none → q ≡ none
  first_some-none none q h = h
  first_some-none (some a) q h = absurd (cc)

  pub head-none : (xs : List A) → head xs ≡ none → xs ≡ []
  head-none [] h = refl
  head-none (x ∷ xs) h = absurd (cc)

  pub head-Memᴰ : (xs : List A) {x : A} → head xs ≡ some x → Memᴰ x xs
  head-Memᴰ [] h = absurd (cc)
  head-Memᴰ (y ∷ xs) h = Memᴰ.head (cc h)

  pub find_first-Memᴰ :
      (p : A → Bool) (xs : List A) {x : A} → find_first p xs ≡ some x → Memᴰ x xs × (p x ≡ true)
  find_first-Memᴰ p [] h = absurd (cc)
  find_first-Memᴰ p (y ∷ ys) {x} h = elim (Bool-cases (p y)) [
    | inl e ↦ let same : y ≡ x = cc (e, h) in (Memᴰ.head (sym same), subst (λ z. p z ≡ true) same e)
    | inr e ↦ let rest = find_first-Memᴰ p ys (rw e at h) in (Memᴰ.tail rest.0, rest.1)
  ]

  -- The search fails only where no element passes.
  pub find_first-none :
      (p : A → Bool) (xs : List A) {x : A} → find_first p xs ≡ none → Memᴰ x xs → p x ≡ false
  find_first-none p [] h m = elim m [ ]
  find_first-none p (y ∷ ys) {x} h (Memᴰ.head e) = elim (Bool-cases (p y)) [
    | inl t ↦ absurd (cc (t, h))
    | inr f ↦ subst (λ z. p z ≡ false) (sym e) f
  ]
  find_first-none p (y ∷ ys) {x} h (Memᴰ.tail m) = elim (Bool-cases (p y)) [
    | inl t ↦ absurd (cc (t, h))
    | inr f ↦ find_first-none p ys (rw f at h) m
  ]

  pub find_first-any_of :
      (p : A → Bool) (xs : List A) → any_of p xs ≡ true → (x : A) × (find_first p xs ≡ some x)
  find_first-any_of p [] h = absurd (cc)
  find_first-any_of p (x ∷ xs) h = elim (Bool-cases (p x)) [
    | inl e ↦ (x, rw e refl)
    | inr e ↦ let rest = find_first-any_of p xs (rw e at h) in (rest.0, rw e rest.1)
  ]

  pub all_of-find_first :
      (p q : A → Bool) (xs : List A) (x : A)
      → all_of q xs ≡ true
      → find_first p xs ≡ some x
      → q x ≡ true
  all_of-find_first p q [] x h e = absurd (cc)
  all_of-find_first p q (y ∷ ys) x h e = elim (Bool-cases (p y)) [
    | inl t ↦ let same : y ≡ x = cc (t, e) in subst (λ z. q z ≡ true) same (ground (arith, h))
    | inr f ↦ all_of-find_first p q ys x (ground (arith, h)) (rw f at e)
  ]

  module _ (p q : A → Bool) (weaker : (x : A) → p x ≡ true → q x ≡ true) where
    pub count_of-le : (xs : List A) → count_of p xs ≤ count_of q xs
    count_of-le [] = omega arith
    count_of-le (x ∷ xs) = ground (arith, weaker x, count_of-le xs)

    -- A test that an element passes and the narrower one does not counts more.
    pub count_of-lt :
        (xs : List A) {x : A} → Memᴰ x xs → p x ≡ false → q x ≡ true → count_of p xs < count_of q xs
    count_of-lt [] m no_p yes_q = elim m [ ]
    count_of-lt (y ∷ ys) {x} (Memᴰ.head e) no_p yes_q =
        let no_p' = subst (λ z. p z ≡ false) e no_p in
        let yes_q' = subst (λ z. q z ≡ true) e yes_q in
        ground (arith, count_of-le ys, no_p', yes_q')
    count_of-lt (y ∷ ys) {x} (Memᴰ.tail m) no_p yes_q =
        ground (arith, weaker y, count_of-lt ys m no_p yes_q)

pub one_of-head : (k : String) (ks : List String) → one_of k (k ∷ ks) ≡ true
one_of-head k ks = rw (eq_refl k) refl
