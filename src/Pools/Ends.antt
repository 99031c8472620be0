-- ===== src/Pools/Ends.antt =====
-- The rounds of the loop of `_select_pool` in app/services/runtime_pool_service.py.
use mathlib.Core.List.{Memᴰ}
use codex_collaboration_coor.Common.{
  ℕ, zero, suc, ◌<◌, String, Bool, false, not, Option, none, some, List, [], ◌∷◌, ◌≡◌, refl, ◌⊎◌,
  inl, inr, Bool-cases, Option-cases, arith, length, one_of, count_of, count_of-le-length, ◌==◌,
  subst,
}
use codex_collaboration_coor.Common.Members.{
  first_some-some, first_some-none, head-none, head-Memᴰ, find_first-Memᴰ, count_of-lt, one_of-head,
}
use codex_collaboration_coor.Exec.{ok, err, lookup_error}
use codex_collaboration_coor.Pools.Select.{
  RuntimePoolDefinition, Selection, pool_with_key, default_pool, first_choice, unless_visited,
  next_choice, accepts, fall_back, one_round, select_loop, starts_with, select_pool,
}

module _ (pools : List RuntimePoolDefinition) where
  unless_visited-some :
      (v : List String) (o : Option RuntimePoolDefinition) {p : RuntimePoolDefinition}
      → unless_visited v o ≡ some p
      → (o ≡ some p) × (one_of p.pool_key v ≡ false)
  unless_visited-some v none h = absurd (cc)
  unless_visited-some v (some q) {p} h = elim (Bool-cases (one_of q.pool_key v)) [
    | inl e ↦ absurd (cc (e, h))
    | inr e ↦
        let same : q ≡ p = cc (e, h) in (cc same, subst (λ z. one_of z.pool_key v ≡ false) same e)
  ]

  pool_with_key-Memᴰ :
      (k : Option String) {p : RuntimePoolDefinition}
      → pool_with_key pools k ≡ some p
      → Memᴰ p pools
  unfolding pool_with_key
  pool_with_key-Memᴰ none h = absurd (cc)
  pool_with_key-Memᴰ (some k) h = (find_first-Memᴰ _ pools h).0

  pub default_pool-Memᴰ : {p : RuntimePoolDefinition} → default_pool pools ≡ some p → Memᴰ p pools
  unfolding default_pool
  default_pool-Memᴰ h = (find_first-Memᴰ _ pools h).0

  -- The pool turned to is one of the catalogue, and not visited.
  pub next_choice-some :
      (v : List String) (s p : RuntimePoolDefinition)
      → next_choice pools v s ≡ some p
      → Memᴰ p pools × (one_of p.pool_key v ≡ false)
  unfolding next_choice
  next_choice-some v s p h = elim (first_some-some _ _ h) [
    | inl e ↦
        let found = unless_visited-some v _ e in
        (pool_with_key-Memᴰ s.fallback_pool_key found.0, found.1)
    | inr e ↦ let found = unless_visited-some v _ e in (default_pool-Memᴰ found.0, found.1)
  ]

  first_choice-none : (preferred : Option String) → first_choice pools preferred ≡ none → pools ≡ []
  unfolding first_choice
  first_choice-none preferred h = head-none pools (first_some-none _ _ (first_some-none _ _ h))

  -- How many pools are not visited.
  abbrev pub unvisited : List String → ℕ
  unvisited v = count_of (λ p. not (one_of p.pool_key v)) pools

  pub unvisited-lt :
      (v : List String) (p : RuntimePoolDefinition)
      → Memᴰ p pools
      → one_of p.pool_key v ≡ false
      → unvisited (p.pool_key ∷ v) < unvisited v
  unvisited-lt v p m fresh =
      count_of-lt _ _ (λ q h. ground (arith, h)) pools m (rw (one_of-head p.pool_key v) refl)
        (rw fresh refl)

  module _ (supports full : RuntimePoolDefinition → Bool) where
    -- What a round that goes on has found.
    pub record Moved (v : List String) (s t : Selection) : Type 0 where
      pub fresh : one_of s.pool.pool_key v ≡ false
      pub refused : accepts supports full s.pool ≡ false
      pub chosen : next_choice pools (s.pool.pool_key ∷ v) s.pool ≡ some t.pool
      pub falls : t ≡ fall_back supports full t.pool

    pub one_round-Moved :
        (v : List String) (s : Selection) {t : Selection}
        → one_round pools supports full v s ≡ some t
        → Moved v s t
    unfolding one_round fall_back
    one_round-Moved v s {t} h = elim (Bool-cases (one_of s.pool.pool_key v)) [
      | inl e ↦ absurd (cc (e, h))
      | inr e ↦ elim (Bool-cases (accepts supports full s.pool)) [
        | inl a ↦ absurd (cc (e, a, h))
        | inr a ↦ elim (Option-cases (next_choice pools (s.pool.pool_key ∷ v) s.pool)) [
          | inl n ↦ absurd (cc (e, a, n, h))
          | inr (p, n) ↦ elim (Bool-cases (p.pool_key == s.pool.pool_key)) [
            | inl k ↦ absurd (cc (e, a, n, k, h))
            | inr k ↦
                let falls : fall_back supports full p ≡ t = cc (e, a, n, k, h) in
                record {
                  fresh = e;
                  refused = a;
                  chosen =
                      subst (λ z. next_choice pools (s.pool.pool_key ∷ v) s.pool ≡ some z.pool)
                        falls n;
                  falls = subst (λ z. z ≡ fall_back supports full z.pool) falls refl;
                }
          ]
        ]
      ]
    ]

    -- Where the loop stops: a pool of the catalogue, with what holds of it and of the visited ones.
    pub record Stopped (P : List String → Selection → Type 0) (r : Option Selection) : Type 0 where
      pub visited : List String
      pub selection : Selection
      pub result : r ≡ some selection
      pub listed : Memᴰ selection.pool pools
      pub breaks : one_round pools supports full visited selection ≡ none
      pub holds : P visited selection

    -- With more fuel than pools are left to visit the loop breaks, and keeps what its rounds keep.
    pub select_loop-Stopped :
        (P : List String → Selection → Type 0)
        → ((v : List String) (s t : Selection)
            → Memᴰ s.pool pools
            → Moved v s t
            → P v s
            → P (s.pool.pool_key ∷ v) t)
        → (fuel : ℕ) (v : List String) (s : Selection) → unvisited v < fuel
        → Memᴰ s.pool pools
        → P v s
        → Stopped P (select_loop pools supports full fuel v s)
    unfolding select_loop
    select_loop-Stopped P keep zero v s enough m h = absurd (omega arith)
    select_loop-Stopped P keep (suc fuel) v s enough m h =
        elim (Option-cases (one_round pools supports full v s)) [
          | inl e ↦ record {
            visited = v;
            selection = s;
            result = rw (e, select_loop) refl;
            listed = m;
            breaks = e;
            holds = h;
          }
          | inr (t, e) ↦
              let moved = one_round-Moved v s e in
              let fewer = unvisited-lt v s.pool m moved.fresh in
              let listed = (next_choice-some _ s.pool t.pool moved.chosen).0 in
              rw (e, select_loop)
                (select_loop-Stopped P keep fuel (s.pool.pool_key ∷ v) t (omega arith) listed
                  (keep v s t m moved h))
        ]

    first_choice-Memᴰ :
        (preferred : Option String) {p : RuntimePoolDefinition}
        → first_choice pools preferred ≡ some p
        → Memᴰ p pools
    unfolding first_choice
    first_choice-Memᴰ preferred h = elim (first_some-some _ _ h) [
      | inl e ↦ pool_with_key-Memᴰ preferred e
      | inr e ↦ elim (first_some-some _ _ e) [
        | inl d ↦ default_pool-Memᴰ d
        | inr f ↦ head-Memᴰ pools f
      ]
    ]

    -- `_select_pool` stops the loop on the fuel that it is given, or finds no pool at all.
    pub select_pool-Stopped :
        (P : List String → Selection → Type 0)
        → ((v : List String) (s t : Selection)
            → Memᴰ s.pool pools
            → Moved v s t
            → P v s
            → P (s.pool.pool_key ∷ v) t)
        → (preferred : Option String)
        → ((p : RuntimePoolDefinition)
            → first_choice pools preferred ≡ some p
            → P [] (starts_with p))
        → ((pools ≡ [])
            × (select_pool pools supports full preferred
                ≡ err (lookup_error "No runtime pools available.")))
          ⊎ ((o : Option Selection) × (select_pool pools supports full preferred ≡ ok o)
              × Stopped P o)
    unfolding select_pool
    select_pool-Stopped P keep preferred start =
        elim (Option-cases (first_choice pools preferred)) [
          | inl e ↦ inl (first_choice-none preferred e, rw (e, select_pool) refl)
          | inr (p, e) ↦
              let few = count_of-le-length (λ q. not (one_of q.pool_key [])) pools in
              inr (
                select_loop pools supports full (suc (length pools)) [] (starts_with p),
                rw (e, select_pool) refl,
                select_loop-Stopped P keep (suc (length pools)) [] (starts_with p) (omega arith)
                    (first_choice-Memᴰ preferred e) (start p e),
              )
        ]
