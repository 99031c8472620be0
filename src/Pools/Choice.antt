-- ===== src/Pools/Choice.antt =====
-- Which pool `_select_pool` of app/services/runtime_pool_service.py settles for.
use mathlib.Core.List.{Memᴰ}
use codex_collaboration_coor.Common.{
  String, Bool, true, false, Option, none, some, List, [], ◌∷◌, ◌≡◌, refl, ◌⊎◌, inl, inr,
  Bool-cases, Option-cases, one_of, eq_iff, ◌==◌, arith, subst, sym,
}
use codex_collaboration_coor.Common.Members.{first_some-none}
use codex_collaboration_coor.Exec.{ok, err, lookup_error}
use codex_collaboration_coor.Pools.Select.{
  RuntimePoolDefinition, Selection, default_pool, unless_visited, next_choice, accepts, one_round,
  select_pool,
}
use codex_collaboration_coor.Pools.Ends.{
  Moved, default_pool-Memᴰ, next_choice-some, select_pool-Stopped,
}

-- The key of a pool names it.
abbrev pub HasKeys : List RuntimePoolDefinition → Type 0
HasKeys pools =
    (p q : RuntimePoolDefinition) → Memᴰ p pools → Memᴰ q pools → p.pool_key ≡ q.pool_key → p ≡ q

unless_visited-none :
    (v : List String) (d : RuntimePoolDefinition)
    → unless_visited v (some d) ≡ none
    → one_of d.pool_key v ≡ true
unless_visited-none v d h = ground arith

module _ (pools : List RuntimePoolDefinition) (supports full : RuntimePoolDefinition → Bool) where
  -- The loop over the fallbacks always ends within one round more than there are pools: without any
  -- pool `_select_pool` raises its `LookupError`, and with one it returns a pool of the catalogue.
  pub select_pool-Memᴰ :
      (preferred : Option String)
      → ((pools ≡ [])
          × (select_pool pools supports full preferred
              ≡ err (lookup_error "No runtime pools available.")))
        ⊎ ((s : Selection) × (select_pool pools supports full preferred ≡ ok (some s))
            × Memᴰ s.pool pools)
  select_pool-Memᴰ preferred =
      elim (select_pool-Stopped pools supports full (λ v s. s ≡ s) (λ v s t m d e. refl) preferred
        (λ p e. refl)) [
          | inl h ↦ inl h
          | inr (o, e, stop) ↦ inr (stop.selection, rw (← stop.result) e, stop.listed)
        ]

  -- Every pool with a visited key was refused, and the pool at hand is not visited.
  record Refused (v : List String) (s : Selection) : Type 0 where
    past :
        (q : RuntimePoolDefinition)
        → Memᴰ q pools
        → one_of q.pool_key v ≡ true
        → accepts supports full q ≡ false
    fresh : one_of s.pool.pool_key v ≡ false

  module _ (keys : HasKeys pools) where
    past-now :
        (v : List String) (s : Selection)
        → Memᴰ s.pool pools
        → accepts supports full s.pool ≡ false
        → Refused v s
        → (q : RuntimePoolDefinition) → Memᴰ q pools
        → one_of q.pool_key (s.pool.pool_key ∷ v) ≡ true
        → accepts supports full q ≡ false
    past-now v s m refused h q n e = elim (Bool-cases (q.pool_key == s.pool.pool_key)) [
      | inl k ↦
          let same = keys s.pool q m n (sym ((eq_iff _ _).0 k)) in
          subst (λ z. accepts supports full z ≡ false) same refused
      | inr k ↦ h.past q n (rw k at e)
    ]

    Refused-Moved :
        (v : List String) (s t : Selection)
        → Memᴰ s.pool pools
        → Moved pools supports full v s t
        → Refused v s
        → Refused (s.pool.pool_key ∷ v) t
    Refused-Moved v s t m moved h = record {
      past = past-now v s m moved.refused h;
      fresh = (next_choice-some pools _ s.pool t.pool moved.chosen).1;
    }

    next_choice-none :
        (v : List String) (s d : RuntimePoolDefinition)
        → next_choice pools v s ≡ none
        → default_pool pools ≡ some d
        → one_of d.pool_key v ≡ true
    unfolding next_choice
    next_choice-none v s d h is_d =
        let none_left : unless_visited v (default_pool pools) ≡ none = first_some-none _ _ h in
        unless_visited-none v d (rw is_d at none_left)

    breaks-accepts :
        (v : List String) (s : Selection) (d : RuntimePoolDefinition)
        → Memᴰ s.pool pools
        → Memᴰ d pools
        → default_pool pools ≡ some d
        → accepts supports full d ≡ true
        → Refused v s
        → one_round pools supports full v s ≡ none
        → accepts supports full s.pool ≡ true
    unfolding one_round
    breaks-accepts v s d m n is_d takes h e = elim (Bool-cases (accepts supports full s.pool)) [
      | inl a ↦ a
      | inr a ↦ elim (Option-cases (next_choice pools (s.pool.pool_key ∷ v) s.pool)) [
        | inl none_left ↦
            let seen = next_choice-none (s.pool.pool_key ∷ v) s.pool d none_left is_d in
            absurd (cc (past-now v s m a h d n seen, takes))
        | inr (p, c) ↦
            let new = (next_choice-some pools _ s.pool p c).1 in
            let other : (p.pool_key == s.pool.pool_key) ≡ false = ground (arith, new) in
            absurd (cc (h.fresh, a, c, other, e))
      ]
    ]

    -- If the key of a pool names it and the default pool takes the job, then the pool that
    -- `_select_pool` returns takes it, too, whichever pool is preferred: one that is full or lacks a
    -- capability is left as long as the default pool is neither.
    pub select_pool-accepts :
        (preferred : Option String) (d : RuntimePoolDefinition) (s : Selection)
        → default_pool pools ≡ some d
        → accepts supports full d ≡ true
        → select_pool pools supports full preferred ≡ ok (some s)
        → accepts supports full s.pool ≡ true
    select_pool-accepts preferred d s is_d takes e =
        let n = default_pool-Memᴰ pools is_d in
        elim (select_pool-Stopped pools supports full Refused Refused-Moved preferred
          (λ p f. record { past = λ q m h. absurd (cc h); fresh = refl })) [
            | inl h ↦ absurd (cc (h.1, e))
            | inr (o, f, stop) ↦
                let same : stop.selection ≡ s = cc (stop.result, e, f) in
                subst (λ z. accepts supports full z.pool ≡ true) same
                  (breaks-accepts stop.visited stop.selection d stop.listed n is_d takes stop.holds
                    stop.breaks)
          ]
