-- ===== src/Runtimes/Laws.antt =====
-- The latest runtime of an agent, in app/services/runtime_service.py.
use codex_collaboration_coor.Common.{
  String, ◌==◌, Bool, true, Bool-cases, inl, inr, Option, none, some, List, [], ◌∷◌, ◌≡◌, refl, ◌∙◌,
  select, all_of, ap, leb, leb→le, length, length-select, is_none, arith, count_of, any_of, sym,
  ◌⊎◌, ◌&&◌, subst, Option-cases, any_of-select, false,
}
use codex_collaboration_coor.Exec.{ok, ◌>>=◌}
use codex_collaboration_coor.Store.{World}
use codex_collaboration_coor.Store.Records.{AgentRuntimeRecord}
use codex_collaboration_coor.Store.Repositories.{list_runtimes}
use codex_collaboration_coor.Store.Table.Rows.{
  order_by, text_before, count_of-order_by, any_of-order_by,
}
use codex_collaboration_coor.Store.Table.TextOrder.{text_before_trans, text_before_irrefl}
use codex_collaboration_coor.Runtimes.{older, latest, latest_from, get_latest_runtime_for_agent}

module _ (p : AgentRuntimeRecord → Bool) where
  all_of-select : (rs : List AgentRuntimeRecord) → all_of p (select p rs) ≡ true
  all_of-select [] = refl
  all_of-select (r ∷ rs) = elim (Bool-cases (p r)) [
    | inl e ↦ rw (e, e) (all_of-select rs)
    | inr e ↦ rw e (all_of-select rs)
  ]

  all_of-cons :
      (r : AgentRuntimeRecord) (rs : List AgentRuntimeRecord)
      → all_of p (r ∷ rs) ≡ true
      → (p r ≡ true) × (all_of p rs ≡ true)
  all_of-cons r rs all = elim (Bool-cases (p r)) [
    | inl e ↦ (e, rw e at all)
    | inr e ↦ absurd (cc (rw e at all))
  ]

  latest_from-all :
      (best : AgentRuntimeRecord) (rs : List AgentRuntimeRecord)
      → p best ≡ true
      → all_of p rs ≡ true
      → p (latest_from best rs) ≡ true
  unfolding latest_from
  latest_from-all best [] h all = h
  latest_from-all best (r ∷ rs) h all =
      let (of_r, of_rs) = all_of-cons r rs all in
      elim (Bool-cases (older best r)) [
        | inl e ↦ rw e (latest_from-all r rs of_r of_rs)
        | inr e ↦ rw e (latest_from-all best rs h of_rs)
      ]

  -- Every runtime in it passes the test.
  abbrev pub passes : Option AgentRuntimeRecord → Bool
  passes none = true
  passes (some r) = p r

  latest-passes : (rs : List AgentRuntimeRecord) → all_of p rs ≡ true → passes (latest rs) ≡ true
  unfolding latest
  latest-passes [] all = refl
  latest-passes (r ∷ rs) all =
      let (of_r, of_rs) = all_of-cons r rs all in latest_from-all r rs of_r of_rs

is_none-latest : (rs : List AgentRuntimeRecord) → is_none (latest rs) ≡ leb (length rs) 0
unfolding latest
is_none-latest [] = refl
is_none-latest (r ∷ rs) = ground (arith, leb→le (length (r ∷ rs)) 0)

abbrev pub belongs_to : String → AgentRuntimeRecord → Bool
belongs_to agent_id r = r.agent_id == agent_id

-- Where a search for the latest runtime gets to from one of them: to that one or to a later one.
abbrev IsPast : AgentRuntimeRecord → AgentRuntimeRecord → Type 0
IsPast best m = (m ≡ best) ⊎ (older best m ≡ true)

latest_from-later :
    (best r : AgentRuntimeRecord) (rs : List AgentRuntimeRecord)
    → older best r ≡ true
    → latest_from r rs ≡ latest_from best (r ∷ rs)
unfolding latest_from
latest_from-later best r rs e = rw e refl

latest_from-kept :
    (best r : AgentRuntimeRecord) (rs : List AgentRuntimeRecord)
    → older best r ≡ false
    → latest_from best rs ≡ latest_from best (r ∷ rs)
unfolding latest_from
latest_from-kept best r rs e = rw e refl

IsPast-trans : (x y z : AgentRuntimeRecord) → older x y ≡ true → IsPast y z → IsPast x z
IsPast-trans x y z e (inl same) = inr (subst (λ m. older x m ≡ true) (sym same) e)
IsPast-trans x y z e (inr later) =
    inr (text_before_trans (λ x. x.created_at) (λ x. x.id) x y z e later)

latest_from-IsPast :
    (best : AgentRuntimeRecord) (rs : List AgentRuntimeRecord) → IsPast best (latest_from best rs)
unfolding latest_from
latest_from-IsPast best [] = inl refl
latest_from-IsPast best (r ∷ rs) = elim (Bool-cases (older best r)) [
  | inl e ↦
      subst (IsPast best) (latest_from-later best r rs e)
        (IsPast-trans best r (latest_from r rs) e (latest_from-IsPast r rs))
  | inr e ↦ subst (IsPast best) (latest_from-kept best r rs e) (latest_from-IsPast best rs)
]

-- What is not before `best` is not after what the search gets to from it.
older-IsPast :
    (best m r : AgentRuntimeRecord) → IsPast best m → older best r ≡ false → older m r ≡ false
older-IsPast best m r (inl same) e = rw same e
older-IsPast best m r (inr later) e = elim (Bool-cases (older m r)) [
  | inl k ↦ absurd (cc (e, text_before_trans (λ x. x.created_at) (λ x. x.id) best m r later k))
  | inr k ↦ k
]

any_of-latest_from :
    (best : AgentRuntimeRecord) (rs : List AgentRuntimeRecord)
    → any_of (older (latest_from best rs)) rs ≡ false
any_of-latest_from best [] = refl
any_of-latest_from best (r ∷ rs) = elim (Bool-cases (older best r)) [
  | inl e ↦
      subst (λ m. any_of (older m) (r ∷ rs) ≡ false) (latest_from-later best r rs e)
        (rw
          (
            older-IsPast r (latest_from r rs) r (latest_from-IsPast r rs)
                (text_before_irrefl (λ x. x.created_at) (λ x. x.id) r),
            any_of-latest_from r rs,
          )
          refl)
  | inr e ↦
      subst (λ m. any_of (older m) (r ∷ rs) ≡ false) (latest_from-kept best r rs e)
        (rw
          (
            older-IsPast best (latest_from best rs) r (latest_from-IsPast best rs) e,
            any_of-latest_from best rs,
          )
          refl)
]

-- A runtime of the agent is later than the one found: created after it, or at the same time with a
-- greater id.
abbrev pub is_outdone : String → List AgentRuntimeRecord → Option AgentRuntimeRecord → Bool
is_outdone agent_id rows none = false
is_outdone agent_id rows (some m) =
    any_of (λ r. belongs_to agent_id r && text_before (λ x. x.created_at) (λ x. x.id) m r) rows

is_outdone-order_by :
    (agent_id : String) (rows : List AgentRuntimeRecord) (found : Option AgentRuntimeRecord)
    → is_outdone agent_id (order_by (text_before (λ r. r.created_at) (λ r. r.id)) rows) found
      ≡ false
    → is_outdone agent_id rows found ≡ false
is_outdone-order_by agent_id rows none h = h
is_outdone-order_by agent_id rows (some m) h = sym (any_of-order_by _ _ rows) ∙ h

any_of-latest :
    (m : AgentRuntimeRecord) (rows : List AgentRuntimeRecord)
    → latest rows ≡ some m
    → any_of (older m) rows ≡ false
unfolding latest
any_of-latest m [] e = absurd (cc)
any_of-latest m (r ∷ rs) e =
    let is_m : latest_from r rs ≡ m = cc e in
    subst (λ x. any_of (older x) (r ∷ rs) ≡ false) is_m
      (rw
        (
          older-IsPast r (latest_from r rs) r (latest_from-IsPast r rs)
              (text_before_irrefl (λ x. x.created_at) (λ x. x.id) r),
          any_of-latest_from r rs,
        )
        refl)

is_outdone-latest :
    (agent_id : String) (rows : List AgentRuntimeRecord)
    → is_outdone agent_id rows (latest (select (belongs_to agent_id) rows)) ≡ false
is_outdone-latest agent_id rows = elim (Option-cases (latest (select (belongs_to agent_id) rows))) [
  | inl e ↦ rw e refl
  | inr (m, e) ↦ rw e (
      sym (any_of-select (belongs_to agent_id) (older m) rows)
      ∙ any_of-latest m (select (belongs_to agent_id) rows) e)
]

-- The latest runtime of an agent is read without a change, it is one of the agent's, no runtime of the
-- agent in the table was created after it, or at the same time with a greater id, and there is none
-- exactly where the table has no runtime of the agent.
pub get_latest_runtime_for_agent-newest :
    (agent_id : String) (w : World)
    → (found : Option AgentRuntimeRecord) × (get_latest_runtime_for_agent agent_id w
        ≡ (ok found, w))
      × (passes (belongs_to agent_id) found ≡ true)
      × (is_outdone agent_id w.runtimes found ≡ false)
      × (is_none found ≡ leb (count_of (belongs_to agent_id) w.runtimes) 0)
unfolding get_latest_runtime_for_agent list_runtimes ◌>>=◌
get_latest_runtime_for_agent-newest agent_id w =
    let rows = order_by (text_before (λ r. r.created_at) (λ r. r.id)) w.runtimes in
    let own = select (belongs_to agent_id) rows in
    (
      latest own,
      refl,
      latest-passes (belongs_to agent_id) own (all_of-select (belongs_to agent_id) rows),
      is_outdone-order_by agent_id w.runtimes (latest own) (is_outdone-latest agent_id rows),
      is_none-latest own
          ∙ ap (λ k. leb k 0)
              (length-select (belongs_to agent_id) rows
                ∙ count_of-order_by (text_before (λ r. r.created_at) (λ r. r.id))
                    (belongs_to agent_id) w.runtimes),
    )
