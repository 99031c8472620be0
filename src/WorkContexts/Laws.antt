-- ===== src/WorkContexts/Laws.antt =====
-- The work context of a job after `create_or_update_context` of app/services/work_context_service.py.
use codex_collaboration_coor.Common.{
  String, ◌<>◌, ◌==◌, eq_iff, Option, none, some, List, [], ◌∷◌, ◌++◌, ◌≡◌, refl, ◌+◌, ◌⊎◌, inl,
  inr, Bool-cases, Option-cases, find_first, arith,
}
use codex_collaboration_coor.Exec.{ok, ◌>>=◌, gets}
use codex_collaboration_coor.Store.{World}
use codex_collaboration_coor.Store.Records.Pools.{WorkContextRecord}
use codex_collaboration_coor.Store.Env.{Env, utc_now, new_id}
use codex_collaboration_coor.Store.Table.{create, update}
use codex_collaboration_coor.Store.Table.Rows.{replace_row, has_row}
use codex_collaboration_coor.Store.Repositories.Pools.{work_context_repository, get_by_job}
use codex_collaboration_coor.WorkContexts.{
  WorkContextPlan, planned_context, write_context, create_or_update_context,
}

-- The context that `get_by_job` finds.
abbrev pub context_of_job : String → List WorkContextRecord → Option WorkContextRecord
context_of_job job_id rows = find_first (λ r. r.job_id == job_id) rows

context_of_job-append :
    (j : String) (c : WorkContextRecord) (rows : List WorkContextRecord)
    → context_of_job j rows ≡ none
    → c.job_id ≡ j
    → context_of_job j (rows ++ c ∷ []) ≡ some c
context_of_job-append j c [] h e = ground (arith, eq_iff c.job_id j)
context_of_job-append j c (r ∷ rows) h e = ground (arith, context_of_job-append j c rows)

context_of_job-replace_row :
    (j : String) (old c : WorkContextRecord) (rows : List WorkContextRecord)
    → context_of_job j rows ≡ some old
    → c.id ≡ old.id
    → c.job_id ≡ j
    → context_of_job j (replace_row (λ r. r.id) c rows) ≡ some c
unfolding replace_row
context_of_job-replace_row j old c [] h same e = absurd (cc)
context_of_job-replace_row j old c (r ∷ rows) h same e =
    ground (arith, eq_iff c.job_id j, eq_iff r.id c.id, context_of_job-replace_row j old c rows)

-- The identity of the context of a job: a new one, or the one that the job had.
abbrev pub Identity : String → Option WorkContextRecord → WorkContextRecord → Type 0
Identity j before c =
    ((before ≡ none) × (c.context_key ≡ "ctx_" <> j) × (c.created_at ≡ c.updated_at))
    ⊎ ((old : WorkContextRecord) × (before ≡ some old)
        × (c.id ≡ old.id)
        × (c.context_key ≡ old.context_key)
        × (c.created_at ≡ old.created_at))

module _ ⦃env : Env⦄ (j s a : String) (plan : WorkContextPlan) where
  -- What a written context is.
  abbrev Written : World → WorkContextRecord → World → Type 0
  Written w c w' =
      (context_of_job j w'.work_contexts ≡ some c)
      × (c.runtime_id ≡ plan.runtime_id)
      × (c.context_status ≡ plan.context_status)
      × Identity j (context_of_job j w.work_contexts) c

  created-Written :
      (now : String) (w : World) (c : WorkContextRecord) (w' : World)
      → context_of_job j w.work_contexts ≡ none
      → write_context j s a plan none now w ≡ (ok c, w')
      → Written w c w'
  unfolding write_context create new_id ◌>>=◌
  created-Written now w c w' e h =
      let id = "wcx_" <> env.hex w.ids_drawn in
      let made = planned_context j s a plan id ("ctx_" <> j) now now in
      elim (Bool-cases (work_context_repository.admits made)) [
        | inr refused ↦ absurd (cc (refused, h))
        | inl fits ↦
            let is_c : made ≡ c = cc (fits, h) in
            let is_w : w.work_contexts ++ made ∷ [] ≡ w'.work_contexts = cc (fits, h) in
            rw (← is_w, ← is_c, e)
              (
                context_of_job-append j made w.work_contexts e refl,
                refl,
                refl,
                inl (refl, refl, refl),
              )
      ]

  updated-Written :
      (now : String) (w : World) (old c : WorkContextRecord) (w' : World)
      → context_of_job j w.work_contexts ≡ some old
      → write_context j s a plan (some old) now w ≡ (ok c, w')
      → Written w c w'
  unfolding write_context update
  updated-Written now w old c w' e h =
      let made = planned_context j s a plan old.id old.context_key old.created_at now in
      elim (Bool-cases (has_row (λ r. r.id) old.id w.work_contexts)) [
        | inr gone ↦ absurd (cc (gone, h))
        | inl there ↦ elim (Bool-cases (work_context_repository.admits made)) [
          | inr refused ↦ absurd (cc (there, refused, h))
          | inl fits ↦
              let is_c : made ≡ c = cc (there, fits, h) in
              let is_w : replace_row (λ r. r.id) made w.work_contexts ≡ w'.work_contexts =
                cc (there, fits, h) in
              rw (← is_w, ← is_c, e)
                (
                  context_of_job-replace_row j old made w.work_contexts e refl refl,
                  refl,
                  refl,
                  inr (old, refl, refl, refl, refl),
                )
        ]
      ]

  -- After a `create_or_update_context` that returns, the job's context is the one that it returned,
  -- with the runtime and the status of the plan. A job that had a context keeps its identity, its key
  -- and its time of creation, and any other gets the key named after it.
  pub get_by_job-create_or_update_context :
      (w : World) (c : WorkContextRecord) (w' : World)
      → create_or_update_context j s a plan w ≡ (ok c, w')
      → (get_by_job j w' ≡ (ok (some c), w'))
        × (c.runtime_id ≡ plan.runtime_id)
        × (c.context_status ≡ plan.context_status)
        × Identity j (context_of_job j w.work_contexts) c
  unfolding create_or_update_context get_by_job gets utc_now ◌>>=◌
  get_by_job-create_or_update_context w c w' h =
      let now = env.now w.clock_reads in
      let later = record w { clock_reads = w.clock_reads + 1 } in
      elim (Option-cases (context_of_job j w.work_contexts)) [
        | inl e ↦
            let got = created-Written now later c w' e (rw e at h) in
            (rw got.0 refl, got.1, got.2, got.3)
        | inr (old, e) ↦
            let got = updated-Written now later old c w' e (rw e at h) in
            (rw got.0 refl, got.1, got.2, got.3)
      ]
