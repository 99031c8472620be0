-- ===== src/Pools/Assign.antt =====
-- The pools made, and the work contexts given to jobs, of app/services/runtime_pool_service.py.
use codex_collaboration_coor.Common.{
  String, ◌<>◌, ◌==◌, Bool, true, not, Option, none, some, List, [], ◌∷◌, one_of, select, any_of,
  is_none, if◌then◌else◌,
}
use codex_collaboration_coor.Common.Int.{ℤ, pos, lt_int}
use codex_collaboration_coor.Common.Text.{strip}
use codex_collaboration_coor.Common.Json.{
  Json, null, str, arr, obj, Items, nil, cons, Fields, end, field, truthy, get as get_field,
}
use codex_collaboration_coor.Exec.{
  Exec, Outcome, ok, err, pure, raise, gets, lift, some_or_raise, lookup_error, value_error,
  type_error, ◌>>=◌, ◌>>◌,
}
use codex_collaboration_coor.Store.{World}
use codex_collaboration_coor.Store.Records.{JobRecord, AgentRuntimeRecord}
use codex_collaboration_coor.Store.Records.Pools.{
  RuntimePoolRecord, WorkContextRecord, ContextStatus, active, fallback, waiting_for_runtime,
  OwnershipState, owned, borrowed,
}
use codex_collaboration_coor.Store.Env.{Env, utc_now, new_id}
use codex_collaboration_coor.Store.Table.{create, get}
use codex_collaboration_coor.Store.Table.Rows.{order_by, text_before}
use codex_collaboration_coor.Store.Repositories.{agent_repository, runtime_repository}
use codex_collaboration_coor.Store.Repositories.Pools.{
  runtime_pool_repository, get_by_key, isolation_modes, pool_statuses,
}
use codex_collaboration_coor.WorkContexts.{
  WorkContextPlan, resolve_runtime, create_or_update_context,
}
use codex_collaboration_coor.Pools.Select.{
  RuntimePoolDefinition, Selection, builtin_pools, record_to_definition, list_pools, Capabilities,
  parse_metadata, pool_supports_capabilities, pool_is_at_capacity, select_pool, pool_with_key,
}

-- The arguments of `create_pool`.
pub record NewPool : Type 0 where
  pub pool_key : String
  pub title : String
  pub description : Option String
  pub runtime_kind : String
  pub preferred_transport_kind : Option String
  pub required_capabilities : Option (List String)
  pub fallback_pool_key : Option String
  pub max_active_contexts : ℤ
  pub default_isolation_mode : String
  pub pool_status : String
  pub metadata : Option Fields
  pub is_default : Bool
  pub sort_order : ℤ

-- The checks of the arguments, in their order; `none` where all pass.
unfoldable pub refused_arguments : NewPool → Option String
refused_arguments p =
    if strip p.pool_key == ""
    then some "Runtime pool key cannot be empty"
    else if strip p.title == ""
    then some "Runtime pool title cannot be empty"
    else if lt_int p.max_active_contexts (pos 0)
    then some "Runtime pool max_active_contexts must be greater than or equal to 0"
    else if not (one_of p.default_isolation_mode isolation_modes)
    then some ("Unsupported runtime pool isolation mode: " <> p.default_isolation_mode)
    else if not (one_of p.pool_status pool_statuses)
    then some ("Unsupported runtime pool status: " <> p.pool_status)
    else if any_of (λ b. b.pool_key == p.pool_key) builtin_pools
    then some ("Runtime pool key is reserved for built-ins: " <> p.pool_key)
    else none

abbrev json_strings : List String → Items
json_strings [] = nil
json_strings (s ∷ ss) = cons (str s) (json_strings ss)

abbrev raise_if : Option String → Exec World Bool
raise_if none = pure true
raise_if (some text) = raise (value_error text)

module _ ⦃env : Env⦄ where
  -- A built-in pool, else the stored one.
  unfoldable pub get_pool : String → Exec World RuntimePoolDefinition
  get_pool pool_key = elim (pool_with_key builtin_pools (some pool_key)) [
    | some pool ↦ pure pool
    | none ↦ do
      found ← get_by_key pool_key
      row ← some_or_raise (lookup_error ("Runtime pool not found: " <> pool_key)) found
      pure (record_to_definition row)
  ]

  abbrev sorted_json : Option (List String) → Option String
  sorted_json none = none
  sorted_json (some names) =
      some (env.dumps (arr (json_strings (order_by (text_before (λ s. s) (λ s. s)) names))))

  abbrev dict_json : Option Fields → Option String
  dict_json none = none
  dict_json (some fields) = some (env.dumps (obj fields))

  unfoldable pub ensure_fallback : Option String → Exec World Bool
  ensure_fallback none = pure true
  ensure_fallback (some key) = do get_pool key; pure true

  unfoldable pub new_pool : NewPool → String → String → RuntimePoolRecord
  new_pool p id now = record {
    id = id;
    pool_key = p.pool_key;
    title = p.title;
    description = p.description;
    runtime_kind = p.runtime_kind;
    preferred_transport_kind = p.preferred_transport_kind;
    required_capabilities_json = sorted_json p.required_capabilities;
    fallback_pool_key = p.fallback_pool_key;
    max_active_contexts = p.max_active_contexts;
    default_isolation_mode = p.default_isolation_mode;
    pool_status = p.pool_status;
    metadata_json = dict_json p.metadata;
    is_default = if p.is_default then 1 else 0;
    sort_order = p.sort_order;
    created_at = now;
    updated_at = now;
  }

  unfoldable pub create_pool : NewPool → Exec World RuntimePoolDefinition
  create_pool p = do
    raise_if (refused_arguments p)
    stored ← get_by_key p.pool_key
    raise_if (if is_none stored then none else some ("Runtime pool already exists: " <> p.pool_key))
    ensure_fallback p.fallback_pool_key
    now ← utc_now
    id ← new_id "rpl_"
    saved ← create runtime_pool_repository (new_pool p id now)
    pure (record_to_definition saved)

pub record RuntimePoolPlan : Type 0 where
  pub pool : RuntimePoolDefinition
  pub runtime_id : Option String
  pub workspace_path : Option String
  pub isolation_mode : String
  pub context_status : ContextStatus
  pub ownership_state : OwnershipState
  pub selection_reason : Option String
  pub fallback_used : Bool
  pub runtime_found : Bool
  pub failure_reason : Option String

-- `[c for c in capabilities if isinstance(c, str) and c]`
unfoldable pub normalize_capabilities : Option (List String) → List String
normalize_capabilities none = []
normalize_capabilities (some names) = select (λ c. not (c == "")) names

-- The keys of a `dict` whose value is true.
abbrev truthy_keys : Fields → List String
truthy_keys end = []
truthy_keys (field k v fs) = let rest = truthy_keys fs in if truthy v then k ∷ rest else rest

abbrev keys_or_none : Option Fields → List String
keys_or_none none = []
keys_or_none (some fs) = truthy_keys fs

-- A runtime that the caller names counts where it is one of the agent's.
abbrev explicit_or :
    String → Option AgentRuntimeRecord → Option AgentRuntimeRecord → Option AgentRuntimeRecord
explicit_or agent_id none found = found
explicit_or agent_id (some r) found = if r.agent_id == agent_id then some r else found

unfoldable pub context_status_of : Option AgentRuntimeRecord → Bool → ContextStatus
context_status_of none fallback_used = waiting_for_runtime
context_status_of (some _) fallback_used = if fallback_used then fallback else active

-- No fuel left counts as no pool.
abbrev pub stopped_at : Outcome (Option Selection) → Outcome Selection
stopped_at (ok (some s)) = ok s
stopped_at (ok none) = err (lookup_error "No runtime pools available.")
stopped_at (err e) = err e

-- The arguments of `plan_assignment`.
pub record Request : Type 0 where
  pub job_id : String
  pub session_id : String
  pub agent_id : String
  pub preferred_pool_key : Option String
  pub required_capabilities : Option (List String)
  pub runtime_id : Option String

module _ ⦃env : Env⦄ where
  unfoldable pub parse_capabilities : Option String → Capabilities
  parse_capabilities payload_json = keys_or_none (parse_metadata payload_json)

  abbrev joined : Request → String → String
  joined r base = env.join_path (base ∷ ".codex" ∷ r.session_id ∷ r.job_id ∷ [])

  -- `Path(base_path)` raises where the metadata holds no text.
  abbrev joined_json : Request → Option Json → Outcome (Option String)
  joined_json r none = ok none
  joined_json r (some null) = ok none
  joined_json r (some (str base)) = ok (some (joined r base))
  joined_json r (some _) = err (type_error "workspace_root")

  abbrev workspace_root : Option Fields → Option Json
  workspace_root none = none
  workspace_root (some fs) = get_field fs "workspace_root"

  abbrev path_of : Option AgentRuntimeRecord → Option String
  path_of none = none
  path_of (some r) = r.workspace_path

  unfoldable pub build_pool_path :
      Option AgentRuntimeRecord → RuntimePoolDefinition → Request → Outcome (Option String)
  build_pool_path runtime pool r = elim (path_of runtime) [
    | some base ↦ ok (some (joined r base))
    | none ↦ joined_json r (workspace_root pool.metadata)
  ]

  unfoldable pub choose_pool : Request → Capabilities → Exec World Selection
  choose_pool r agent_capabilities = do
    pools ← list_pools
    selected ← gets (λ w.
        select_pool pools
          (λ p.
            pool_supports_capabilities p agent_capabilities
              (normalize_capabilities r.required_capabilities))
          (pool_is_at_capacity w.work_contexts) r.preferred_pool_key)
    lift (stopped_at selected)

  abbrev explicit : Option String → Exec World (Option AgentRuntimeRecord)
  explicit none = pure none
  explicit (some id) = get runtime_repository id

  unfoldable pub plan_with :
      Request → Selection → Option AgentRuntimeRecord → Exec World RuntimePoolPlan
  plan_with r s runtime = do
    workspace_path ← lift (build_pool_path runtime s.pool r)
    pure (record {
      pool = s.pool;
      runtime_id = elim runtime [ none ↦ none | some found ↦ some found.id ];
      workspace_path = workspace_path;
      isolation_mode = s.pool.default_isolation_mode;
      context_status = context_status_of runtime s.fallback_used;
      ownership_state = if s.fallback_used then borrowed else owned;
      selection_reason = some s.reason;
      fallback_used = s.fallback_used;
      runtime_found = not (is_none runtime);
      failure_reason = none;
    })

  unfoldable pub plan_assignment : Request → Exec World RuntimePoolPlan
  plan_assignment r = do
    found ← get agent_repository r.agent_id
    agent ← some_or_raise (lookup_error ("Agent not found: " <> r.agent_id)) found
    s ← choose_pool r (parse_capabilities agent.capabilities_json)
    usual ← resolve_runtime r.agent_id s.pool.runtime_kind
    named ← explicit r.runtime_id
    plan_with r s (explicit_or r.agent_id named usual)

  abbrev context_plan : RuntimePoolPlan → WorkContextPlan
  context_plan plan = record {
    runtime_pool_id = plan.pool.id;
    runtime_id = plan.runtime_id;
    workspace_path = plan.workspace_path;
    isolation_mode = plan.isolation_mode;
    context_status = plan.context_status;
    ownership_state = plan.ownership_state;
    selection_reason = plan.selection_reason;
    failure_reason = plan.failure_reason;
  }

pub record RuntimePoolAssignment : Type 0 where
  pub pool : RuntimePoolDefinition
  pub context : WorkContextRecord
  pub runtime_id : Option String
  pub fallback_used : Bool
  pub runtime_found : Bool
  pub selection_reason : Option String

module _ ⦃env : Env⦄ where
  -- Log and telemetry are left out.
  unfoldable pub assign_work_context_for_job :
      JobRecord
      → Option String
      → Option (List String)
      → Option String
      → Exec World RuntimePoolAssignment
  assign_work_context_for_job job preferred_pool_key required_capabilities runtime_id = do
    plan ← plan_assignment (record {
      job_id = job.id;
      session_id = job.session_id;
      agent_id = job.assigned_agent_id;
      preferred_pool_key = preferred_pool_key;
      required_capabilities = required_capabilities;
      runtime_id = runtime_id;
    })
    context ←
        create_or_update_context job.id job.session_id job.assigned_agent_id (context_plan plan)
    pure (record {
      pool = plan.pool;
      context = context;
      runtime_id = plan.runtime_id;
      fallback_used = plan.fallback_used;
      runtime_found = plan.runtime_found;
      selection_reason = plan.selection_reason;
    })
