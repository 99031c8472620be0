-- ===== src/Pools/Select.antt =====
-- The catalogue of pools of app/services/runtime_pool_service.py and the choice of one.
use codex_collaboration_coor.Common.{
  ℕ, zero, suc, String, ◌<>◌, ◌==◌, ◌&&◌, ◌||◌, ◌++◌, Bool, true, false, not, Option, none, some,
  List, [], ◌∷◌, map, length, select, find_first, first_some, head, all_of, one_of, count_of,
  if◌then◌else◌,
}
use codex_collaboration_coor.Common.Int.{ℤ, pos, lt_int}
use codex_collaboration_coor.Common.Json.{Json, Fields, end, field, str, arr, obj, Items, nil, cons}
use codex_collaboration_coor.Exec.{Exec, Outcome, ok, err, gets, lookup_error, ◌>>=◌}
use codex_collaboration_coor.Store.{World}
use codex_collaboration_coor.Store.Records.Pools.{
  RuntimePoolRecord, WorkContextRecord, is_active_context,
}
use codex_collaboration_coor.Store.Env.{Env}
use codex_collaboration_coor.Store.Repositories.Pools.{list_runtime_pools}

pub record RuntimePoolDefinition : Type 0 where
  pub id : String
  pub pool_key : String
  pub title : String
  pub description : Option String
  pub runtime_kind : String
  pub preferred_transport_kind : Option String
  pub required_capabilities : List String
  pub fallback_pool_key : Option String
  pub max_active_contexts : ℤ
  pub default_isolation_mode : String
  pub pool_status : String
  pub metadata : Option Fields
  pub is_default : Bool
  pub sort_order : ℤ
  pub created_at : String
  pub updated_at : String

abbrev pub general_shared : RuntimePoolDefinition
general_shared = record {
  id = "rpl_general_shared";
  pool_key = "general_shared";
  title = "General Shared";
  description = some "Default shared execution pool for normal collaborative work.";
  runtime_kind = "codex";
  preferred_transport_kind = some "stdio";
  required_capabilities = [];
  fallback_pool_key = none;
  max_active_contexts = pos 4;
  default_isolation_mode = "shared";
  pool_status = "ready";
  metadata = some (field "lane" (str "general") end);
  is_default = true;
  sort_order = pos 10;
  created_at = "2026-04-01T00:00:00Z";
  updated_at = "2026-04-01T00:00:00Z";
}

abbrev pub isolated_work : RuntimePoolDefinition
isolated_work = record {
  id = "rpl_isolated_work";
  pool_key = "isolated_work";
  title = "Isolated Work";
  description = some "Dedicated isolated workspace for tasks that should not share state.";
  runtime_kind = "codex";
  preferred_transport_kind = some "stdio";
  required_capabilities = [];
  fallback_pool_key = some "general_shared";
  max_active_contexts = pos 1;
  default_isolation_mode = "isolated";
  pool_status = "ready";
  metadata = some (field "lane" (str "isolated") end);
  is_default = false;
  sort_order = pos 20;
  created_at = "2026-04-01T00:00:00Z";
  updated_at = "2026-04-01T00:00:00Z";
}

abbrev pub builtin_pools : List RuntimePoolDefinition
builtin_pools = general_shared ∷ isolated_work ∷ []

-- `[item for item in payload if isinstance(item, str)]`
abbrev strings_of : Items → List String
strings_of nil = []
strings_of (cons (str s) items) = s ∷ strings_of items
strings_of (cons _ items) = strings_of items

abbrev list_or_empty : Option Json → List String
list_or_empty (some (arr items)) = strings_of items
list_or_empty _ = []

abbrev dict_or_none : Option Json → Option Fields
dict_or_none (some (obj fields)) = some fields
dict_or_none _ = none

-- `bool(record.is_default)`
abbrev nonzero : ℕ → Bool
nonzero zero = false
nonzero (suc _) = true

module _ ⦃env : Env⦄ where
  unfoldable pub parse_string_list : Option String → List String
  parse_string_list none = []
  parse_string_list (some payload_json) = list_or_empty (env.loads payload_json)

  unfoldable pub parse_metadata : Option String → Option Fields
  parse_metadata none = none
  parse_metadata (some payload_json) = dict_or_none (env.loads payload_json)

  unfoldable pub record_to_definition : RuntimePoolRecord → RuntimePoolDefinition
  record_to_definition r = record {
    id = r.id;
    pool_key = r.pool_key;
    title = r.title;
    description = r.description;
    runtime_kind = r.runtime_kind;
    preferred_transport_kind = r.preferred_transport_kind;
    required_capabilities = parse_string_list r.required_capabilities_json;
    fallback_pool_key = r.fallback_pool_key;
    max_active_contexts = r.max_active_contexts;
    default_isolation_mode = r.default_isolation_mode;
    pool_status = r.pool_status;
    metadata = parse_metadata r.metadata_json;
    is_default = nonzero r.is_default;
    sort_order = r.sort_order;
    created_at = r.created_at;
    updated_at = r.updated_at;
  }

  unfoldable pub list_pools : Exec World (List RuntimePoolDefinition)
  list_pools = do
    stored ← list_runtime_pools
    gets (λ w. builtin_pools ++ map record_to_definition stored)

-- The capabilities of an agent, by name.
abbrev pub Capabilities : Type 0
Capabilities = List String

unfoldable pub pool_supports_capabilities :
    RuntimePoolDefinition → Capabilities → List String → Bool
pool_supports_capabilities pool agent_capabilities required_capabilities =
    all_of (λ c. one_of c agent_capabilities) (pool.required_capabilities ++ required_capabilities)

-- How many contexts of a pool run.
unfoldable pub active_contexts : String → List WorkContextRecord → ℕ
active_contexts pool_id contexts =
    count_of (λ c. is_active_context c.context_status)
      (select (λ c. c.runtime_pool_id == pool_id) contexts)

-- A limit of zero or less is no limit.
unfoldable pub pool_is_at_capacity : List WorkContextRecord → RuntimePoolDefinition → Bool
pool_is_at_capacity contexts pool =
    lt_int (pos 0) pool.max_active_contexts
    && not (lt_int (pos (active_contexts pool.id contexts)) pool.max_active_contexts)

-- What the loop holds: the pool, whether it is a fallback, and the reason.
pub record Selection : Type 0 where
  pub pool : RuntimePoolDefinition
  pub fallback_used : Bool
  pub reason : String

abbrev pub unless_visited :
    List String → Option RuntimePoolDefinition → Option RuntimePoolDefinition
unless_visited visited none = none
unless_visited visited (some p) = if one_of p.pool_key visited then none else some p

abbrev pub starts_with : RuntimePoolDefinition → Selection
starts_with p = record {
  pool = p;
  fallback_used = false;
  reason = "Selected pool " <> p.pool_key <> ".";
}

module _ (supports full : RuntimePoolDefinition → Bool) where
  abbrev pub accepts : RuntimePoolDefinition → Bool
  accepts p = supports p && not (full p)

  unfoldable pub fall_back : RuntimePoolDefinition → Selection
  fall_back p = record {
    pool = p;
    fallback_used = true;
    reason =
        "Fallback to pool "
        <> p.pool_key
        <> (if not (supports p)
            then " because capabilities were missing."
            else " because the selected pool is full.");
  }

module _ (pools : List RuntimePoolDefinition) where
  unfoldable pub pool_with_key : Option String → Option RuntimePoolDefinition
  pool_with_key none = none
  pool_with_key (some key) = find_first (λ p. p.pool_key == key) pools

  unfoldable pub default_pool : Option RuntimePoolDefinition
  default_pool = find_first (λ p. p.is_default) pools

  -- The preferred pool, else the default one, else the first.
  unfoldable pub first_choice : Option String → Option RuntimePoolDefinition
  first_choice preferred_pool_key =
      first_some (pool_with_key preferred_pool_key) (first_some default_pool (head pools))

  -- The pool that the loop turns to after one it rejects: its fallback, else the default pool.
  unfoldable pub next_choice : List String → RuntimePoolDefinition → Option RuntimePoolDefinition
  next_choice visited p =
      first_some (unless_visited visited (pool_with_key p.fallback_pool_key))
        (unless_visited visited default_pool)

  module _ (supports full : RuntimePoolDefinition → Bool) where
    -- One round of the loop: the next selection, or `none` where the loop breaks.
    unfoldable pub one_round : List String → Selection → Option Selection
    one_round visited s =
        if one_of s.pool.pool_key visited || accepts supports full s.pool
        then none
        else elim (next_choice (s.pool.pool_key ∷ visited) s.pool) [
          | none ↦ none
          | some p ↦
              if p.pool_key == s.pool.pool_key then none else some (fall_back supports full p)
        ]

    -- `while True`, on fuel.
    unfoldable pub select_loop : ℕ → List String → Selection → Option Selection
    select_loop zero visited s = none
    select_loop (suc fuel) visited s = elim (one_round visited s) [
      | none ↦ some s
      | some next ↦ select_loop fuel (s.pool.pool_key ∷ visited) next
    ]

    -- As many rounds as there are pools, and one more.
    unfoldable pub select_pool : Option String → Outcome (Option Selection)
    select_pool preferred_pool_key = elim (first_choice preferred_pool_key) [
      | none ↦ err (lookup_error "No runtime pools available.")
      | some p ↦ ok (select_loop (suc (length pools)) [] (starts_with p))
    ]
