-- ===== src/Store/Env.antt =====
-- What the services take from outside the repository: the clock, `uuid4`, the `json` codec, SHA-256
-- and the Codex process behind the bridge. Each is an arbitrary function; the n-th call of the clock,
-- of `uuid4` and of the bridge may answer anything.
use codex_collaboration_coor.Common.{ℕ, ◌+◌, String, ◌<>◌, Option, none, some, List, Bool}
use codex_collaboration_coor.Common.Json.{Json, Fields, obj, str, get, end, field}
use codex_collaboration_coor.Exec.{Exec, Outcome, ok, err, bridge_error}
use codex_collaboration_coor.Store.{World}

-- A bridge response: a `dict`, or an object with a `result` attribute.
pub data Reply : Type 0 where
  mapping : Fields → Reply
  response : Json → Reply

pub record Env : Type 0 where
  -- `_utc_now()`
  pub now : ℕ → String
  -- `uuid4().hex`
  pub hex : ℕ → String
  -- `json.loads`, `none` where it raises `JSONDecodeError`
  pub loads : String → Option Json
  -- `json.dumps(value, sort_keys=True)`
  pub dumps : Json → String
  -- `str(value)` of a value that is no `str`
  pub repr : Json → String
  -- `hashlib.sha256(value.encode("utf-8")).hexdigest()`
  pub sha256_hex : String → String
  -- `str(Path(a) / b / ...)`
  pub join_path : List String → String
  -- `secrets.token_urlsafe(32)`
  pub token : ℕ → String
  -- Whether `datetime.fromisoformat(value)` has an offset; `none` where it raises `ValueError`
  pub iso_offset : String → Option Bool
  -- `datetime.fromisoformat(value) <= datetime.now(timezone.utc)`
  pub is_past : ℕ → String → Bool
  -- A call of the bridge: its method and its parameters; `none` where it raises.
  pub bridge : ℕ → String → Json → Option Reply

module _ ⦃env : Env⦄ where
  unfoldable pub utc_now : Exec World String
  utc_now w = (ok (env.now w.clock_reads), record w { clock_reads = w.clock_reads + 1 })

  -- `f"{prefix}{uuid4().hex}"`
  unfoldable pub new_id : String → Exec World String
  new_id prefix w = (ok (prefix <> env.hex w.ids_drawn), record w { ids_drawn = w.ids_drawn + 1 })

  unfoldable pub new_token : Exec World String
  new_token w = (ok (env.token w.ids_drawn), record w { ids_drawn = w.ids_drawn + 1 })

  -- `value <= datetime.now(timezone.utc)`, where the value has an offset.
  unfoldable pub past_due : String → Exec World Bool
  past_due value w =
      (ok (env.is_past w.clock_reads value), record w { clock_reads = w.clock_reads + 1 })

  abbrev answered : Option Reply → Outcome Reply
  answered none = err (bridge_error "bridge call failed")
  answered (some r) = ok r

  unfoldable pub call_bridge : String → Json → Exec World Reply
  call_bridge method params w = (
    answered (env.bridge w.bridge_calls method params),
    record w { bridge_calls = w.bridge_calls + 1 },
  )

  -- `str(value)`
  unfoldable pub text_of : Json → String
  text_of (str s) = s
  text_of v = env.repr v

  abbrev dict_or_value : Json → Fields
  dict_or_value (obj fs) = fs
  dict_or_value v = field "value" v end

  abbrev result_of : Fields → Option Json → Fields
  result_of fs none = fs
  result_of fs (some v) = dict_or_value v

  -- relay_engine.py `_unwrap_result`
  unfoldable pub unwrap_result : Reply → Fields
  unwrap_result (mapping fs) = result_of fs (get fs "result")
  unwrap_result (response v) = dict_or_value v
