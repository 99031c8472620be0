-- ===== src/Rules/Matching.antt =====
-- What a rule of app/services/rule_engine.py asks of a job or a message, and the channel it names.
use codex_collaboration_coor.Common.{
  String, Bool, true, false, ◌&&◌, Option, none, some, [], ◌∷◌, or_else, is_text,
}
use codex_collaboration_coor.Common.Text.{lower, contains}
use codex_collaboration_coor.Common.Json.{Json, Fields, obj, end, get, as_str, or_json}
use codex_collaboration_coor.Store.Records.{JobRecord, RuleRecord}
use codex_collaboration_coor.Store.Env.{Env}
use codex_collaboration_coor.Artifacts.{first_text}

-- The `channel_key`, `agent_id` and `content` of `_matches_rule`.
pub record Subject : Type 0 where
  pub channel_key : Option String
  pub agent_id : Option String
  pub content : Option String

-- `job.instructions or job.title` and the rest, where only the job is given.
abbrev pub subject_of : JobRecord → Subject
subject_of job = record {
  channel_key = some job.channel_key;
  agent_id = some job.assigned_agent_id;
  content = some (or_else job.instructions job.title);
}

abbrev dict_or_empty : Option Json → Fields
dict_or_empty (some (obj fs)) = fs
dict_or_empty _ = end

-- `not (isinstance(expected, str) and actual != expected)`
abbrev agrees : Option String → Option String → Bool
agrees none actual = true
agrees (some expected) actual = is_text actual expected

abbrev mentions : Option String → Option String → Bool
mentions none content = true
mentions (some needle) none = false
mentions (some needle) (some content) = contains (lower needle) (lower content)

-- The three conditions.
unfoldable pub meets : Fields → Subject → Bool
meets conditions s =
    agrees (as_str (get conditions "channel_key")) s.channel_key
    && agrees (as_str (or_json (get conditions "agent_id") (get conditions "assigned_agent_id")))
        s.agent_id
    && mentions (as_str (get conditions "message_contains")) s.content

module _ ⦃env : Env⦄ where
  unfoldable pub parse_json : Option String → Fields
  parse_json none = end
  parse_json (some payload) = dict_or_empty (env.loads payload)

  unfoldable pub matches_rule : RuleRecord → Subject → Bool
  matches_rule rule s = meets (parse_json rule.conditions_json) s

  unfoldable pub resolve_target_channel : RuleRecord → Option String
  resolve_target_channel rule =
      first_text ("target_channel_key" ∷ "channel_key" ∷ []) (parse_json rule.actions_json)
