-- ===== src/Credentials/Scopes.antt =====
-- The scopes of app/services/integration_credentials.py.
use codex_collaboration_coor.Common.{
  String, ◌<>◌, ◌==◌, ◌++◌, Bool, not, Option, none, some, List, [], ◌∷◌, one_of, if◌then◌else◌,
}
use codex_collaboration_coor.Common.Text.{strip}
use codex_collaboration_coor.Common.Json.{Json, str, arr, Items, nil, cons}
use codex_collaboration_coor.Exec.{Outcome, ok, err, value_error}
use codex_collaboration_coor.Store.Env.{Env}
use codex_collaboration_coor.Store.Table.Rows.{order_by, text_before}

abbrev pub valid_scopes : List String
valid_scopes = "public_read" ∷ "public_write" ∷ "operator_write" ∷ []

-- `if candidate not in normalized: normalized.append(candidate)`
abbrev pub add_new : List String → String → List String
add_new seen s = if one_of s seen then seen else seen ++ s ∷ []

-- The loop, with what it has appended so far.
unfoldable pub normalize_from : List String → List String → Outcome (List String)
normalize_from seen [] = ok seen
normalize_from seen (scope ∷ scopes) =
    let candidate = strip scope in
    let skipped = normalize_from seen scopes in
    let taken = normalize_from (add_new seen candidate) scopes in
    if candidate == ""
    then skipped
    else if not (one_of candidate valid_scopes)
    then err (value_error ("Unsupported credential scope: " <> candidate))
    else taken

abbrev or_read : Bool → List String → List String
or_read allow_empty [] = if allow_empty then [] else "public_read" ∷ []
or_read allow_empty (s ∷ ss) = s ∷ ss

abbrev or_read_ok : Bool → Outcome (List String) → Outcome (List String)
or_read_ok allow_empty (ok ss) = ok (or_read allow_empty ss)
or_read_ok allow_empty (err e) = err e

unfoldable pub normalize_scopes : Bool → Option (List String) → Outcome (List String)
normalize_scopes allow_empty none = ok (or_read allow_empty [])
normalize_scopes allow_empty (some scopes) = or_read_ok allow_empty (normalize_from [] scopes)

-- `_SCOPE_IMPLICATIONS`
abbrev pub implied_scopes : String → List String
implied_scopes scope =
    if scope == "public_write"
    then "public_read" ∷ []
    else if scope == "operator_write"
    then "public_write" ∷ "public_read" ∷ []
    else []

-- A set of texts, as the list of its elements in the order added.
unfoldable pub add_all : List String → List String → List String
add_all seen [] = seen
add_all seen (s ∷ ss) = add_all (add_new seen s) ss

unfoldable pub expand_from : List String → List String → List String
expand_from seen [] = seen
expand_from seen (s ∷ ss) = expand_from (add_all seen (implied_scopes s)) ss

unfoldable pub expand_scopes : List String → List String
expand_scopes scopes = expand_from (add_all [] scopes) scopes

-- `tuple(sorted(_expand_scopes(...)))`
unfoldable pub sorted_scopes : List String → List String
sorted_scopes scopes = order_by (text_before (λ s. s) (λ s. s)) (expand_scopes scopes)

abbrev distinct_texts : List String → Items → List String
distinct_texts seen nil = seen
distinct_texts seen (cons (str s) items) = distinct_texts (add_new seen s) items
distinct_texts seen (cons _ items) = distinct_texts seen items

abbrev list_scopes : Option Json → List String
list_scopes (some (arr items)) = distinct_texts [] items
list_scopes _ = []

abbrev json_texts : List String → Items
json_texts [] = nil
json_texts (s ∷ ss) = cons (str s) (json_texts ss)

module _ ⦃env : Env⦄ where
  unfoldable pub json_load_scopes : String → List String
  json_load_scopes scopes_json = list_scopes (env.loads scopes_json)

  -- The order of the keys does not matter to a list.
  unfoldable pub json_dump_scopes : List String → String
  json_dump_scopes scopes = env.dumps (arr (json_texts scopes))
