-- ===== src/Artifacts.antt =====
-- app/services/artifact_manager.py
use Prim.Native.String.{len}
use codex_collaboration_coor.Common.{
  String, ◌<>◌, true, false, Option, none, some, List, [], ◌∷◌, ◌++◌, ◌==◌, if◌then◌else◌,
}
use codex_collaboration_coor.Common.Int.{ℤ, pos}
use codex_collaboration_coor.Common.Text.{strip, take}
use codex_collaboration_coor.Common.Json.{
  Json, Items, Fields, bool, int, str, arr, obj, nil, cons, end, field, get, as_str, or_json,
}
use codex_collaboration_coor.Exec.{Exec, pure, ◌>>=◌, ◌>>◌}
use codex_collaboration_coor.Store.{World}
use codex_collaboration_coor.Store.Records.{JobRecord, ArtifactRecord}
use codex_collaboration_coor.Store.Env.{Env, new_id, text_of}
use codex_collaboration_coor.Store.Table.{create}
use codex_collaboration_coor.Store.Repositories.{artifact_repository}
use codex_collaboration_coor.Events.{record_job_event}

-- `value.strip()` if `value` is a `str` that is not blank.
abbrev pub stripped : Option String → Option String
stripped none = none
stripped (some s) = let t = strip s in if t == "" then none else some t

abbrev pub first_of_two : Option String → Option String → Option String
first_of_two none b = b
first_of_two (some s) b = some s

-- The first of the keys whose value is a text that is not blank.
unfoldable pub first_text : List String → Fields → Option String
first_text [] payload = none
first_text (key ∷ keys) payload =
    first_of_two (stripped (as_str (get payload key))) (first_text keys payload)

abbrev pub text_keys : List String
text_keys = "output_text" ∷ "output" ∷ "content" ∷ "message" ∷ "text" ∷ "summary" ∷ []

-- artifact_manager.py `_extract_text`
unfoldable pub extract_text : Fields → JobRecord → Option String
extract_text payload job = first_of_two (first_text text_keys payload) (stripped job.result_summary)

-- What `_create_artifact` is given beside the job and the time.
pub record ArtifactFields : Type 0 where
  pub artifact_type : String
  pub title : String
  pub content_text : Option String
  pub file_path : Option String
  pub file_name : Option String
  pub mime_type : Option String
  pub size_bytes : Option ℤ
  pub checksum_sha256 : Option String
  pub metadata_json : Option String

module _ ⦃env : Env⦄ where
  unfoldable pub create_artifact : JobRecord → ArtifactFields → String → Exec World ArtifactRecord
  create_artifact job fields created_at = do
    id ← new_id "art_"
    created ← create artifact_repository (record {
      id = id;
      job_id = job.id;
      session_id = job.session_id;
      channel_key = job.channel_key;
      source_message_id = job.source_message_id;
      artifact_type = fields.artifact_type;
      title = take 120 fields.title;
      content_text = fields.content_text;
      file_path = fields.file_path;
      file_name = fields.file_name;
      mime_type = fields.mime_type;
      size_bytes = fields.size_bytes;
      checksum_sha256 = fields.checksum_sha256;
      metadata_json = fields.metadata_json;
      created_at = created_at;
      updated_at = created_at;
    })
    record_job_event job "artifact.created"
        (field "artifact_id" (str created.id) (
          field "artifact_type" (str fields.artifact_type) (field "title" (str created.title) end)))
        created_at
    pure created

  -- An artifact that holds a text of the turn: its kind, title, file name and media type.
  abbrev turn_text : JobRecord → String → String → String → String → String → ArtifactFields
  turn_text job artifact_type title file_name mime_type text = record {
    artifact_type = artifact_type;
    title = title;
    content_text = some text;
    file_path = none;
    file_name = some file_name;
    mime_type = some mime_type;
    size_bytes = some (pos (len text));
    checksum_sha256 = some (env.sha256_hex text);
    metadata_json = some (
        env.dumps (
          obj (
            field "source" (str "turn_output") (
              field "artifact_kind" (str artifact_type)
                (field "job_id" (str job.id) (field "session_id" (str job.session_id) end))))));
  }

  unfoldable pub bundle_of :
      JobRecord → String → Option ArtifactFields → Exec World (List ArtifactRecord)
  bundle_of job created_at none = pure []
  bundle_of job created_at (some fields) = do
    created ← create_artifact job fields created_at
    pure (created ∷ [])

  abbrev pub output_fields : JobRecord → Option String → Option ArtifactFields
  output_fields job none = none
  output_fields job (some text) = some (
      turn_text job "final_text" (job.title <> " output") (job.id <> "-output.txt") "text/plain"
        text)

  abbrev pub diff_fields : JobRecord → Option String → Option ArtifactFields
  diff_fields job none = none
  diff_fields job (some text) =
      some (turn_text job "diff" (job.title <> " diff") (job.id <> ".diff") "text/x-diff" text)

  -- `int(value)` if the value is an `int`, which a `bool` is.
  abbrev as_int : Option Json → Option ℤ
  as_int (some (int n)) = some n
  as_int (some (bool true)) = some (pos 1)
  as_int (some (bool false)) = some (pos 0)
  as_int _ = none

  abbrev title_of : Option Json → String
  title_of none = "File artifact"
  title_of (some v) = text_of v

  unfoldable pub file_fields : Fields → ArtifactFields
  file_fields file = record {
    artifact_type = "file";
    title =
        title_of (
          or_json (get file "title") (or_json (get file "file_name") (some (str "File artifact"))));
    content_text = as_str (get file "content_text");
    file_path = as_str (get file "file_path");
    file_name = as_str (get file "file_name");
    mime_type = as_str (get file "mime_type");
    size_bytes = as_int (get file "size_bytes");
    checksum_sha256 = as_str (get file "checksum_sha256");
    metadata_json = some (env.dumps (obj file));
  }

  -- The loop over `payload["files"]`; what is no dict is passed over.
  unfoldable pub create_files : JobRecord → String → Items → Exec World (List ArtifactRecord)
  create_files job created_at nil = pure []
  create_files job created_at (cons (obj file) items) = do
    created ← create_artifact job (file_fields file) created_at
    rest ← create_files job created_at items
    pure (created ∷ rest)
  create_files job created_at (cons _ items) = create_files job created_at items

  abbrev files_of : Option Json → Items
  files_of (some (arr items)) = items
  files_of _ = nil

  -- `created_at` is given and is not empty.
  unfoldable pub create_artifacts_from_turn :
      JobRecord → Fields → String → Exec World (List ArtifactRecord)
  create_artifacts_from_turn job payload created_at = do
    output ← bundle_of job created_at (output_fields job (extract_text payload job))
    diff ← bundle_of job created_at (diff_fields job (stripped (as_str (get payload "diff"))))
    files ← create_files job created_at (files_of (get payload "files"))
    pure (output ++ diff ++ files)
