-- ===== src/Repository/Apply/Plan/Sample.antt =====
-- A small repository and a request, on which the planning runs: one runbook of the project `cuda`, and
-- a YAML library that knows three texts and refuses input over its limit.
use agent_knowledge.Prelude.{
  ℕ, ◌+◌, Bool, true, false, ◌&&◌, none, some, List, [], ◌∷◌, ◌==◌, PartialEq, nat_eq, list_eq,
  option_eq, ◌≡◌, ◌↔◌, arith, ltb, length, ==_iff, if◌then◌else◌, Result, ok, err, Bytes, text,
}
use agent_knowledge.Core.Time.{OffsetDateTime}
use agent_knowledge.Core.Document.{
  DocumentMetadata, DocumentType, archived, status_eq, runbook, decision, default_limits,
}
use agent_knowledge.Core.Document.Tests.{noon, solver_notes}
use agent_knowledge.Core.Request.{Operation, ChangeRequest}
use agent_knowledge.Repository.Layout.{RelativePath, create_document_path}
use agent_knowledge.Repository.Index.{Crates, ContentPolicy, ContentIndex, DocumentRecord}
use agent_knowledge.Repository.Apply.{ValidatedPackage, Files, missing}
use agent_knowledge.Repository.Apply.Plan.{Setting}

abbrev pub later : ℕ → OffsetDateTime
later n = record noon { instant = 1000 + n }

unfoldable pub time_beq : OffsetDateTime → OffsetDateTime → Bool
time_beq a b =
    a.instant == b.instant
    && (a.year == b.year
        && (a.month == b.month
            && (a.day == b.day
                && (a.hour == b.hour && (a.minute == b.minute && a.second == b.second)))))

time_beq_iff : (a b : OffsetDateTime) → (time_beq a b ≡ true) ↔ (a ≡ b)
unfolding time_beq
time_beq_iff a b = ground (arith, ==_iff {A = ℕ})

instance abbrev time_eq : PartialEq OffsetDateTime
time_eq = record { eq = time_beq; eq_iff = time_beq_iff }

unfoldable pub metadata_beq : DocumentMetadata → DocumentMetadata → Bool
metadata_beq a b =
    a.schema_version == b.schema_version
    && (a.document_id == b.document_id
        && (a.title == b.title
            && (a.created == b.created
                && (a.updated == b.updated
                    && (a.node == b.node
                        && (a.agent == b.agent
                            && (a.session == b.session
                                && (a.request_id == b.request_id
                                    && (a.tags == b.tags
                                        && (a.status == b.status
                                            && a.superseded_by == b.superseded_by))))))))))

pub metadata_beq_sound : (a b : DocumentMetadata) → metadata_beq a b ≡ true → a ≡ b
unfolding metadata_beq
metadata_beq_sound a b h = ground (
  arith,
  ==_iff a.schema_version b.schema_version,
  ==_iff a.document_id b.document_id,
  ==_iff a.title b.title,
  ==_iff a.created b.created,
  ==_iff a.updated b.updated,
  ==_iff a.node b.node,
  ==_iff a.agent b.agent,
  ==_iff a.session b.session,
  ==_iff a.request_id b.request_id,
  ==_iff a.tags b.tags,
  ==_iff a.status b.status,
  ==_iff a.superseded_by b.superseded_by,
)

abbrev pub revised_notes : DocumentMetadata
revised_notes = record solver_notes { updated = some (later 100) }

-- The metadata of the runbook when request 9 archives it at the operation time.
abbrev pub archived_notes : DocumentMetadata
archived_notes = record solver_notes {
  updated = some (later 500);
  request_id = 9;
  status = archived;
}

abbrev pub known_texts : ℕ → Bytes → Result ℕ DocumentMetadata
known_texts maximum yaml =
    if ltb maximum (length yaml)
    then err 1
    else if yaml == text "a\n"
    then ok solver_notes
    else if yaml == text "b\n"
    then ok revised_notes
    else if yaml == text "c\n"
    then ok archived_notes
    else err 0

-- The digest of a text is the text, here.
abbrev pub crates : Crates
crates = record {
  sha256 = λ bytes. bytes;
  decode_yaml = known_texts;
  encode_yaml = λ m. if metadata_beq m archived_notes then ok (text "c\n") else err 0;
  ulid_text = λ id. text "A";
}

abbrev pub first_text : Bytes
first_text = text "---\na\n---\nHi\n"

abbrev pub archived_text : Bytes
archived_text = text "---\nc\n---\nHi\n"

abbrev pub second_text : Bytes
second_text = text "---\nb\n---\nHo\n"

abbrev pub policy : ContentPolicy
policy = record {
  maximum_markdown_bytes = 1000;
  maximum_front_matter_bytes = 100;
  document = default_limits;
}

abbrev pub notes_path : RelativePath
notes_path = create_document_path (some (text "cuda")) runbook noon (text "A")

abbrev pub indexed : DocumentRecord
indexed = record {
  relative_path = notes_path;
  location = record { document_type = runbook; project = some (text "cuda"); archived = false };
  metadata = solver_notes;
  revision = first_text;
  byte_length = 13;
}

abbrev pub files : Files
files = record {
  stat = λ path. missing;
  payload = λ path. some (if path == text "u.md" then second_text else first_text);
  content = λ path. some first_text;
}

abbrev pub request_of : DocumentType → List Operation → ChangeRequest
request_of t operations = record {
  protocol_version = 1;
  request_id = 9;
  title = text "Notes";
  project = some (text "cuda");
  document_type = t;
  node = none;
  agent = none;
  session = none;
  created_at = noon;
  operations = operations;
}

abbrev pub claimed : List Operation → ValidatedPackage
claimed operations = record {
  request = request_of runbook operations;
  accepted_at = some (later 500);
  payload =
      record { path = text "c.md"; byte_length = 13; revision = first_text }
      ∷ (record { path = text "u.md"; byte_length = 13; revision = second_text } ∷ []);
}

abbrev pub contents : ContentIndex
contents = record { documents = (7, indexed) ∷ [] }

abbrev pub setting : Setting
setting = record {
  crates = crates;
  files = files;
  claimed = claimed [];
  contents = contents;
  policy = policy;
  maximum_planned_bytes = 100;
  operation_time = later 500;
}

-- The same for a request for decisions.
abbrev pub moved_setting : Setting
moved_setting = record setting {
  claimed = record (claimed []) { request = request_of decision [] };
}
