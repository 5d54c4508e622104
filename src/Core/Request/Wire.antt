-- ===== src/Core/Request/Wire.antt =====
-- The JSON form of a change request once `serde_json` has read it, with texts where the request has
-- checked paths, and the conversion of one into the other.
pub mod RoundTrip
use agent_knowledge.Prelude.{
  ℕ, Option, none, some, List, [], ◌∷◌, map, Result, ok, err, ◌>>=◌, map_err, map_ok, Text, text,
}
use agent_knowledge.Core.Time.{OffsetDateTime}
use agent_knowledge.Core.Id.{DocumentId, RequestId, SessionId}
use agent_knowledge.Core.Revision.{Revision}
use agent_knowledge.Core.Path.{
  PathValidationError, parse_project_id, parse_payload_path, parse_attachment_name,
}
use agent_knowledge.Core.Document.{DocumentType}
use agent_knowledge.Core.Request.{Operation, ChangeRequest}

pub data WireOperation : Type 0 where
  create_document : DocumentId → Text → WireOperation
  update_document : DocumentId → Revision → Text → WireOperation
  move_document : DocumentId → Revision → Option Text → DocumentType → WireOperation
  archive_document : DocumentId → Revision → WireOperation
  add_attachment : DocumentId → Text → Text → WireOperation

pub record WireChangeRequest : Type 0 where
  pub protocol_version : ℕ
  pub request_id : RequestId
  pub title : Text
  pub project : Option Text
  pub document_type : DocumentType
  pub node : Option Text
  pub agent : Option Text
  pub session : Option SessionId
  pub created_at : OffsetDateTime
  pub operations : List WireOperation

-- `Json`, the failure of `serde_json`, cannot come from the conversion and is left out.
pub data RequestDecodeError : Type 0 where
  invalid_path : Text → PathValidationError → RequestDecodeError

-- `parse_path`, with the `TryFrom` instance of the field's type as its first argument.
unfoldable pub parse_path :
    (Text → Result PathValidationError Text) → Text → Text → Result RequestDecodeError Text
parse_path parse field value = map_err (invalid_path field) (parse value)

unfoldable pub parse_optional_path :
    (Text → Result PathValidationError Text)
    → Text
    → Option Text
    → Result RequestDecodeError (Option Text)
unfolding parse_path
parse_optional_path parse field none = ok none
parse_optional_path parse field (some value) = map_ok some (parse_path parse field value)

unfoldable pub operation_try_from : WireOperation → Result RequestDecodeError Operation
operation_try_from (create_document id content) =
    map_ok (Operation.create_document id) (parse_path parse_payload_path (text "content") content)
operation_try_from (update_document id expected content) =
    map_ok (Operation.update_document id expected)
      (parse_path parse_payload_path (text "content") content)
operation_try_from (move_document id expected project document_type) = do
  project' ← parse_optional_path parse_project_id (text "project") project
  ok (Operation.move_document id expected project' document_type)
operation_try_from (archive_document id expected) = ok (Operation.archive_document id expected)
operation_try_from (add_attachment id source name) = do
  source' ← parse_path parse_payload_path (text "source") source
  name' ← parse_path parse_attachment_name (text "name") name
  ok (Operation.add_attachment id source' name')

-- `map(Operation::try_from).collect::<Result<_, _>>()`
unfoldable pub operations_try_from : List WireOperation → Result RequestDecodeError (List Operation)
operations_try_from [] = ok []
operations_try_from (op ∷ ops) = do
  op' ← operation_try_from op
  ops' ← operations_try_from ops
  ok (op' ∷ ops')

unfoldable pub try_from : WireChangeRequest → Result RequestDecodeError ChangeRequest
try_from w = do
  project' ← parse_optional_path parse_project_id (text "project") w.project
  operations' ← operations_try_from w.operations
  ok (record {
    protocol_version = w.protocol_version;
    request_id = w.request_id;
    title = w.title;
    project = project';
    document_type = w.document_type;
    node = w.node;
    agent = w.agent;
    session = w.session;
    created_at = w.created_at;
    operations = operations';
  })

-- What the derived `Serialize` writes: the checked paths as their texts.
unfoldable pub operation_to_wire : Operation → WireOperation
operation_to_wire (Operation.create_document id content) = create_document id content
operation_to_wire (Operation.update_document id expected content) =
    update_document id expected content
operation_to_wire (Operation.move_document id expected project document_type) =
    move_document id expected project document_type
operation_to_wire (Operation.archive_document id expected) = archive_document id expected
operation_to_wire (Operation.add_attachment id source name) = add_attachment id source name

unfoldable pub to_wire : ChangeRequest → WireChangeRequest
to_wire r = record {
  protocol_version = r.protocol_version;
  request_id = r.request_id;
  title = r.title;
  project = r.project;
  document_type = r.document_type;
  node = r.node;
  agent = r.agent;
  session = r.session;
  created_at = r.created_at;
  operations = map operation_to_wire r.operations;
}
