-- ===== src/Core/Request/Tests.antt =====
-- One request: its validation, and its JSON form.
use agent_knowledge.Prelude.{◌≡◌, refl, ◌↔◌, none, some, [], ◌∷◌, ok, text, bytes, split, list_beq}
use agent_knowledge.Core.Path.{parse_project_id, parse_payload_path, parse_attachment_name}
use agent_knowledge.Core.Document.{runbook}
use agent_knowledge.Core.Document.Tests.{noon}
use agent_knowledge.Core.Request.{
  ChangeRequest, create_document, add_attachment, default_limits, validate,
}
use agent_knowledge.Core.Request.Validation.{IsRequest, validate-IsRequest_iff}
use agent_knowledge.Core.Request.Wire.{try_from, to_wire}
use agent_knowledge.Core.Request.Wire.RoundTrip.{HasPaths, try_from-to_wire, to_wire-try_from}

abbrev solver_request : ChangeRequest
solver_request = record {
  protocol_version = 1;
  request_id = 9;
  title = text "Add solver notes";
  project = some (text "cuda");
  document_type = runbook;
  node = none;
  agent = none;
  session = none;
  created_at = noon;
  operations =
      create_document 7 (text "notes.md")
      ∷ (add_attachment 7 (text "data/r.csv") (text "r.csv") ∷ []);
}

has_paths : HasPaths solver_request
unfolding parse_project_id parse_payload_path parse_attachment_name bytes split list_beq
has_paths = (refl, (refl, ((refl, refl), tt)))

validate-IsRequest_iff_example :
    (validate solver_request default_limits ≡ ok tt) ↔ IsRequest default_limits solver_request
validate-IsRequest_iff_example = validate-IsRequest_iff solver_request default_limits

try_from-to_wire_example : try_from (to_wire solver_request) ≡ ok solver_request
try_from-to_wire_example = try_from-to_wire solver_request has_paths

to_wire-try_from_example :
    (to_wire solver_request ≡ to_wire solver_request) × HasPaths solver_request
to_wire-try_from_example =
    to_wire-try_from (to_wire solver_request) solver_request
      (try_from-to_wire solver_request has_paths)
