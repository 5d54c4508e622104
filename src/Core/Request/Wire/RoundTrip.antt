-- ===== src/Core/Request/Wire/RoundTrip.antt =====
-- The decoder accepts a request exactly with checked paths, and changes nothing of it.
use agent_knowledge.Prelude.{
  ◌≡◌, refl, sym, ap, Option, none, some, List, [], ◌∷◌, map, arith, ok, All, Text, text, Result,
  >>=-eq-ok, subst, ap₂, map_ok-eq-ok, ok-injective, reject, any, ◌==◌, nat_eq, ◌||◌,
  starts_with_char,
}
use agent_knowledge.Core.Path.{
  PathValidationError, ProjectId, parse_project_id, parse_payload_path, parse_attachment_name,
  validate_relative_path, validate_component, separator, hidden_component,
}
use agent_knowledge.Core.Request.{
  Operation, create_document, update_document, move_document, archive_document, add_attachment,
  ChangeRequest,
}
use agent_knowledge.Core.Request.Wire.{
  WireOperation, WireChangeRequest, parse_path, parse_optional_path, operation_try_from,
  operations_try_from, try_from, operation_to_wire, to_wire,
}

abbrev pub IsProject : Option ProjectId → Type 0
IsProject none = Unit
IsProject (some p) = parse_project_id p ≡ ok p

abbrev pub OperationHasPaths : Operation → Type 0
OperationHasPaths (create_document id content) = parse_payload_path content ≡ ok content
OperationHasPaths (update_document id expected content) = parse_payload_path content ≡ ok content
OperationHasPaths (move_document id expected project document_type) = IsProject project
OperationHasPaths (archive_document id expected) = Unit
OperationHasPaths (add_attachment id source name) =
    (parse_payload_path source ≡ ok source) × (parse_attachment_name name ≡ ok name)

-- The types of the path fields of a request: each was accepted by its parser.
abbrev pub HasPaths : ChangeRequest → Type 0
HasPaths r = IsProject r.project × All OperationHasPaths r.operations

-- A parser returns the text that it accepts.
abbrev Keeps : (Text → Result PathValidationError Text) → Type 0
Keeps parse = (v w : Text) → parse v ≡ ok w → v ≡ w

Keeps-project : Keeps parse_project_id
unfolding parse_project_id
Keeps-project v w h = ground arith

Keeps-payload : Keeps parse_payload_path
unfolding parse_payload_path
Keeps-payload v w h =
    let (_, _, e) = >>=-eq-ok (validate_relative_path v) (λ _. ok v) h in ground arith

Keeps-attachment : Keeps parse_attachment_name
unfolding parse_attachment_name
Keeps-attachment v w h =
    let (_, _, h') = >>=-eq-ok (reject (any (λ c. c == b'/' || c == b'\\') v) separator) _ h in
    let (_, _, h'') = >>=-eq-ok (validate_component v) _ h' in
    let (_, _, e) = >>=-eq-ok (reject (starts_with_char b'.' v) hidden_component) (λ _. ok v) h'' in
    ground arith

module _ (parse : Text → Result PathValidationError Text) (keeps : Keeps parse) where
  parse_path_sound :
      (field v w : Text) → parse_path parse field v ≡ ok w → (w ≡ v) × (parse w ≡ ok w)
  unfolding parse_path
  parse_path_sound field v w h =
      let e : parse v ≡ ok w = ground arith in
      let same = keeps v w e in (sym same, subst (λ t. parse t ≡ ok w) same e)

  parse_path_complete : (field v : Text) → parse v ≡ ok v → parse_path parse field v ≡ ok v
  unfolding parse_path
  parse_path_complete field v h = ground arith

IsProject-sound :
    (field : Text) (v w : Option Text)
    → parse_optional_path parse_project_id field v ≡ ok w
    → (w ≡ v) × IsProject w
unfolding parse_optional_path
IsProject-sound field none w h = ground arith
IsProject-sound field (some v) none h = ground arith
IsProject-sound field (some v) (some w) h =
    let (same, accepted) =
      parse_path_sound parse_project_id Keeps-project field v w (ground arith) in
    (ap some same, accepted)

project_complete :
    (field : Text) (v : Option Text)
    → IsProject v
    → parse_optional_path parse_project_id field v ≡ ok v
unfolding parse_optional_path
project_complete field none h = refl
project_complete field (some v) h =
    rw (parse_path_complete parse_project_id Keeps-project field v h)

-- What the conversion of one operation promises of its result.
abbrev Converts : WireOperation → Operation → Type 0
Converts w op = (operation_to_wire op ≡ w) × OperationHasPaths op

operation_sound :
    (w : WireOperation) (op : Operation) → operation_try_from w ≡ ok op → Converts w op
unfolding operation_try_from operation_to_wire
operation_sound (WireOperation.create_document id v) op h =
    let (t, e, same) = map_ok-eq-ok (create_document id) _ h in
    let (eq, accepted) = parse_path_sound parse_payload_path Keeps-payload _ v t e in
    subst (Converts (WireOperation.create_document id v)) same
      (ap (WireOperation.create_document id) eq, accepted)
operation_sound (WireOperation.update_document id r v) op h =
    let (t, e, same) = map_ok-eq-ok (update_document id r) _ h in
    let (eq, accepted) = parse_path_sound parse_payload_path Keeps-payload _ v t e in
    subst (Converts (WireOperation.update_document id r v)) same
      (ap (WireOperation.update_document id r) eq, accepted)
operation_sound (WireOperation.move_document id r p t) op h =
    let (q, e, same) = >>=-eq-ok (parse_optional_path parse_project_id (text "project") p) _ h in
    let (eq, accepted) = IsProject-sound _ p q e in
    subst (Converts (WireOperation.move_document id r p t)) (ok-injective same)
      (ap (λ x. WireOperation.move_document id r x t) eq, accepted)
operation_sound (WireOperation.archive_document id r) op h = ground arith
operation_sound (WireOperation.add_attachment id v n) op h =
    let (t, e, h') = >>=-eq-ok (parse_path parse_payload_path (text "source") v) _ h in
    let (u, f, same) = >>=-eq-ok (parse_path parse_attachment_name (text "name") n) _ h' in
    let (eq, accepted) = parse_path_sound parse_payload_path Keeps-payload _ v t e in
    let (eq', accepted') = parse_path_sound parse_attachment_name Keeps-attachment _ n u f in
    subst (Converts (WireOperation.add_attachment id v n)) (ok-injective same)
      (ap₂ (WireOperation.add_attachment id) eq eq', (accepted, accepted'))

operation_complete :
    (op : Operation) → OperationHasPaths op → operation_try_from (operation_to_wire op) ≡ ok op
unfolding operation_try_from operation_to_wire
operation_complete (create_document id v) h =
    rw (parse_path_complete parse_payload_path Keeps-payload (text "content") v h)
operation_complete (update_document id r v) h =
    rw (parse_path_complete parse_payload_path Keeps-payload (text "content") v h)
operation_complete (move_document id r p t) h = rw (project_complete (text "project") p h)
operation_complete (archive_document id r) h = refl
operation_complete (add_attachment id v n) h =
    rw (parse_path_complete parse_payload_path Keeps-payload (text "source") v h.0)
      (rw (parse_path_complete parse_attachment_name Keeps-attachment (text "name") n h.1))

operations_sound :
    (ws : List WireOperation) (ops : List Operation)
    → operations_try_from ws ≡ ok ops
    → (map operation_to_wire ops ≡ ws) × All OperationHasPaths ops
unfolding operations_try_from
operations_sound [] ops h = ground arith
operations_sound (w ∷ ws) ops h =
    let (op, e, h') = >>=-eq-ok (operation_try_from w) _ h in
    let (rest, f, same) = >>=-eq-ok (operations_try_from ws) _ h' in
    let (eq, paths) = operation_sound w op e in
    let (eqs, all_paths) = operations_sound ws rest f in
    subst (λ l. (map operation_to_wire l ≡ w ∷ ws) × All OperationHasPaths l) (ok-injective same)
      (ap₂ (λ x xs. x ∷ xs) eq eqs, (paths, all_paths))

operations_complete :
    (ops : List Operation)
    → All OperationHasPaths ops
    → operations_try_from (map operation_to_wire ops) ≡ ok ops
unfolding operations_try_from
operations_complete [] h = refl
operations_complete (op ∷ ops) (h, hs) =
    rw (operation_complete op h) (rw (operations_complete ops hs))

-- A request whose paths are all accepted by their parsers is decoded from its JSON form unchanged.
pub try_from-to_wire : (r : ChangeRequest) → HasPaths r → try_from (to_wire r) ≡ ok r
unfolding try_from to_wire
try_from-to_wire r (project, paths) =
    rw (project_complete (text "project") r.project project)
      (rw (operations_complete r.operations paths))

-- Whatever is decoded carries only accepted paths, and its JSON form is the one that was read.
pub to_wire-try_from :
    (w : WireChangeRequest) (r : ChangeRequest) → try_from w ≡ ok r → (to_wire r ≡ w) × HasPaths r
unfolding try_from to_wire
to_wire-try_from w r h =
    let (p, e, h') =
      >>=-eq-ok (parse_optional_path parse_project_id (text "project") w.project) _ h in
    let (ops, f, same) = >>=-eq-ok (operations_try_from w.operations) _ h' in
    let (eq, project) = IsProject-sound _ w.project p e in
    let (eqs, paths) = operations_sound w.operations ops f in
    subst (λ x. (to_wire x ≡ w) × HasPaths x) (ok-injective same)
      (ap₂ (λ x xs. record w { project = x; operations = xs }) eq eqs, (project, paths))
