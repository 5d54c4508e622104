-- ===== src/Repository/Layout.antt =====
-- Where documents stand in the content tree: the path functions of crates/repository/src/apply.rs and
-- of crates/repository/src/index.rs. A relative `PathBuf` is the list of its components; a name that
-- is pushed is one component, as it holds no slash: a project is a slug, and a ULID is letters and
-- digits.
use agent_knowledge.Prelude.{
  ℕ, zero, suc, ◌+◌, ◌-◌, ◌/◌, ◌%◌, Bool, Option, none, some, List, [], ◌∷◌, ◌++◌, ltb, ◌==◌,
  nat_eq, list_eq, if◌then◌else◌, length, Text, text,
}
use agent_knowledge.Core.Path.{ProjectId}
use agent_knowledge.Core.Time.{OffsetDateTime}
use agent_knowledge.Core.Document.{
  DocumentType, index, log, experiment, decision, runbook, reference, type_eq,
}

abbrev pub RelativePath : Type 0
RelativePath = List Text

abbrev pub index_file : Text
index_file = text "index.md"

-- `format!("{n}")`, on fuel above the number of digits.
decimal : ℕ → ℕ → Text
decimal zero n = []
decimal (suc fuel) n =
    let rest = decimal fuel (n / 10) ++ ((b'0' + n % 10) ∷ []) in
    if ltb n 10 then (b'0' + n) ∷ [] else rest

zeros : ℕ → Text
zeros zero = []
zeros (suc n) = b'0' ∷ zeros n

-- `format!("{n:0width$}")`. A number has no more digits than it has units, and one at least.
unfoldable pub padded : ℕ → ℕ → Text
unfolding decimal zeros
padded width n = let digits = decimal (suc n) n in zeros (width - length digits) ++ digits

-- `parent` and `file_name`
unfoldable pub parent : RelativePath → Option RelativePath
parent [] = none
parent (p ∷ []) = some []
parent (p ∷ (q ∷ ps)) = elim (parent (q ∷ ps)) [ none ↦ some [] | some dir ↦ some (p ∷ dir) ]

unfoldable pub file_name : RelativePath → Option Text
file_name [] = none
file_name (p ∷ []) = some p
file_name (p ∷ (q ∷ ps)) = file_name (q ∷ ps)

abbrev pub category_name : DocumentType → Text
category_name index = []
category_name log = text "logs"
category_name experiment = text "experiments"
category_name decision = text "decisions"
category_name runbook = text "runbooks"
category_name reference = text "references"

-- `year-month-day-id` and `hour minute second-id`.
unfoldable pub dated_name : OffsetDateTime → Text → Text
unfolding padded
dated_name t id =
    padded 4 t.year ++ (b'-' ∷ (padded 2 t.month ++ (b'-' ∷ (padded 2 t.day ++ (b'-' ∷ id)))))

unfoldable pub timed_name : OffsetDateTime → Text → Text
unfolding padded
timed_name t id = padded 2 t.hour ++ (padded 2 t.minute ++ (padded 2 t.second ++ (b'-' ∷ id)))

abbrev pub index_path : Option ProjectId → RelativePath
index_path none = index_file ∷ []
index_path (some project) = text "projects" ∷ project ∷ index_file ∷ []

abbrev pub category_path : Option ProjectId → Text → RelativePath
category_path none category = text "inbox" ∷ category ∷ []
category_path (some project) category = text "projects" ∷ project ∷ category ∷ []

abbrev pub archive_category_path : Option ProjectId → Text → RelativePath
archive_category_path none category = text "archive" ∷ category ∷ []
archive_category_path (some project) category =
    text "projects" ∷ project ∷ text "archive" ∷ category ∷ []

-- The directories of the day, in which logs stand.
abbrev pub day_path : OffsetDateTime → RelativePath
day_path t = padded 4 t.year ∷ padded 2 t.month ∷ padded 2 t.day ∷ []

-- `document_id.to_string()` is the third argument of the path functions.
unfoldable pub create_document_path :
    Option ProjectId → DocumentType → OffsetDateTime → Text → RelativePath
create_document_path project document_type created id =
    if document_type == index
    then index_path project
    else category_path project (category_name document_type)
      ++ (if document_type == log
          then day_path created ++ (timed_name created id ∷ index_file ∷ [])
          else dated_name created id ∷ index_file ∷ [])

unfoldable pub bundle_name_of : RelativePath → Text → Text
unfolding parent file_name
bundle_name_of path id = elim (parent path) [
  | none ↦ id
  | some dir ↦ elim (file_name dir) [ none ↦ id | some name ↦ name ]
]

unfoldable pub archive_document_path :
    Option ProjectId → DocumentType → RelativePath → Text → RelativePath
archive_document_path project document_type relative_path id =
    archive_category_path project (category_name document_type)
    ++ (bundle_name_of relative_path id ∷ index_file ∷ [])

unfoldable pub bundle_path : RelativePath → DocumentType → RelativePath
bundle_path path document_type =
    if document_type == index then path else elim (parent path) [ none ↦ path | some dir ↦ dir ]

pub record DocumentLocation : Type 0 where
  pub document_type : DocumentType
  pub project : Option ProjectId
  pub archived : Bool

-- The error of the index that concerns the layout.
pub data LayoutError : Type 0 where
  invalid_document_path : RelativePath → LayoutError

abbrev pub parse_category : Text → Option DocumentType
parse_category category =
    if category == text "logs"
    then some log
    else if category == text "experiments"
    then some experiment
    else if category == text "decisions"
    then some decision
    else if category == text "runbooks"
    then some runbook
    else if category == text "references"
    then some reference
    else none
