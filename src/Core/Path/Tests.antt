-- ===== src/Core/Path/Tests.antt =====
-- The unit tests of crates/core/src/path.rs, and the laws of paths at single texts.
use agent_knowledge.Prelude.{
  ◌≡◌, refl, ◌↔◌, ok, err, text, bytes, split, list_beq, some, false, [], ◌++◌, reverse,
  starts_with_char,
}
use agent_knowledge.Core.Path.{
  traversal, absolute, backslash, empty_component, hidden_component, separator, invalid_project_id,
  parse_project_id, parse_payload_path, parse_attachment_name,
}
use agent_knowledge.Core.Path.Components.{IsPayloadPath, parse_payload_path_iff}
use agent_knowledge.Core.Path.Traversal.{walk, walk-payload_path}

project_ids :
    (parse_project_id (text "cuda-solver") ≡ ok (text "cuda-solver"))
    × (parse_project_id (text "CUDA") ≡ err invalid_project_id)
    × (parse_project_id (text "-cuda") ≡ err invalid_project_id)
unfolding parse_project_id bytes
project_ids = (refl, refl, refl)

payload_paths :
    (parse_payload_path (text "experiment/results.csv") ≡ ok (text "experiment/results.csv"))
    × (parse_payload_path (text "../secret") ≡ err traversal)
    × (parse_payload_path (text "/absolute") ≡ err absolute)
    × (parse_payload_path (text "directory\\file") ≡ err backslash)
    × (parse_payload_path (text "directory//file") ≡ err empty_component)
unfolding parse_payload_path bytes split list_beq
payload_paths = (refl, refl, refl, refl, refl)

attachment_names :
    (parse_attachment_name (text "results.csv") ≡ ok (text "results.csv"))
    × (parse_attachment_name (text ".hidden") ≡ err hidden_component)
    × (parse_attachment_name (text "directory/file") ≡ err separator)
unfolding parse_attachment_name bytes list_beq
attachment_names = (refl, refl, refl)

parse_payload_path_iff_example :
    (parse_payload_path (text "a/b.csv") ≡ ok (text "a/b.csv"))
    ↔ ((text "a/b.csv" ≡ text "a/b.csv") × IsPayloadPath (text "a/b.csv"))
parse_payload_path_iff_example = parse_payload_path_iff (text "a/b.csv") (text "a/b.csv")

walk-payload_path_example :
    (starts_with_char b'/' (text "a/b.csv") ≡ false)
    × (walk (split b'/' (text "a/b.csv")) [] ≡ some (reverse (split b'/' (text "a/b.csv")) ++ []))
unfolding parse_payload_path bytes split list_beq
walk-payload_path_example = walk-payload_path (text "a/b.csv") [] refl
