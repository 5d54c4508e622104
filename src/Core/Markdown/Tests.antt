-- ===== src/Core/Markdown/Tests.antt =====
-- The sections of one document.
use agent_knowledge.Prelude.{
  ◌≡◌, refl, ◌≤◌, true, ok, arith, length, Bytes, text, is_utf8, list_beq,
}
use agent_knowledge.Core.Markdown.{markdown_body, split_inclusive, is_delimiter}
use agent_knowledge.Core.Markdown.Sections.{IsCut, extract_front_matter_cuts}
use agent_knowledge.Core.Markdown.Assembly.{assemble, IsFrontMatter, extract_front_matter-assemble}

abbrev pub titled : Bytes
titled = text "title: x\n"

abbrev pub hello : Bytes
hello = text "Hello\n---\n"

pub titled-IsFrontMatter : IsFrontMatter titled
unfolding split_inclusive is_delimiter list_beq
titled-IsFrontMatter = record { whole_lines = refl; content = (refl, tt) }

valid : is_utf8 (assemble titled hello) ≡ true
unfolding is_utf8
valid = refl

extract_front_matter_cuts_example :
    (body : Bytes) × (markdown_body (assemble titled hello) ≡ ok body)
    × IsCut (assemble titled hello) titled body
    × (length titled ≤ 100)
extract_front_matter_cuts_example =
    extract_front_matter_cuts (assemble titled hello) 100 titled valid
      (extract_front_matter-assemble titled hello titled-IsFrontMatter 100 (omega arith))
