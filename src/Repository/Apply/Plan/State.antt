-- ===== src/Repository/Apply/Plan/State.antt =====
-- What `build_plan` of crates/repository/src/apply.rs works on: its arguments, and the variables that
-- its loop changes.
use agent_knowledge.Prelude.{
  ℕ, Bool, true, false, Option, none, some, List, [], nat_eq, list_eq, option_eq, Result,
}
use agent_knowledge.Core.Time.{OffsetDateTime, is_before}
use agent_knowledge.Core.Request.{ChangeRequest}
use agent_knowledge.Core.Document.{type_eq, status_eq}
use agent_knowledge.Repository.Index.{Crates, ContentPolicy, ContentIndex}
use agent_knowledge.Repository.Apply.{
  ValidatedPackage, Files, PlannedMutation, ApplyError, Documents,
}
use agent_knowledge.Repository.Apply.Occupancy.{Entries}

-- The arguments of `build_plan`, and the operation time that it computes from them.
pub record Setting : Type 0 where
  pub crates : Crates
  pub files : Files
  pub claimed : ValidatedPackage
  pub contents : ContentIndex
  pub policy : ContentPolicy
  pub maximum_planned_bytes : ℕ
  pub operation_time : OffsetDateTime

pub record Planning : Type 0 where
  pub plan : List PlannedMutation
  pub documents : Documents
  pub occupancy : Entries
  pub planned_bytes : ℕ

abbrev pub Planned : Type 0
Planned = Result ApplyError Planning

-- `updated.is_some_and(|updated| updated > operation_time)`
abbrev pub updated_after : Option OffsetDateTime → OffsetDateTime → Bool
updated_after none time = false
updated_after (some updated) time = is_before time updated

abbrev pub is_some {ℓ} : {A : Type ℓ} → Option A → Bool
is_some none = false
is_some (some a) = true

abbrev pub request : Setting → ChangeRequest
request s = s.claimed.request

abbrev pub empty_planning : Planning
empty_planning = record { plan = []; documents = []; occupancy = []; planned_bytes = 0 }
