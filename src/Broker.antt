-- ===== src/Broker.antt =====
-- internal/broker/broker.go and internal/broker/storage.go: the human gates. Times are milliseconds,
-- as the table `gates` keeps them.
pub mod Gates
pub mod Table
pub mod Rules
pub mod Changes
pub mod Answers
pub mod Stays
pub mod Expiry
mod Examples
use local_engineer.Prelude.{
  ℕ, ◌+◌, Bool, true, false, not, ◌&&◌, ◌||◌, List, [], ◌∷◌, ◌++◌, Option, none, some, ltb,
  if◌then◌else◌, take, length, is_empty,
}
use local_engineer.GoStrings.{Text, codes}
use local_engineer.GoStrings.Decimal.{decimal}
use local_engineer.Graph.{Impact}

pub data Kind : Type 0 where
  plan impact out_of_scope budget apply : Kind

pub data Decision : Type 0 where
  pending approved rejected expired : Decision

-- `WorkspaceID` is the same for every gate of a workspace's database and is left out.
pub record Gate : Type 0 where
  pub id : Text
  pub task_id : Text
  pub kind : Kind
  pub question : Text
  pub evidence : Text
  pub candidate : Text
  pub decision : Decision
  pub decided_by : Text
  pub note : Text
  pub created_at : ℕ
  pub decided_at : Option ℕ
  pub expires_at : Option ℕ

-- `Open`.
abbrev pub is_open : Decision → Bool
is_open pending = true
is_open _ = false

pub record Policy : Type 0 where
  pub require_for_breaking : Bool
  pub require_for_out_of_scope : Bool
  pub require_for_apply : Bool
  pub require_for_plan : Bool
  pub max_breaking_auto : ℕ
  pub timeout : ℕ

abbrev pub default_policy : Policy
default_policy = record {
  require_for_breaking = true;
  require_for_out_of_scope = true;
  require_for_apply = true;
  require_for_plan = false;
  max_breaking_auto = 0;
  timeout = 0;
}

abbrev pub permissive : Policy
permissive = record {
  require_for_breaking = false;
  require_for_out_of_scope = false;
  require_for_apply = false;
  require_for_plan = false;
  max_breaking_auto = 0;
  timeout = 0;
}

-- The plan, a value of any type that is only encoded, is left out.
pub record Evidence : Type 0 where
  pub summary : Text
  pub impact_report : Option Impact
  pub breaking_count : ℕ
  pub outside : List Text
  pub diff : Text
  pub findings : List Text
  pub policy_reasons : List Text
  pub review_concerns : List Text

breaking_needs : Policy → ℕ → Option Text
breaking_needs p breaking =
    if p.require_for_breaking && ltb 0 breaking
    then some (codes "the change breaks " ++ decimal breaking ++ codes " consumer(s)")
    else if not p.require_for_breaking && ltb p.max_breaking_auto breaking
    then some (
        decimal breaking
        ++ codes " breaking consumer(s) exceeds the automatic limit of "
        ++ decimal p.max_breaking_auto)
    else none

-- `Needs`: the reason, when a person has to decide.
unfoldable pub needs : Policy → Kind → Evidence → Option Text
unfolding breaking_needs
needs p plan ev =
    if p.require_for_plan then some (codes "the policy gates plans before they run") else none
needs p impact ev = breaking_needs p ev.breaking_count
needs p out_of_scope ev =
    if p.require_for_out_of_scope && not (is_empty ev.outside)
    then some (decimal (length ev.outside) ++ codes " file(s) changed outside the declared scope")
    else none
needs p apply ev =
    if p.require_for_apply then some (codes "the policy gates applying a change") else none
needs p budget ev = some (codes "extending a budget is not a decision the system makes for itself")

abbrev max_diff_in_gate : ℕ
max_diff_in_gate = 40_000

-- `…` is three bytes.
abbrev truncation_note : Text
truncation_note =
    b'\n'
      ∷ 226
      ∷ 128
      ∷ 166
      ∷ codes " diff truncated; inspect the task worktree for the whole change"
    ++ b'\n' ∷ []

abbrev pub bounded : Evidence → Evidence
bounded ev =
    if ltb max_diff_in_gate (length ev.diff)
    then record ev { diff = take max_diff_in_gate ev.diff ++ truncation_note }
    else ev

abbrev pub kind_name : Kind → Text
kind_name plan = codes "plan"
kind_name impact = codes "impact"
kind_name out_of_scope = codes "out_of_scope"
kind_name budget = codes "budget"
kind_name apply = codes "apply"

-- `gateID`: `fresh` is what follows the kind when no candidate names the gate, the clock and random
-- bytes.
unfoldable pub gate_id : Text → Text → Kind → Text → Text
gate_id fresh task kind candidate =
    codes "gate-"
    ++ task
    ++ codes "-"
    ++ kind_name kind
    ++ codes "-"
    ++ (if is_empty candidate then fresh else take 12 candidate)

-- Past its deadline: `ExpiresAt != nil && now.After(*ExpiresAt)`.
abbrev pub past : ℕ → Option ℕ → Bool
past now none = false
past now (some t) = ltb t now
