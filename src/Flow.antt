-- ===== src/Flow.antt =====
-- internal/flowspec/flow.go: the flow definition that the API stores and the worker runs.
use Prim.Native.Nat.{ℕ}
use Prim.Native.String.{String}
use mathlib.Core.Option.{Option}
use mathlib.Core.List.{List}
use mywork_automate.Prelude.{ℤ}

-- `json.RawMessage`, as its bytes.
abbrev pub RawMessage : Type 0
RawMessage = List ℕ

pub record RetryPolicy : Type 0 where
  pub max_attempts : ℤ
  pub initial_interval_seconds : ℤ

pub record NodeDef : Type 0 where
  pub id : String
  pub type : String
  pub name : String
  pub config : RawMessage
  pub on_error : String
  pub retry : Option RetryPolicy

pub record EdgeDef : Type 0 where
  pub source : String
  pub target : String
  pub label : String

pub record NotificationSettings : Type 0 where
  pub failure_emails : List String

pub record Settings : Type 0 where
  pub notification : Option NotificationSettings

pub record FlowDef : Type 0 where
  pub nodes : List NodeDef
  pub edges : List EdgeDef
  pub settings : Option Settings
