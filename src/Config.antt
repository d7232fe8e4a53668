-- ===== src/Config.antt =====
-- internal/config/config.go: the decoded runcd.yaml. A slice for which the code tells nil from
-- empty is an Option of a list, a pointer is an Option, a map is an association list.
pub mod Parse
pub mod Policy
pub mod Window
use run_cd.Base.{String, Bool, Option, List}
use run_cd.Base.Int.{ℤ}

pub record RetryPolicy : Type 0 where
  pub limit : ℤ
  pub backoff_seconds : ℤ

pub record SyncWindow : Type 0 where
  pub kind : String
  pub days : List String
  pub start_hour : ℤ
  pub end_hour : ℤ

pub record SyncPolicy : Type 0 where
  pub auto : Option Bool
  pub retry : Option RetryPolicy
  pub self_heal : Option Bool
  pub sync_windows : Option (List SyncWindow)
  pub observe : Option Bool

pub record NotifyOverride : Type 0 where
  pub slack : String
  pub rules : Option (List String)

pub record Environment : Type 0 where
  pub projects : List String
  pub folders : List String
  pub region : String
  pub sync : SyncPolicy
  pub notify : NotifyOverride

pub record Defaults : Type 0 where
  pub region : String
  pub managed_fields : List String
  pub sync : SyncPolicy

pub record Override : Type 0 where
  pub region : String
  pub track : String
  pub version : String

pub record Source : Type 0 where
  pub repo : String
  pub path : String
  pub branch : String

pub record App : Type 0 where
  pub name : String
  pub env : String
  pub source : Source
  pub overrides : List (String × Override)
  pub exclude : List String
  pub ignore_fields : List String
  pub ignore_preconditions : List String

pub record NotifyRule : Type 0 where
  pub on : String
  pub name : String
  pub for_minutes : Option ℤ
  pub for_hours : Option ℤ

pub record Notify : Type 0 where
  pub slack : List (String × String)
  pub rules : List NotifyRule

pub record Root : Type 0 where
  pub environments : List (String × Environment)
  pub defaults : Defaults
  pub apps : List App
  pub notify : Notify
