-- ===== src/Contracts.antt =====
-- packages/contracts/src/testops/contracts/models.py: the versioned contracts that the control
-- plane and the Runners exchange. UUIDs are numbers, times are microseconds since an epoch (every
-- stored instant is UTC), and a digest is its list of code points.
use top.Base.{
  ℕ, String, Bool, true, false, Option, List, [], ◌∷◌, ◌+◌, ◌*◌, ◌&&◌, leb, ◌==◌, if◌then◌else◌,
  map,
}

pub data RunStatus : Type 0 where
  queued preparing running passed failed canceled timed_out infra_error : RunStatus

pub data CaseResultStatus : Type 0 where
  passed failed skipped infra_error : CaseResultStatus

pub data TargetType : Type 0 where
  web app api : TargetType

pub data RunnerType : Type 0 where
  web_playwright android_appium : RunnerType

-- Distinct constants have distinct ranks, so two are equal exactly when their ranks are.
abbrev pub status_rank : RunStatus → ℕ
status_rank RunStatus.queued = 0
status_rank RunStatus.preparing = 1
status_rank RunStatus.running = 2
status_rank RunStatus.passed = 3
status_rank RunStatus.failed = 4
status_rank RunStatus.canceled = 5
status_rank RunStatus.timed_out = 6
status_rank RunStatus.infra_error = 7

abbrev pub target_rank : TargetType → ℕ
target_rank TargetType.web = 0
target_rank TargetType.app = 1
target_rank TargetType.api = 2

abbrev pub runner_rank : RunnerType → ℕ
runner_rank RunnerType.web_playwright = 0
runner_rank RunnerType.android_appium = 1

abbrev pub same_status : RunStatus → RunStatus → Bool
same_status a b = status_rank a == status_rank b

abbrev pub same_target : TargetType → TargetType → Bool
same_target a b = target_rank a == target_rank b

abbrev pub same_runner : RunnerType → RunnerType → Bool
same_runner a b = runner_rank a == runner_rank b

-- `timedelta(seconds=n)`.
abbrev pub seconds : ℕ → ℕ
seconds n = n * 1000000

-- A text as its code points.
abbrev pub Text : Type 0
Text = List ℕ

-- `str.lower` on the texts that the contracts allow here, which are ASCII.
unfoldable pub lower_code : ℕ → ℕ
lower_code c = if leb b'A' c && leb c b'Z' then c + 32 else c

unfoldable pub lower : Text → Text
unfolding lower_code
lower = map lower_code

unfoldable pub text_eq : Text → Text → Bool
text_eq [] [] = true
text_eq (a ∷ s) (b ∷ t) = let rest = text_eq s t in if a == b then rest else false
text_eq _ _ = false

pub record CaseDefinition : Type 0 where
  pub case_id : ℕ
  pub case_code : String
  pub title : String
  pub enabled : Bool

pub record AutomationPackageRef : Type 0 where
  pub name : String
  pub version : String
  pub runner_type : RunnerType
  pub image_repository : String
  pub digest : Text

pub record RunSnapshot : Type 0 where
  pub run_id : ℕ
  pub target_type : TargetType
  pub browser : Option String
  pub automation_package : Option AutomationPackageRef
  pub cases : List CaseDefinition
  pub created_by : ℕ
  pub created_at : ℕ

pub record Artifact : Type 0 where
  pub artifact_id : ℕ
  pub name : String
  pub uri : String
  pub digest : Text
  pub size_bytes : ℕ

pub record CaseResult : Type 0 where
  pub case_id : ℕ
  pub case_code : String
  pub status : CaseResultStatus
  pub started_at : ℕ
  pub finished_at : ℕ
  pub duration_ms : ℕ
  pub failure_category : Option String
  pub error_message : Option String
  pub artifact_ids : List ℕ

pub record RunResult : Type 0 where
  pub run_id : ℕ
  pub status : RunStatus
  pub started_at : ℕ
  pub finished_at : ℕ
  pub case_results : List CaseResult
  pub artifacts : List Artifact
