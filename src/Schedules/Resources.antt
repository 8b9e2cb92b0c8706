-- ===== src/Schedules/Resources.antt =====
-- schedule_services.py: `_validate_resources`. The documents of the baselines are valid.
use top.Base.{String, Bool, ◌&&◌, ◌||◌, ◌==◌, Option, [], ◌∷◌, first, str_eq}
use top.Service.{ServiceError, Served, ok, raise, ◌>>=◌, ◌>>◌, check, or_raise}
use top.Lifecycle.Selection.{select_cases}
use top.Schedules.Rows.{
  ResourceRefs, TargetRow, EnvironmentRow, BaselineRow, PackageRow, ResourceTables,
}

-- `SUPPLY_CHAIN_EXECUTABLE_STATUSES`.
abbrev pub is_executable : String → Bool
is_executable status = str_eq status "LEGACY" || str_eq status "VERIFIED"

-- `session.get` of a row that belongs to the project.
module _ (tables : ResourceTables) (refs : ResourceRefs) where
  abbrev pub target_of : Option TargetRow
  target_of =
      first (λ t. (t.id == refs.target_id) && (t.project_id == refs.project_id)) tables.targets

  abbrev pub environment_of : Option EnvironmentRow
  environment_of =
      first
        (λ e.
          (e.id == refs.environment_id)
          && (e.project_id == refs.project_id)
          && (e.target_id == refs.target_id))
        tables.environments

  abbrev pub baseline_of : Option BaselineRow
  baseline_of =
      first (λ b. (b.baseline_id == refs.baseline_id) && (b.project_id == refs.project_id))
        tables.baselines

  abbrev pub package_of : Option PackageRow
  package_of =
      first
        (λ p.
          (p.id == refs.automation_package_id)
          && (p.project_id == refs.project_id)
          && (p.target_id == refs.target_id))
        tables.packages

  unfoldable pub validate_resources : Served (Unit {0})
  unfolding select_cases
  validate_resources = do
    project ← or_raise (first (λ p. p.id == refs.project_id) tables.projects) ServiceError.not_found
    check (str_eq project.status "ACTIVE") ServiceError.conflict
    target ← or_raise target_of ServiceError.not_found
    check (str_eq target.status "ACTIVE") ServiceError.conflict
    environment ← or_raise environment_of ServiceError.not_found
    check (str_eq environment.status "ACTIVE") ServiceError.conflict
    baseline ← or_raise baseline_of ServiceError.not_found
    check (str_eq baseline.status "RELEASED") ServiceError.conflict
    automation ← or_raise package_of ServiceError.not_found
    check (str_eq automation.status "ACTIVE") ServiceError.conflict
    check (is_executable automation.supply_chain_status) ServiceError.conflict
    cases ← select_cases baseline.cases refs.case_codes
    elim cases [ [] ↦ raise ServiceError.invalid | c ∷ cs ↦ ok tt ]
