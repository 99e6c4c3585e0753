-- ===== src/Runner/CiTrust.antt =====
-- internal/runner/runner.go: `CheckCITrust` and `checkGitHubEventRepos`. The process environment, the
-- event file and `strings.EqualFold`, with its Unicode tables, are what one `Ci` says.
use ironrun.Prelude.{
  Bool, not, ◌&&◌, ◌||◌, List, [], ◌∷◌, Option, none, some, if◌then◌else◌, Bytes, codes, bytes_eq,
  contains, Try, err, guard, only_if, ◌>>◌,
}

-- The names of the repositories in the event, empty where the event has none.
pub record Payload : Type 0 where
  pub head_repo : Bytes
  pub base_repo : Bytes
  pub head_repository : Bytes
  pub repository : Bytes

-- `getenv` is empty for a variable that is not set; `event_at` reads and decodes the file.
pub record Ci : Type 0 where
  pub getenv : Bytes → Bytes
  pub event_at : Bytes → Option Payload
  pub equal_fold : Bytes → Bytes → Bool

-- Each one wraps `ErrCIUntrusted`.
pub data CiError : Type 0 where
  event_unreadable event_unnamed event_from_fork needs_flag : CiError
  gitlab_fork gitlab_unverifiable circle_number circle_username : CiError
  jenkins_fork jenkins_unverifiable : CiError

abbrev pub repo_events : List Bytes
repo_events =
    codes "pull_request"
    ∷ codes "pull_request_review"
    ∷ codes "pull_request_review_comment"
    ∷ codes "workflow_run"
    ∷ []

-- The head and the base repository of an event.
unfoldable pub event_repos : Bytes → Payload → Bytes × Bytes
event_repos event p =
    if bytes_eq event (codes "workflow_run")
    then (p.head_repository, p.repository)
    else (p.head_repo, p.base_repo)

module _ (ci : Ci) where
  unfoldable pub check_repos : Bytes → Option Payload → Try CiError (Unit {0})
  unfolding event_repos
  check_repos event none = err event_unreadable
  check_repos event (some p) =
      let (head, base) = event_repos event p in
      guard (not (bytes_eq head [] || bytes_eq base [])) event_unnamed
      >> guard (ci.equal_fold head base) event_from_fork

  unfoldable pub check_git_hub_event_repos : Bytes → Try CiError (Unit {0})
  unfolding check_repos
  check_git_hub_event_repos event =
      check_repos event (ci.event_at (ci.getenv (codes "GITHUB_EVENT_PATH")))

  unfoldable pub check_git_hub : Bool → Try CiError (Unit {0})
  unfolding check_git_hub_event_repos
  check_git_hub allow_pull_request_target =
      let event = ci.getenv (codes "GITHUB_EVENT_NAME") in
      only_if (bytes_eq (ci.getenv (codes "GITHUB_ACTIONS")) (codes "true")) (
        only_if (contains repo_events event) (check_git_hub_event_repos event)
        >> only_if (bytes_eq event (codes "pull_request_target"))
            (guard allow_pull_request_target needs_flag))

  unfoldable pub check_git_lab : Try CiError (Unit {0})
  check_git_lab =
      let src = ci.getenv (codes "CI_MERGE_REQUEST_SOURCE_PROJECT_ID") in
      let tgt = ci.getenv (codes "CI_MERGE_REQUEST_PROJECT_ID") in
      only_if (bytes_eq (ci.getenv (codes "GITLAB_CI")) (codes "true")) (
        only_if (bytes_eq (ci.getenv (codes "CI_PIPELINE_SOURCE")) (codes "merge_request_event")) (
          guard (not (not (bytes_eq src []) && (not (bytes_eq tgt []) && not (bytes_eq src tgt))))
            gitlab_fork
          >> guard (not (bytes_eq src [] || bytes_eq tgt [])) gitlab_unverifiable))

  unfoldable pub check_circle : Try CiError (Unit {0})
  check_circle = only_if (bytes_eq (ci.getenv (codes "CIRCLECI")) (codes "true")) (
      guard (bytes_eq (ci.getenv (codes "CIRCLE_PR_NUMBER")) []) circle_number
      >> guard (bytes_eq (ci.getenv (codes "CIRCLE_PR_USERNAME")) []) circle_username)

  unfoldable pub check_jenkins : Try CiError (Unit {0})
  check_jenkins =
      only_if
        (not (bytes_eq (ci.getenv (codes "JENKINS_URL")) [])
          || not (bytes_eq (ci.getenv (codes "JENKINS_HOME")) []))
        (only_if (not (bytes_eq (ci.getenv (codes "CHANGE_ID")) [])) (
          guard (bytes_eq (ci.getenv (codes "CHANGE_FORK")) []) jenkins_fork
          >> err jenkins_unverifiable))

  -- `CheckCITrust`
  unfoldable pub check_ci_trust : Bool → Try CiError (Unit {0})
  unfolding check_git_hub check_git_lab check_circle check_jenkins
  check_ci_trust allow_pull_request_target =
      check_git_hub allow_pull_request_target >> (check_git_lab >> (check_circle >> check_jenkins))
