-- ===== src/Runner/Forks.antt =====
-- internal/runner/runner.go: which builds `CheckCITrust` lets through.
use ironrun.Prelude.{◌≡◌, ◌≢◌, ◌⊎◌, Bool, true, [], some, In, Bytes, codes}
use ironrun.Runner.CiTrust.{Payload, Ci, event_repos, repo_events}

module _ (ci : Ci) where
  -- The event names a head and a base repository, and they are one.
  pub NamesOne : Bytes → Payload → Type 0
  NamesOne event p =
      (((event_repos event p).0 ≢ []) × ((event_repos event p).1 ≢ []))
      × (ci.equal_fold (event_repos event p).0 (event_repos event p).1 ≡ true)

  -- The event file can be read, and says so.
  pub SameRepo : Bytes → Type 0
  SameRepo event =
      (p : Payload) × (ci.event_at (ci.getenv (codes "GITHUB_EVENT_PATH")) ≡ some p)
      × NamesOne event p

  -- No code from a fork, as far as the variables of the four systems and the event file say; with the
  -- operator's flag also the untrusted code of `pull_request_target`.
  pub record Trusted (allow : Bool) : Type 0 where
    pub git_hub :
        ci.getenv (codes "GITHUB_ACTIONS") ≡ codes "true"
        → (In (ci.getenv (codes "GITHUB_EVENT_NAME")) repo_events
            → SameRepo (ci.getenv (codes "GITHUB_EVENT_NAME")))
          × (ci.getenv (codes "GITHUB_EVENT_NAME") ≡ codes "pull_request_target" → allow ≡ true)
    pub git_lab :
        ci.getenv (codes "GITLAB_CI") ≡ codes "true"
        → ci.getenv (codes "CI_PIPELINE_SOURCE") ≡ codes "merge_request_event"
        → (ci.getenv (codes "CI_MERGE_REQUEST_SOURCE_PROJECT_ID") ≢ [])
          × (ci.getenv (codes "CI_MERGE_REQUEST_SOURCE_PROJECT_ID")
              ≡ ci.getenv (codes "CI_MERGE_REQUEST_PROJECT_ID"))
    pub circle :
        ci.getenv (codes "CIRCLECI") ≡ codes "true"
        → (ci.getenv (codes "CIRCLE_PR_NUMBER") ≡ [])
          × (ci.getenv (codes "CIRCLE_PR_USERNAME") ≡ [])
    pub jenkins :
        (ci.getenv (codes "JENKINS_URL") ≢ []) ⊎ (ci.getenv (codes "JENKINS_HOME") ≢ [])
        → ci.getenv (codes "CHANGE_ID") ≡ []
