-- ===== src/Agent/Git/Dispatch.antt =====
-- HandleRPC of agent/internal/git/service.go. The parameters are read by json.Unmarshal at the types of
-- the requests; the count of a log is read and not used.
use pocketclaude.Base.{ℕ, GoString, text, str_eq, Bool, Option, none, some, List, if◌then◌else◌}
use pocketclaude.Agent.Rpc.{Rpc, result, failed, invalid_params, unknown_method}
use pocketclaude.Agent.Git.{StatusResult, DiffResult, LogResult, status, diff, diff_cached, log}

pub data GitResult : Type 0 where
  status_result : StatusResult → GitResult
  diff_result : DiffResult → GitResult
  log_result : LogResult → GitResult

-- A git command that failed.
pub data GitError : Type 0 where
  git_failed : GitError

abbrev pub rpc_of : {A : Type 0} → (A → GitResult) → Option A → Rpc GitResult GitError
rpc_of f none = failed git_failed
rpc_of f (some a) = result (f a)

pub record GitParams : Type 0 where
  pub dir_of : GoString → Option GoString
  pub diff_of : GoString → Option (GoString × Bool)
  pub log_of : GoString → Option (GoString × ℕ)

module _ (run_git : GoString → List GoString → Option GoString) (p : GitParams) where
  unfoldable pub handle_rpc : GoString → GoString → Rpc GitResult GitError
  handle_rpc method params =
      if str_eq method (text "git.status")
      then elim (p.dir_of params) [
        | none ↦ invalid_params
        | some dir ↦ rpc_of status_result (status run_git dir)
      ]
      else if str_eq method (text "git.diff")
      then elim (p.diff_of params) [
        | none ↦ invalid_params
        | some (dir, cached) ↦
            rpc_of diff_result (if cached then diff_cached run_git dir else diff run_git dir)
      ]
      else if str_eq method (text "git.log")
      then elim (p.log_of params) [
        | none ↦ invalid_params
        | some (dir, count) ↦ rpc_of log_result (log run_git dir)
      ]
      else unknown_method
