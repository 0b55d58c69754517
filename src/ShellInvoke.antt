-- ===== src/ShellInvoke.antt =====
-- internal/shellinvoke/invocation.go: how each shell is started. The script is data for standard
-- input, so it is no part of the argument vector.
pub mod Fixed
use agent_workstation_gatewa.Base.{
  Bool, true, false, ◌||◌, List, [], ◌∷◌, Result, ok, err, ◌>>=◌, ◌>>◌, reject, Option, none, some,
}
use agent_workstation_gatewa.Text.{Bytes, codes, bytes_eq}
use agent_workstation_gatewa.Protocol.Types.{Shell}
use agent_workstation_gatewa.ExecutionPolicy.{LaunchPlan}

pub data InvocationError : Type 0 where
  invalid_launch_plan unsupported_shell : InvocationError

pub record Invocation : Type 0 where
  pub executable : Bytes
  pub arguments : List Bytes
  pub script : Bytes

-- `shellArguments`
unfoldable pub shell_arguments : Shell → Option (List Bytes)
shell_arguments Shell.bash = some (codes "--noprofile" ∷ codes "--norc" ∷ codes "-s" ∷ [])
shell_arguments Shell.git_bash = some (codes "--noprofile" ∷ codes "--norc" ∷ codes "-s" ∷ [])
shell_arguments Shell.powershell = some (
    codes "-NoLogo"
    ∷ codes "-NoProfile"
    ∷ codes "-NonInteractive"
    ∷ codes "-Command"
    ∷ codes "-"
    ∷ [])
shell_arguments Shell.pwsh = some (
    codes "-NoLogo"
    ∷ codes "-NoProfile"
    ∷ codes "-NonInteractive"
    ∷ codes "-Command"
    ∷ codes "-"
    ∷ [])
shell_arguments Shell.cmd = some (codes "/D" ∷ codes "/Q" ∷ [])
shell_arguments (Shell.other name) = none

unfoldable pub invocation_of : LaunchPlan → Option (List Bytes) → Result InvocationError Invocation
invocation_of plan none = err unsupported_shell
invocation_of plan (some arguments) =
    ok (record { executable = plan.executable; arguments = arguments; script = plan.script })

-- `Build`
unfoldable pub build : LaunchPlan → Result InvocationError Invocation
unfolding invocation_of
build plan = do
  reject (bytes_eq plan.executable [] || bytes_eq plan.script []) invalid_launch_plan
  invocation_of plan (shell_arguments plan.shell)
