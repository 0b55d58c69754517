-- ===== src/ExecutionRun/Types.antt =====
-- internal/executionrun: types.go, time.go and errors.go. What the native side does is the data of a `World`:
-- the answers of the launcher, the clock, the timer and the artifact collector to one run.
use agent_workstation_gatewa.Base.{ℕ, ℤ, Bool, List, Option}
use agent_workstation_gatewa.Text.{Bytes}
use agent_workstation_gatewa.Protocol.Types.{ArtifactSelection, ArtifactManifest, ExecutionReport}
use agent_workstation_gatewa.InstallConfig.{Principal, Capability}
use agent_workstation_gatewa.ShellInvoke.{Invocation}

pub record NativeLaunch : Type 0 where
  pub execution_identity : Principal
  pub working_directory : Bytes
  pub approved_root : Bytes
  pub environment : List Bytes
  pub capabilities : List Capability
  pub invocation : Invocation

pub record ArtifactPlan : Type 0 where
  pub execution_identity : Principal
  pub working_directory : Bytes
  pub approved_root : Bytes
  pub selections : List ArtifactSelection

-- What `Exit` sends
pub record ProcessExit : Type 0 where
  pub code : ℤ
  pub runtime_error : Bool

-- A process: whether `Exit` returns a channel, and whether `TerminateTree` returns nil
pub record Process : Type 0 where
  pub has_exit : Bool
  pub terminates : Bool

-- What `Start` returns, and what the process writes until the captures are read
pub record Started : Type 0 where
  pub failed : Bool
  pub process : Option Process
  pub stdout : List Bytes
  pub stderr : List Bytes

-- What `NewTimer` returns
pub data TimerKind : Type 0 where
  missing no_channel ticking : TimerKind

-- What the `select` receives first: an exit (`none` for a closed channel), the end of the
-- context, or the timer, with whether the context has ended by then
pub data Wait : Type 0 where
  exited : Option ProcessExit → Wait
  cancelled : Wait
  timed_out : Bool → Wait

-- An open artifact: its content, whether a read behind it reports the end, and whether `Close`
-- returns nil
pub record ArtifactReader : Type 0 where
  pub content : Bytes
  pub ends : Bool
  pub closes : Bool

-- `Open` by group and path, and whether `Close` returns nil
pub record ArtifactBundle : Type 0 where
  pub open_file : Bytes → Bytes → Option ArtifactReader
  pub closes : Bool

pub record ArtifactCollection : Type 0 where
  pub failed : Bool
  pub manifest : ArtifactManifest
  pub bundle : Option ArtifactBundle

pub record World : Type 0 where
  pub started_at : ℕ
  pub finished_at : ℕ
  pub start : NativeLaunch → Started
  pub timer : TimerKind
  pub event : Wait
  pub collector : Option (ArtifactPlan → ArtifactCollection)

pub record Output : Type 0 where
  pub report : ExecutionReport
  pub stdout : Bytes
  pub stderr : Bytes
  pub artifact_bundle : Option ArtifactBundle

pub data RunError : Type 0 where
  launcher_required invalid_options invalid_launch_plan clock_regression : RunError
  invalid_execution_report : RunError
