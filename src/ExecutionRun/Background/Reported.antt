-- ===== src/ExecutionRun/Background/Reported.antt =====
-- A request on a background process is answered with a valid report, and moves the table by steps.
use agent_workstation_gatewa.Base.{
  ℕ, ◌^◌, ◌<◌, ◌≤◌, ◌-◌, ◌≡◌, refl, ap, sym, ◌∙◌, not, ◌||◌, Bool, true, false, [], ◌∷◌, append-nil,
  Result, ok, err, >>=-eq-ok, map_err, map_err-eq-ok, reject->>, le→ltb_false, ltb, ◌==◌, pos,
  length, take, Option, none, some, arith,
}
use agent_workstation_gatewa.Text.{Bytes, bytes_eq}
use agent_workstation_gatewa.Library.{Library, DigestsTo32}
use agent_workstation_gatewa.Protocol.Types.{
  RequestOperation, CommandStatus, not_requested, max_output_bytes, min_timeout_seconds,
  max_timeout_seconds, min_output_bytes,
}
use agent_workstation_gatewa.Protocol.Request.{is_outside}
use agent_workstation_gatewa.Protocol.Report.{validate_command_outcome, validate_execution_report}
use agent_workstation_gatewa.Protocol.Report.Parts.{ReadsBack}
use agent_workstation_gatewa.OutputCapture.{
  Capture, Snapshot, new, write, write_all, snapshot, max_uint64,
}
use agent_workstation_gatewa.OutputCapture.Report.{report_of, snapshot-write_all}
use agent_workstation_gatewa.OutputCapture.Reported.{limit_lem}
use agent_workstation_gatewa.ExecutionPolicy.{LaunchPlan}
use agent_workstation_gatewa.ShellInvoke.{build}
use agent_workstation_gatewa.ExecutionRun.Types.{World, Output, RunError, invalid_launch_plan}
use agent_workstation_gatewa.ExecutionRun.Artifacts.{failed_artifact_manifest}
use agent_workstation_gatewa.ExecutionRun.Foreground.{assemble_report}
use agent_workstation_gatewa.ExecutionRun.Foreground.Preflight.{reported_valid}
use agent_workstation_gatewa.ExecutionRun.Background.Table.{
  Slot, Runner, BackgroundError, get_elem?, start_background, find_background, stop_background,
  act_all,
}
use agent_workstation_gatewa.ExecutionRun.Background.Steps.{
  starts, Reaches, here, next, Reaches-trans, act_all-Reaches,
}
use agent_workstation_gatewa.ExecutionRun.Background.Kept.{IsKept, Reaches-IsKept}
use agent_workstation_gatewa.ExecutionRun.Background.Operations.{stop_background-After}
use agent_workstation_gatewa.ExecutionRun.Background.Respond.{
  BackgroundHeader, BackgroundWorld, Answer, is_background_operation, report_exit, copied,
  copy_into, validate_background_plan, background_response, answer_with, answer_slot, answer_of,
  respond, operate, build_background_output, run_background, run_validated, run_operation, run,
  background_operation_failure, stop_failure,
}

-- The answers that a request can get.
abbrev IsReportable : Answer → Type 0
IsReportable a = validate_command_outcome a.status (report_exit a.status a.exit_code) ≡ ok tt

new-total : (limit : ℕ) {c : Capture} → new (pos limit) ≡ ok c → c.total ≡ 0
unfolding new
new-total limit h = ground arith

copied-write :
    (c : Capture) (content : Bytes)
    → c.total ≡ 0
    → length content < 2 ^ 63
    → copied (write c content) ≡ ok (write c content).0
unfolding write
copied-write c content h small =
    let room : ltb (max_uint64 - c.total) (length content) ≡ false = rw h (ground arith) in
    simp (room)

-- A copy into a new capture succeeds.
copy_into-snapshot :
    (lib : Library) (limit : ℕ) {c : Capture} (content : Bytes)
    → new (pos limit) ≡ ok c
    → length content < 2 ^ 63
    → (after : Capture) × (copy_into c content ≡ ok after)
      × (snapshot lib after ≡ ok (report_of lib limit content))
unfolding copy_into write_all
copy_into-snapshot lib limit {c} [] h small = (c, refl, snapshot-write_all lib limit [] h small)
copy_into-snapshot lib limit {c} (x ∷ content) h small = (
  (write c (x ∷ content)).0,
  copied-write c (x ∷ content) (new-total limit h) small,
  snapshot-write_all lib limit ((x ∷ content) ∷ []) h (rw (append-nil content) small)
      ∙ ap (λ s. ok (report_of lib limit s)) (append-nil (x ∷ content)),
)

module _ (lib : Library) (encode_header : BackgroundHeader → Option Bytes) (epoch : ℕ) where
  answer_with-IsReportable :
      (x : Option (Bytes × Bytes)) → IsReportable (answer_with lib encode_header epoch x)
  unfolding validate_command_outcome
  answer_with-IsReportable none = refl
  answer_with-IsReportable (some (a, b)) = refl

  answer_of-IsReportable :
      (plan : LaunchPlan) (include_logs : Bool) (failure : Answer) (r : Runner)
      (result : Result BackgroundError ℕ)
      → IsReportable failure
      → IsReportable (answer_of lib encode_header epoch plan include_logs failure r result)
  answer_of-IsReportable plan include_logs failure r (err e) h = h
  answer_of-IsReportable plan include_logs failure r (ok id) h =
      slot-IsReportable (get_elem? r.slots id)
    where
      slot-IsReportable :
          (s : Option Slot) → IsReportable (answer_slot lib encode_header epoch plan include_logs s)
      slot-IsReportable none = answer_with-IsReportable none
      slot-IsReportable (some s) =
          answer_with-IsReportable
            (background_response lib encode_header epoch plan s.entry include_logs)

  respond-IsReportable :
      (plan : LaunchPlan) (world : BackgroundWorld) (include_logs : Bool) (failure : Answer)
      (x : Runner × Result BackgroundError ℕ)
      → IsReportable failure
      → IsReportable (respond lib encode_header epoch plan world include_logs failure x).1
  respond-IsReportable plan world include_logs failure (r, result) h =
      answer_of-IsReportable plan include_logs failure (act_all world.before_response r) result h

  operate-IsReportable :
      (plan : LaunchPlan) (world : BackgroundWorld) (r : Runner) (operation : RequestOperation)
      → IsReportable (operate lib encode_header epoch plan world r operation).1
  unfolding operate validate_command_outcome
  operate-IsReportable plan world r RequestOperation.execute = refl
  operate-IsReportable plan world r (RequestOperation.other name) = refl
  operate-IsReportable plan world r RequestOperation.start =
      respond-IsReportable plan world false background_operation_failure
        (start_background r plan world.entry_started_at world.start) refl
  operate-IsReportable plan world r RequestOperation.status =
      respond-IsReportable plan world false background_operation_failure (r, find_background r plan)
        refl
  operate-IsReportable plan world r RequestOperation.logs =
      respond-IsReportable plan world true background_operation_failure (r, find_background r plan)
        refl
  operate-IsReportable plan world r RequestOperation.stop =
      respond-IsReportable plan world false stop_failure
        (stop_background r plan world.terminates world.while_stopping) refl

  -- The steps of the requests.
  operate-Reaches :
      (plan : LaunchPlan) (world : BackgroundWorld) (r : Runner) (operation : RequestOperation)
      → IsKept r
      → Reaches r (operate lib encode_header epoch plan world r operation).0
  unfolding operate
  operate-Reaches plan world r RequestOperation.execute k = here
  operate-Reaches plan world r (RequestOperation.other name) k = here
  operate-Reaches plan world r RequestOperation.start k =
      next (starts plan world.entry_started_at world.start) (
        act_all-Reaches world.before_response
          (start_background r plan world.entry_started_at world.start).0)
  operate-Reaches plan world r RequestOperation.status k = act_all-Reaches world.before_response r
  operate-Reaches plan world r RequestOperation.logs k = act_all-Reaches world.before_response r
  operate-Reaches plan world r RequestOperation.stop k =
      Reaches-trans (stop_background-After r plan world.terminates world.while_stopping k).0 (
        act_all-Reaches world.before_response
          (stop_background r plan world.terminates world.while_stopping).0)

  run_validated-Reaches :
      (plan : LaunchPlan) (sha : Bytes) (world : BackgroundWorld) (r : Runner)
      (checked : Result RunError (Unit {0}))
      → IsKept r
      → Reaches r (run_validated lib encode_header epoch plan sha world r checked).0
  run_validated-Reaches plan sha world r (err e) k = here
  run_validated-Reaches plan sha world r (ok _) k = operate-Reaches plan world r plan.operation k

  run_operation-Reaches :
      (plan : LaunchPlan) (sha : Bytes) (world : World) (background_world : BackgroundWorld)
      (r : Runner) (operation : RequestOperation)
      → IsKept r
      → Reaches r
          (run_operation lib encode_header epoch plan sha world background_world r operation).0
  unfolding run_background
  run_operation-Reaches plan sha world b r RequestOperation.execute k = here
  run_operation-Reaches plan sha world b r (RequestOperation.other name) k = here
  run_operation-Reaches plan sha world b r RequestOperation.start k =
      run_validated-Reaches plan sha b r (validate_background_plan lib encode_header epoch plan sha)
        k
  run_operation-Reaches plan sha world b r RequestOperation.status k =
      run_validated-Reaches plan sha b r (validate_background_plan lib encode_header epoch plan sha)
        k
  run_operation-Reaches plan sha world b r RequestOperation.logs k =
      run_validated-Reaches plan sha b r (validate_background_plan lib encode_header epoch plan sha)
        k
  run_operation-Reaches plan sha world b r RequestOperation.stop k =
      run_validated-Reaches plan sha b r (validate_background_plan lib encode_header epoch plan sha)
        k

  -- Whatever a request asks for and the outside does, `Run` moves a runner that keeps the invariant
  -- by steps of the step relation only, and so to a runner that keeps it.
  pub run-Reaches :
      (plan : LaunchPlan) (sha : Bytes) (world : World) (background_world : BackgroundWorld)
      (r : Runner)
      → IsKept r
      → Reaches r (run lib encode_header epoch plan sha world background_world r).0
        × IsKept (run lib encode_header epoch plan sha world background_world r).0
  unfolding run
  run-Reaches plan sha world b r k =
      let path = run_operation-Reaches plan sha world b r plan.operation k in
      (path, Reaches-IsKept path k)

  validated_preflight :
      (plan : LaunchPlan) (sha : Bytes)
      → validate_background_plan lib encode_header epoch plan sha ≡ ok tt
      → (c : Capture) × (before : Snapshot) × (new plan.max_output_bytes ≡ ok c)
        × (validate_execution_report lib (
              assemble_report lib plan sha CommandStatus.runtime_failed none epoch epoch before
                before
                (failed_artifact_manifest []))
            ≡ ok tt)
  unfolding validate_background_plan
  validated_preflight plan sha h =
      let (_, h1) =
        (reject->> (not (is_background_operation plan.operation)) invalid_launch_plan _).0 h in
      let (_, h2) =
        (reject->>
            (bytes_eq plan.process_id []
              || is_outside min_timeout_seconds max_timeout_seconds plan.timeout_seconds
              || is_outside min_output_bytes max_output_bytes plan.max_output_bytes
              || not (length plan.artifacts == 0))
            invalid_launch_plan _).0
          h1 in
      let (_, _, h3) = >>=-eq-ok (map_err invalid_launch_plan (build plan)) _ h2 in
      let (c, e, h4) = >>=-eq-ok (map_err invalid_launch_plan (new plan.max_output_bytes)) _ h3 in
      let (before, _, h5) = >>=-eq-ok (map_err invalid_launch_plan (snapshot lib c)) _ h4 in
      (c, before, map_err-eq-ok _ _ e, map_err-eq-ok _ _ h5)

  -- The report of an answer: valid, of the plan's request, with the first bytes of its streams.
  pub record IsAnswer (plan : LaunchPlan) (sha : Bytes) (limit : ℕ) (answer : Answer) (out : Output)
      : Type 0 where
    pub valid : validate_execution_report lib out.report ≡ ok tt
    pub same_id : out.report.request_id ≡ plan.request_id
    pub same_digest : out.report.request_digest ≡ plan.request_digest
    pub same_attempt : out.report.attempt_id ≡ plan.attempt_id
    pub same_source : out.report.gateway_source_sha ≡ sha
    pub status : out.report.command_status ≡ answer.status
    pub stdout_kept : out.stdout ≡ take limit answer.stdout
    pub stderr_kept : out.stderr ≡ take limit answer.stderr
    pub no_artifacts : out.report.artifacts.status ≡ not_requested
    pub no_bundle : out.artifact_bundle ≡ none

  build_background_output-IsAnswer :
      (plan : LaunchPlan) (sha : Bytes) (limit : ℕ) (answer : Answer) (started finished : ℕ)
      → validate_background_plan lib encode_header epoch plan sha ≡ ok tt
      → plan.max_output_bytes ≡ pos limit
      → DigestsTo32 lib
      → ReadsBack lib started
      → ReadsBack lib finished
      → started ≤ finished
      → IsReportable answer
      → length answer.stdout < 2 ^ 63
      → length answer.stderr < 2 ^ 63
      → (out : Output) × (build_background_output lib encode_header epoch plan sha answer.status
            (report_exit answer.status answer.exit_code)
            started
            finished
            answer.stdout
            answer.stderr
          ≡ ok out)
        × IsAnswer plan sha limit answer out
  unfolding build_background_output assemble_report failed_artifact_manifest
  build_background_output-IsAnswer plan sha limit answer started finished h l digests begun ended
        later good small small' =
      let (c, before, made, preflight) = validated_preflight plan sha h in
      let fresh : new (pos limit) ≡ ok c = ap new (sym l) ∙ made in
      let (stdout, copied_out, shown_out) =
        copy_into-snapshot lib limit answer.stdout fresh small in
      let (stderr, copied_err, shown_err) =
        copy_into-snapshot lib limit answer.stderr fresh small' in
      let valid =
        reported_valid lib plan sha (failed_artifact_manifest []) epoch before before limit
          answer.status (report_exit answer.status answer.exit_code) started finished answer.stdout
          answer.stderr preflight good digests begun ended (limit_lem limit fresh) later in
      (
        _,
        rw (made, copied_out, copied_err, shown_out, shown_err, valid) refl,
        record {
          valid = valid;
          same_id = refl;
          same_digest = refl;
          same_attempt = refl;
          same_source = refl;
          status = refl;
          stdout_kept = refl;
          stderr_kept = refl;
          no_artifacts = refl;
          no_bundle = refl;
        },
      )

  -- If the plan passes `validateBackgroundPlan`, the clock does not go back, digests have 32 bytes, the
  -- texts of the two times of the answer read back, and the answer's streams have less than 2^63 bytes, then the request is
  -- answered with a valid report of the plan's request that carries the status of the answer and the
  -- first bytes of its streams up to the limit, and no artifacts, whether the operation succeeded or
  -- not.
  pub run_background-IsAnswer :
      (plan : LaunchPlan) (sha : Bytes) (world : BackgroundWorld) (r : Runner) (limit : ℕ)
      → validate_background_plan lib encode_header epoch plan sha ≡ ok tt
      → plan.max_output_bytes ≡ pos limit
      → DigestsTo32 lib
      → ReadsBack lib world.started_at
      → ReadsBack lib world.finished_at
      → world.started_at ≤ world.finished_at
      → length (operate lib encode_header epoch plan world r plan.operation).1.stdout < 2 ^ 63
      → length (operate lib encode_header epoch plan world r plan.operation).1.stderr < 2 ^ 63
      → (out : Output) × ((run_background lib encode_header epoch plan sha world r).1 ≡ ok out)
        × IsAnswer plan sha limit
            (operate lib encode_header epoch plan world r plan.operation).1
            out
  unfolding run_background
  run_background-IsAnswer plan sha world r limit h l digests begun ended later small small' =
      let answer = (operate lib encode_header epoch plan world r plan.operation).1 in
      let (out, done, shown) =
        build_background_output-IsAnswer plan sha limit answer world.started_at world.finished_at h
          l digests begun ended later (operate-IsReportable plan world r plan.operation) small
          small' in
      (out, rw (h, le→ltb_false world.finished_at world.started_at later) done, shown)
