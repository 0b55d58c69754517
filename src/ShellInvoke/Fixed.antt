-- ===== src/ShellInvoke/Fixed.antt =====
-- The argument vector of a shell is fixed: nothing of the script reaches it.
use agent_workstation_gatewa.Base.{
  [], ◌≡◌, ap, sym, ◌∙◌, ◌||◌, List, ok, reject->>, Option, none, some,
}
use agent_workstation_gatewa.Text.{Bytes, bytes_eq}
use agent_workstation_gatewa.ExecutionPolicy.{LaunchPlan}
use agent_workstation_gatewa.ShellInvoke.{Invocation, shell_arguments, invocation_of, build}

invocation_of_lem :
    (plan : LaunchPlan) (arguments : Option (List Bytes)) {i : Invocation}
    → invocation_of plan arguments ≡ ok i
    → (i.executable ≡ plan.executable) × (arguments ≡ some i.arguments) × (i.script ≡ plan.script)
unfolding invocation_of
invocation_of_lem plan none h = cc
invocation_of_lem plan (some arguments) {i} h =
    let whole : Invocation = record {
      executable = plan.executable;
      arguments = arguments;
      script = plan.script;
    } in
    let same : whole ≡ i = cc in
    (
      ap (λ x. x.executable) (sym same),
      ap (λ x. some x.arguments) same,
      ap (λ x. x.script) (sym same),
    )

build_lem :
    (plan : LaunchPlan) {i : Invocation}
    → build plan ≡ ok i
    → (i.executable ≡ plan.executable)
      × (shell_arguments plan.shell ≡ some i.arguments)
      × (i.script ≡ plan.script)
unfolding build
build_lem plan h =
    invocation_of_lem plan (shell_arguments plan.shell)
      ((reject->> (bytes_eq plan.executable [] || bytes_eq plan.script []) _ _).0 h).1

-- An invocation runs its plan's executable with its plan's script as input, and two plans with the
-- same shell have the same arguments, whatever their scripts, folders and environments.
pub build-arguments :
    (p q : LaunchPlan) {i j : Invocation}
    → p.shell ≡ q.shell
    → build p ≡ ok i
    → build q ≡ ok j
    → (i.executable ≡ p.executable) × (i.script ≡ p.script) × (i.arguments ≡ j.arguments)
build-arguments p q e h k =
    let (executable, first, script) = build_lem p h in
    let (_, second, _) = build_lem q k in
    (executable, script, cc (sym first ∙ ap shell_arguments e ∙ second))
