-- ===== src/Lib.antt =====
-- Agent Workstation Gateway: the logic that decides what an agent may run on a workstation, and
-- that carries its output back. An agent asks for a command by a request (protocol/v1). The control
-- repository accepts it into an accepted request record with a digest. The broker on the
-- workstation receives the record in an execute envelope (internal/brokerproto) over length-prefixed
-- frames (internal/ipcframe), and authorizes it (internal/executionpolicy) against the installation's
-- configuration (internal/installconfig), with paths compared by internal/platformpath and an
-- environment built by internal/workloadenv. The plan runs in the foreground, or as a background
-- process that later requests ask for, read or stop (internal/executionrun), with the shell's command
-- line from internal/shellinvoke. While the command runs, its output goes into bounded
-- captures (internal/outputcapture); artifacts are chosen by patterns (internal/artifactpattern). The
-- session of a connection (internal/brokersession) streams the report, the output and the artifacts
-- back (internal/brokerwire); the client (internal/controlclient) publishes them after it has checked
-- that the report is bound to the accepted record, which becomes a result record.
--
-- The files, and the sources that they model:
--   Protocol/Types, Fields, Request, Report, Records: protocol/v1 (types.go, records_types.go,
--     limits.go, errors.go, validate.go, records_validate.go, result_validate.go, canonical.go,
--     accepted_validate.go, binding_validate.go, finalize.go). A function keeps its Go name in
--     snake case: ValidateRequest is validate_request. Protocol/Accepts, Request/Selections,
--     Request/Shape, Report/Manifest and Records/Binding hold proofs.
--   InstallConfig: internal/installconfig; proofs in InstallConfig/Accepts.
--   BrokerProto: internal/brokerproto, types and validation.
--   WorkloadEnv: internal/workloadenv/build.go; proofs in WorkloadEnv/Allowed.
--   ExecutionPolicy: internal/executionpolicy; proofs in ExecutionPolicy/Stages and Confined.
--   ShellInvoke: internal/shellinvoke/invocation.go; proof in ShellInvoke/Fixed.
--   ExecutionRun/Types, Artifacts, Foreground: internal/executionrun/types.go, errors.go and run.go.
--     runForeground is run_foreground, cut into prepare, launch and conclude. Proofs: Artifacts/Groups,
--     Foreground/Outcomes, Happened, Preflight and Valid, and Bound, which joins Authorize, the run
--     and the binding.
--   ExecutionRun/Background/Entry, Table, Respond: internal/executionrun/background.go. Entry has the
--     fields of backgroundProcess and the goroutine monitorBackground with its program counter, Table
--     the runner's map with start, find, stop, remove and Close, Respond the requests and Run. Steps
--     is the relation of all interleavings; proofs in Sound, Lookup, Kept, Ends, Operations, Closed,
--     Reported.
--   PlatformPath: internal/platformpath/path.go; proofs in PlatformPath/Linux and Contains.
--   ArtifactPattern: internal/artifactpattern/match.go, with the maps seen and memo in
--     ArtifactPattern/Visited; proofs in Glob, Calls, Memo and Descendant.
--   OutputCapture: internal/outputcapture/capture.go; proofs in Content, Report and Reported.
--   IpcFrame: internal/ipcframe/frame.go; proofs in Header, RoundTrip and Nonempty.
--   BrokerWire/Types, Writing, Write, Read: internal/brokerwire. Writing carries what the writer has
--     taken; Read ends in a result and what became of the artifact transaction, with the bytes that
--     each destination has taken. The errors of the strict decoder are one rule for each record.
--     Proofs: Chained, Taken, Carried, RoundTrip, Decoded, Whole, Committed, Enough.
--   BrokerSession: internal/brokersession and internal/sourceversion; proof in BrokerSession/Answered.
--   ControlClient: internal/controlclient, with the calls of the destination in order; proof in
--     ControlClient/Published.
--   Text: Go strings as byte sequences, and the functions of the packages strings and utf8 in use.
--   Library: what is taken from Go's standard library without a definition: strings.ToLower and
--     EqualFold, path.Match, SHA-256, and the parser and printer of RFC 3339 times. The encoder
--     json.Marshal is an argument of the functions that use it.
--   Base: shared helpers. Samples: tests, and each theorem at a concrete input.
--
-- How code becomes definitions: a function that returns an error is a Result whose err carries the
-- source's field and rule, or a constructor that stands for them, in the order of the source's
-- checks. A Go string type with named constants is a data type with `other` for every other string. A slice that is compared with nil is
-- an Option. A map that is used as a set is the list of its keys. Loops are structural recursion.
-- Sums of int64 and uint64 are written with their wrap-around. The writing loop of ipcframe runs on
-- fuel, one unit for each byte of the frame: each turn writes at least one byte or ends the loop.
-- The loops over chunks in brokerwire have one unit for each byte too, since no frame is empty.
-- What the launcher, the clock, the timer and the artifact collector answer in one run is the data of
-- a World, over which the theorems quantify. A pointer to a background entry is its index among all
-- entries; what its process and goroutine do is a sequence of acts, also while a request waits.
-- The method finish of an entry is one step with the close of its channel done, which the source
-- does just behind the unlock.
-- An output capture's mutex makes its calls a sequence, so its state is passed on explicitly.
--
-- Not modelled: JSON decoding, the control plane's event, the native processes, the platform
-- packages for Linux and Windows, installation, the GitHub client, the runner package and the
-- commands. Most of these are calls of the operating system, of a network or of encoding/json.
pub mod Base
pub mod Text
pub mod ArtifactPattern
pub mod Library
pub mod Protocol
pub mod OutputCapture
pub mod IpcFrame
pub mod PlatformPath
pub mod InstallConfig
pub mod WorkloadEnv
pub mod BrokerProto
pub mod ExecutionPolicy
pub mod ShellInvoke
pub mod ExecutionRun
pub mod BrokerWire
pub mod BrokerSession
pub mod ControlClient
pub mod Samples
