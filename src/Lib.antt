-- ===== src/Lib.antt =====
-- Verification library of ghyll: the runner that moves work along arrows between roles.
--
-- An arrow has clauses, each run by an evaluator, and findings, raised against it. The status of the
-- arrow is derived from both, and a role may start downstream of an arrow only when it is complete.
-- A role works in a pass, which holds a lock on the role in its context; an amendment is queued when
-- an arrow has to be specified again; a router chooses the model that has the depth a clause asks for.
--
-- Base             lists, texts, maps, integers, sorting and results, which the other files share
-- Clause           runner/runner.go (Clause, Result, ClauseStatus, CanTransition), requireStringArg of
--                  runner/notodo.go
-- Arrow            runner/arrow.go (DeriveArrowStatus)
-- Transition       runner/transition.go (CheckTransition)
-- Findings         runner/findings.go (FindingsStore)
-- NoFinding        runner/nofinding.go (EvaluateNoOpenFinding)
-- Depth            runner/depthladder.go (Requirement, Classification, DepthLadder)
-- Classifications  runner/depthstore.go (ClassificationsStore), runner/mindepth.go
-- Grid             runner/grid.go (Grid, ArrowDefinition)
-- Basis            runner/insufficient_basis_tracker.go (InsufficientBasisTracker)
-- Routing          runner/routing.go (RouteArrow)
-- RoleLock         runner/rolelock.go (RoleContextLockTable)
-- Passes           runner/pass.go (Pass), runner/projectstatus.go (PassRegistry)
-- SingleRole       runner/singleactiverole.go
-- Runner           runner/runner.go (Registry, Runner.Evaluate)
-- Router           dialect/router.go (Evaluate)
-- Amendments       runner/amendment.go (AmendmentQueue)
-- Attestations     runner/attestationstore.go (AttestationStore), runner/attestation_jsonl.go (the form
--                  of a line, TruncateTrailingPartial),
--                  runner/attestation_verifier.go (Verify)
-- PathGlob         internal/pathglob/pathglob.go (Match)
-- Remediation      runner/remediation.go (RunRemediationLoop, VerificationAutoInsert)
-- Commit           runner/amendment_commit.go (AmendmentCommitter.Commit), over Grid, Passes and Amendments
--
-- An operation is a function from the state and its arguments to a result and the new state, in the
-- order of the source's checks, with its errors as values; where the source notifies observers, the
-- events are returned in order. The modules History, Laws and Declared run sequences of such calls,
-- each of which is atomic, as it is under the source's mutexes. A counter of type uint64 wraps
-- around (`% 2 ^ 64`); other integers are compared and counted, and do not overflow here. A Go map is
-- an association list. The clock and the id generators are arguments. The remediation loop is a recursion
-- on the rounds that are left, and its callbacks are functions on the state of all that it does not
-- own; the search back for a line break in the audit file has the file's length as its fuel, which is
-- enough since each chunk that is read is not empty; the path matcher has the length of the pattern,
-- which is enough since what follows `**` is shorter; each other loop is a recursion on a list.
--
-- Not modelled: locks and goroutines, the texts of errors and of details that are only displayed,
-- files, processes, SQLite, HTTP and the terminal; the engine that persists the stores, the set-up of
-- a project and the tree of attestation files are outside this library. `encoding/json`,
-- `strings.EqualFold`, `path.Match`, `bufio.Scanner` and the audit writer of the
-- attestations are parameters.
pub mod Base
pub mod Clause
pub mod Arrow
pub mod Transition
pub mod Findings
pub mod NoFinding
pub mod Depth
pub mod Classifications
pub mod Grid
pub mod Basis
pub mod Commit
pub mod Routing
pub mod RoleLock
pub mod Runner
pub mod Router
pub mod Passes
pub mod SingleRole
pub mod Amendments
pub mod Attestations
pub mod Remediation
pub mod PathGlob
