-- ===== src/Lib.antt =====
-- qurl-connector keeps a local HTTP server reachable through the qURL platform. An agent knocks
-- (NHP) for an admission, opens one FRP control session under it, and registers one proxy for each
-- managed route. Before an admission expires it builds a replacement and drains the old session.
-- Every admission is recorded in a durable journal first, so that a crash cannot lose an open one.
--
-- This library models these parts:
--
-- Agentstate/SessionOperation.antt and below, pkg/agentstate/session_operation.go. The record of one
-- admission, its validity and its transitions (validSessionOperationRecord,
-- validSessionOperationTransition). Host and Base64 are the two checks on a recovery endpoint;
-- Transition, Lifecycle and KeyCheck are proofs. Journal.antt is the journal of one resource, with
-- Directory (load and write, on a directory whose system calls may each fail), Store (create,
-- transition and delete under the namespace lock), FileNames, Scan (LoadSessionOperations, and the
-- scan of every journal with its cleanup of temporary files; ReadDirNames of internal/pinnedfs/dir.go
-- is there too), and the proofs Write, Laws, Refinement, CompareSwap, Scanning, NoneSkipped and Loads.
-- An operation is a type of the qurl-go module: the parameter OperationApi gives its fields and its
-- JSON, and Laws names what is assumed of encoding and decoding.
--
-- Agentstate/RefreshMarker.antt and below, pkg/agentstate/refresh_marker.go: the durable schedule of one
-- episode of assignment recovery. Members reads and writes the fields (decodeRefreshMarker), Backoff is
-- the retry delay, Store the load, request, attempt, success and clear on the same directory model as
-- the journal's. The members of a JSON text are the parameter Format, and Parses is what is assumed of
-- it. The counter is a uint32 and the times are int64 with their wrap-around; Episode asks for clock
-- readings after the first second of 1970 and before 2255, and for a clock that does not go back.
-- RoundTrip, Episode, Seen, Schedule and Runs are proofs.
--
-- Share/GroupSession.antt and below, pkg/share/group_frp.go. The session is a record (frpGroupSession):
-- its table maps route IDs to entries. Window is releaseWindowLocked, Status the classification of
-- one FRP status, Observe the fold of a scan into the table, Push the retried hand-over of the live
-- set, Update the route set's validation and Update itself, Lifecycle the construction, the views
-- and the ends. Lifecycle/Steps are the interleavings: one step is one critical section of the mutex,
-- and a scan or a push that is under way overlaps any other step that its locks admit. Times are
-- nanoseconds; the zero time is none. The version is a uint64: the theorem on pushes asks that it
-- does not wrap.
--
-- Share/GroupFactory.antt, the factory of the same file, with the Login's config and the proxies
-- (buildRouteProxy, buildAdmittedCommon of pkg/share/frp.go). FRP's filter and validation of a proxy
-- are the parameter FrpLibrary.
--
-- Share/Group.antt, pkg/share/group.go. The runner's maps of desired routes and generations, what
-- apply hands to live sessions, the promotion gate (cycleServing), withdrawGone and the reports;
-- Measurement is observeRegistration. Its callers' locks make each of these one step; the Run loop is
-- not modelled.
--
-- Share/SessionOperation.antt and below, pkg/share/session_operation.go, the driver of the journal. Program
-- is a tree of the calls that the driver makes, each with what follows for every reply, so that one
-- model stands for every store, clock, context and server; a World runs it. Recover has a definition
-- for each stage of a round of RecoverOperation (Settle, Refence, Judge), its loop and RecoverPending;
-- Dispatch has PrepareDispatch, RecordMapped and Retire; Advance is the check after a lost write.
-- Protocol has the rules of proof: a protocol says which calls a state allows and which replies may come.
-- Discipline is the protocol that RecoverOperation keeps to, SoleWriter those of a store with one writer,
-- and Preparing, Mapping and Retiring those of PrepareDispatch, RecordMapped and Retire.
-- Times are milliseconds, and an error keeps only what errors.Is, As and Unwrap find in it. The loop
-- runs on fuel: 2^32 rounds are enough over such a store, since each round that starts over has counted
-- an attempt in a uint32.
--
-- Share/Route.antt, its children Headers and Transport, and Share/Admission.antt: pkg/share/frp.go,
-- local_pipe.go and the validation half of session.go. The header rules of
-- golang.org/x/net/http/httpguts are the parameter HttpGuts. Share/Timing.antt: the leads and delays
-- of session.go and group.go, on int64 with its wrap-around.
--
-- Config/FrpGen.antt, pkg/config/frpgen.go: proxy names. SHA-256 in hexadecimal is a parameter.
-- Config/Identities.antt, pkg/config/validate.go: slugs, opaque identifiers, and the check that routes,
-- public resources and routing labels stand one to one. Config/Routes.antt, of the same file: routing
-- IDs in base32, on the bits of the payload, and the part of validate on routes, with Sound and Accepted
-- as proofs.
--
-- Net, Strings and Utf8 are what these parts use of Go's net, strings, unicode and utf8 packages, on
-- the bytes of a text. The IPv6 parser has eight rounds of fuel, since each round reads two of the
-- sixteen bytes; a uint64 has at most thirteen digits in base 36. Base has the shared helpers: Go's
-- signed integers (Int), its maps (Maps), its sorts (Sort), and lists of texts without repetition
-- (Distinct). Tests has runs at fixed inputs.
--
-- Not modelled: the rest of the configuration and its transactions, the native NHP runtime, keys, the
-- audit log, the pinned file system but for its listing (its calls succeed or fail as the model is told), the services of the operating systems, and the command line. Goroutines,
-- channels and clocks appear as steps and arguments.
pub mod Base
pub mod Net
pub mod Strings
pub mod Utf8
pub mod Agentstate
pub mod Config
pub mod Share
mod Tests
