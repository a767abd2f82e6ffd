-- ===== src/Lib.antt =====
-- Tesera guards the actions of an agent: before a guarded function runs, an approval provider
-- decides on the call, a signed decision event is appended to a journal, and an outcome event
-- follows after the run. The journal is a file of JSON lines in which each event holds the hash of
-- the event before it, so that it can be verified offline.
--
-- Policy models src/tesera/approval.py and src/tesera/policy.py: a provider is a function from a
-- request and the state that it keeps to a decision, or an exception, and a new state. Each child
-- models one class, with a function of the same name for each method: Policy/Budget, RateLimit,
-- Cached, Combined, Quorum, Spending and Rules. A lock makes each method, or each locked region of
-- CachedApprovalProvider, one step; threads are sequences of steps. Clock readings are arguments.
--
-- Policy/StateFile models the state file of the file providers: what it holds, its read, and the
-- locked region of their decide with the faults of the file system that one call meets.
-- Policy/FileBudget and Policy/FileSpending model the two durable budgets on it.
--
-- Policy/Attested models AttestedApprovalProvider over any inner provider; a text is a list of
-- characters, and the value of the environment variable is an argument.
--
-- Policy/PolicyFile models load_policy_file: the tests of the document in their order, with a
-- PolicyError as a value. Policy/PolicyFile/Format says of a document which policy it gives in the documented format.
--
-- Journal/Idem models the idempotency index of src/tesera/journal.py: the tables and their
-- evolution by an appended event, the full scan that the index replaces, and the query of both for
-- the decision that blocks a new execution.
--
-- Journal/Tail models the read of the tail hash on bytes, with fuel for its doubling windows: the
-- logarithm of the size is enough. Journal/Append models FileJournal: each append is one step on
-- the events of the file, since it holds the lock of the file.
--
-- Engine models src/tesera/engine.py: the payloads, _build_atomic and the atomic append of a
-- decision. Engine/Prepare adds _evaluate_approval and the errors that end _prepare_execution, for
-- a journal file and a call with a key. Engine/AtMostOnce is the relation by which journals grow.
--
-- Checkpoint models checkpoint_journal of src/tesera/checkpoint.py.
--
-- Canonical models src/tesera/canonical.py: values are immediates or addresses of objects in a store,
-- and canonicalize is the recursion of _walk on the levels that MAX_DEPTH leaves, so it needs no
-- other fuel. Canonical/Names holds fold_name, and build_sensitive_set of src/tesera/redaction.py.
--
-- Audit models src/tesera/audit.py: Audit the first loop of audit_verified_snapshot and the checks
-- on resolutions and outcomes, Audit/Report the loop over the decisions, the report and the
-- projection of the streaming audit. The loops run over lists. event[k] of the source is get, which
-- is null for a missing key: the snapshot verified, so each event has its required fields.
--
-- Verification models src/tesera/verification.py: Shape the checks of one event type each, Event
-- _verify_event, Witness _load_checkpoint_witness, Coverage _checkpoint_coverage, and Journal the
-- loop of _read_and_verify, with its result. What Python raises where the code does not catch it is
-- a value of Exception. A file is the list of its stripped lines, each blank, no JSON, JSON that is
-- no object, or an object; no fuel is needed, since every loop runs over a list.
--
-- Archive models verify_archive_chain of src/tesera/archive.py: files are a function of their names,
-- and the recursion is on the links that max_links leaves, so it needs no other fuel.
-- Archive/Custody is the chain of custody that the walk is to establish. A line is taken to have no
-- vertical tab and no form feed at its ends: the walk parses lines that the verifier strips.
--
-- Reconcile models src/tesera/reconcile.py over a provider with a state of its own.
--
-- Resolution models resolve_journal of src/tesera/resolve.py, on the append of Journal/Append.
--
-- Json models the values of json.loads, with ==, in and get of Python; Common holds the lists, the
-- dicts with texts as keys, and the integers.
--
-- Parameters: SHA-256 of canonical JSON, Ed25519, the trusted keys, str and int of Python, the
-- Unicode database, the patterns that a secret text matches, the providers that a provider wraps, and
-- the provider that reconcile asks. Messages and reasons keep their parts but not their wording.
--
-- Verification/Toy is the digest and the signature on which the tests run the verifier.
--
-- Not modelled: the command line, the wrappers of guarded functions, key files, network and console
-- input and output, the move of a journal into an archive, countersignatures, and the reports of
-- privacy and export. Of the providers, FileRateLimitProvider, PredicateProvider with AllowListProvider
-- and WitnessFreshnessProvider are left, and TimeoutApprovalProvider races a thread against a clock.
pub mod Common
pub mod Policy
pub mod Reconcile
pub mod Resolution
pub mod Json
pub mod Journal
pub mod Verification
pub mod Engine
pub mod Archive
pub mod Audit
pub mod Canonical
pub mod Checkpoint
