-- ===== src/Lib.antt =====
-- A verification library for Nebula OS (agent_company_os), an operating system for a company of agents:
-- goals, tasks, executions and attempts with guarded lifecycles, a store with an audit log, and a
-- service of atomic commands.
--
-- Domain: agent_company_os/domain. Domain.Validation has the text cleaning, the checks of time,
--   identifiers and versions (validation.py, ids.py); Domain.Errors the errors as values (errors.py);
--   Domain.Transitions and Domain.Events the audit records. Domain.Workspace, Goal, Task, TaskAttempt
--   and Execution have one function for each method of the class of that name: `check` is
--   `__post_init__`, `transition` is `_transition`, `allowed` is the table `_ALLOWED`. Domain.Lifecycle
--   states what the four lifecycles have in common and proves it for each.
-- Store: agent_company_os/adapters/in_memory.py. Store.Tables has the dictionaries, the queries and
--   `_references`; Store.Kinds what `_add` and `_save` read of each class; Store.Ops the two writes
--   and the log. Store.Steps is the relation of accepted writes, and Store.Audit, Store.References,
--   Store.Limits and Store.Attempts its invariants.
-- Service: agent_company_os/application/service.py. Service.Session has the state, the ports and
--   `transaction`; Service.Create, Service.Guards and Service.Changes the commands; Service.Effects
--   and Service.Atomic show that each makes one write or none; Service.Runs runs sequences of calls.
--   Service.Results says what a call that returns has checked, and Service.Rules applies it to the
--   three completions. Service.Accepted and Progress say when a command on a goal is carried out, and
--   Service.Abstract sees the service as a map from identifiers to entities; Service.Stale is about
--   callers that have seen another version of an entity than the stored one.
-- Planning: agent_company_os/domain/orchestration.py and plan_validation.py. Planning.Policy and
--   Planning.Plan have the data and the checks of their constructors, Planning.Search the recursive
--   `visit`, Planning.Validate the rest of `validate_plan`. Planning.Depths, Visits and Tour show
--   that the search ends and what its depths say, Planning.Bounds that it refuses nothing that has
--   ranks, Planning.Checks what the other checks accept, Planning.Accepted and Chains the results.
--   Planning.Run has the runs with `evolve`, and Planning.Budgets what every course of it keeps.
-- Governance: agent_company_os/domain/governance.py and application/governance.py. Governance.Tools,
--   Policy and Action have the data with the checks of their constructors, Governance.Same when two
--   are equal, Governance.Records and Log the part of adapters/runtime_store.py that keeps policies,
--   governed actions and their events, Governance.Review the methods of GovernanceService.
--   Governance.Decided says what the checks make of the decisions, Governance.Written, Granted, Claims
--   and Consumption what each method writes, Governance.Authority and History what every course of
--   changes keeps. Governance.Invocation has the tool invocations of domain/tools.py, and
--   Governance.Finishing their end; Governance.Receipt has the receipts and observations of a call and
--   the contract of a tool, Governance.Receipts what a receipt of a finished call is. Clock readings are
--   arguments of each method, and the digest of an
--   intent is a parameter of its check.
-- Organisation: agent_company_os/domain/organization.py. Organization.Data has the parts with their
--   checks, Organization.Structure and Graph the checks of a version, Organization.Leads the count of
--   leads, Organization.Lines and Reporting what the loops over the reporting edges and up the lines
--   keep, Organization.Hierarchy and Accepted what an accepted version is.
-- Codec: agent_company_os/adapters/durable_codec.py. Codec.Values has JSON values, Python values, type
--   hints and the registry of classes, Codec.Encode, Decode and Records the two directions,
--   Codec.Typed which values have a type and what presents them, Codec.Parts, Decoded, Encoded, Sorted
--   and Ordered the lemmas of the round trip in Codec.RoundTrip, Codec.Made the values that decoding
--   makes, Codec.Leaves and Sound what it returns. The fuel of `decode` is the depth of calls that
--   Python allows.
-- Knowledge: agent_company_os/domain/knowledge.py and domain/chunking.py. Knowledge.Text has texts by
--   positions, Knowledge.Data sources and chunks with their checks, Knowledge.Chunking the cutting of a
--   text; Knowledge.Pieces, Chunks and Content say what comes of it. The loop over what remains of a
--   paragraph has fuel, one unit for each character, and each round takes one or more.
-- Communication: agent_company_os/domain/communication.py. Communication.Data, Messages and Handoffs
--   have the data with their checks and methods; Communication.MessageCourse and HandoffCourse say what
--   every course of calls keeps, by the rule of Domain.Courses.
-- Prelude: Boolean tests, lists, dictionaries and signed integers that the others share.
--
-- An identifier is its text, a version a natural number, and a `datetime` an instant and the offset
-- of its zone. The clock and the generator of identifiers are parameters of the service: a function
-- from the number of the call to its result. A Python exception is the error of a result; what a
-- command did before it raised is undone by `transaction`, which restores the store and not the clock.
-- Python's dictionaries keep the order of insertion, and so do those of Prelude.Dictionary.
-- The loops of the modelled code run over lists. The recursion of `visit` has fuel, one unit more
-- than the plan has tasks: each call enters a task that is not being visited. The way up the reporting
-- lines has one unit more than the bound on its depth: each round sees one node more.
--
-- Not modelled: messages and display-only details of errors; the lock of the store, since calls run
-- one after another; persistence in SQLite, the HTTP host, the command line and the user interface,
-- which are input and output; the model providers, which are external; the
-- services of orchestration, memory, knowledge, communication and organisation above the data
-- modelled here, the agent runtime, the execution of tools, recovery and the operator's host.
mod Prelude
pub mod Domain
pub mod Store
pub mod Service
pub mod Planning
pub mod Governance
pub mod Organization
pub mod Codec
pub mod Knowledge
pub mod Communication
