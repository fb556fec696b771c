-- ===== src/Lib.antt =====
-- Agent Workboard: the core of a local control plane for coding-agent sessions.
--
-- The program keeps workspaces, features and work items, launches provider sessions (Claude
-- Code and Codex) for them in terminals, reads the transcripts that the providers write, and
-- records what became of the work. This library models the parts of it that decide something,
-- as functions on values.
--
-- crates/core is the vocabulary that every other crate uses; it has no store.
--   Core/Workflow and its children: crates/core/src/workflow.rs, the states of a workflow run,
--     the table can_transition_to and the runs through it.
--   Core/Conversation, Core/Names, Core/Hierarchy, Core/Live: crates/core/src/conversation.rs,
--     crates/core/src/hierarchy.rs and crates/core/src/live.rs, identities, slugs and keys,
--     owners and statuses, evidence of live sessions.
--   Core/Profile: crates/core/src/profile.rs, LaunchProfile::new, suggested, legacy_unknown and
--     validate_for_launch.
--   Core/Launch: crates/core/src/launch.rs, ManagedLaunchSpec::new (Core/Launch/Managed),
--     ResumeLaunchSpec::new (Core/Launch/Resume), sanitise_terminal_title and
--     direct_child_command; Core/Launch/Safety and Core/Launch/Acceptance say in terms of
--     characters and arguments what a launch takes and runs.
--   Core/Association: crates/core/src/association.rs, AssociationEvent::new, new_manual and the
--     decoder (Core/Association/Events).
--   Core/Actions: crates/core/src/actions.rs, the actions that a user is offered.
--   Core/WorkItemState: crates/core/src/work_item_state.rs, the recorded state of a work item
--     and its updates.
-- crates/native reads what the providers write.
--   Native/Jsonl: crates/native/src/jsonl.rs, stream_jsonl with its cursor. Its records, limits
--     and failures are those of crates/native/src/model.rs.
--   Native/Transcript: crates/native/src/model.rs, TranscriptBuilder with push, flush and
--     finish; Native/Transcript/Pushes is about what its chunks say, Native/Transcript/Chunks
--     about how long they are.
-- crates/application decides what happens to the stored work.
--   App/Actions: crates/application/src/actions.rs, workflow_actions, from the states of
--     Core/Workflow to the actions of Core/Actions.
--   App/WorkItemState: crates/application/src/work_item_state.rs, validate_update,
--     validate_revisions, validate_actor_transition (App/WorkItemState/Transitions) and
--     state_from_update; App/WorkItemState/Integrations says what integration_ready reads,
--     App/WorkItemState/Moves and App/WorkItemState/Statuses which changes of status are
--     accepted, and App/WorkItemState/Lifecycle follows accepted updates one after the other.
--   App/PlanningWorkflow: crates/application/src/planning_workflow.rs, append_event and
--     transition_feature on the rows of the tables of crates/application/src/storage.rs;
--     App/PlanningWorkflow/Journal has the events of a run as a run of Core/Workflow,
--     App/PlanningWorkflow/Runs all runs together.
--   App/FollowUp: crates/application/src/follow_up.rs, FollowUpService with queue
--     (App/FollowUp/Queue), lease_next (App/FollowUp/Query and App/FollowUp/Lease),
--     finish_delivery and deliver_next (App/FollowUp/Delivery), on the table session_follow_ups
--     and the tables that it is joined to; App/FollowUp/Clients has SystemFollowUpExecutor,
--     whose clients of crates/adapter-claude/src/follow_up.rs and
--     crates/adapter-codex/src/app_server.rs are parameters, and App/FollowUp/Histories any
--     sequence of these operations, by any number of workers.
--   App/WorkProjection: crates/application/src/work_projection.rs, readiness and
--     dependency_layer, and work_item_actions and session_actions in
--     App/WorkProjection/Actions, from the rows of a feature's work items and their
--     dependencies.
-- crates/cli is the command line.
--   Cli/Selector: crates/cli/src/selector.rs, resolve with rank_all, candidate_score and
--     fuzzy_score; Cli/Selector/Tiers says what a query has in common with a candidate,
--     Cli/Selector/Offered and its siblings what resolve makes of it.
-- Prelude has the shared lists, results, tests and texts.
--
-- A text is the list of its code points, with the bytes of its UTF-8 form for Rust's len; in a
-- path or an argument a lone surrogate may stand for what is not Unicode. Identifiers and
-- instants are natural numbers. A function that returns early is a chain of Result, in the
-- order of the source. Numbers are natural numbers; the hash of Native/Jsonl wraps at 2 ^ 64 as
-- in the source. Revisions are not wrapped, since the store keeps them as signed 64-bit
-- numbers.
--
-- An instant of a follow-up is its number of nanoseconds, which the store compares as text: the
-- order is the same while these numbers have as many digits, from 2001 to 2286. A transaction
-- that fails leaves the tables as they were. Other processes may change the tables between the
-- lease of a follow-up and the end of its delivery, which are transactions of their own.
--
-- The loop of stream_jsonl runs on fuel, one more than the bytes that are left, since each
-- round that goes on reads at least one byte. dependency_layer runs on fuel, one more than the
-- number of edges, since each step down visits one more item that has an edge.
--
-- Parameters stand for code outside the repository: the JSON parser and encoder, the platform's
-- test for absolute paths, the digest SHA-256, the identifiers drawn at random, the printing of
-- numbers, and the providers' clients behind FollowUpExecutor. The rows of a table stand in a
-- list, in the order of their insertion. Of the SQLite store only those rows are modelled, with
-- the constraints that an operation may violate and the query of integration_ready. Not
-- modelled are git and the file system, the processes that are started, the daemon and its
-- protocol, the adapters beyond their follow-up requests and failures, the imports of older
-- data and the command line beyond its selector.
pub mod App
pub mod Cli
pub mod Core
pub mod Native
pub mod Prelude
