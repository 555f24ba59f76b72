-- ===== src/Lib.antt =====
-- A model of the core of CloudAgent (crates/agent-core): the history of a conversation, its log
-- and the rebuilding of a history from the log, the compaction of a history that is too long, the
-- conversations in memory with their active turns, and what a turn counts while it runs; and of
-- the tools that patch and edit files (crates/agent-tools).
--
-- How the parts interact. A turn appends items to a ConversationHistory and logs RolloutItems. The
-- log is filtered by the persistence policy. When a conversation is opened again its history is
-- rebuilt from the log: from the last compaction on, and turn by turn. A history over its token
-- limit is split into a prefix, which a model summarises, and a tail, whose user messages stay.
-- AgentState keeps the conversations behind one lock and hands out their turns; a turn that needs
-- the user's approval waits in the ServerRequestCoordinator. The patch tool parses a patch, finds
-- its hunks in the decoded files, plans all changes and only then writes them. The edit tool
-- checks each edit against the text that the edits before it leave.
--
-- Files:
--   Base      tests, lists, texts and maps that all parts share.
--   Data      conversation/input.rs, tool/mod.rs, conversation/history.rs, conversation/items.rs,
--             turn/events.rs, runtime_item.rs, rollout/mod.rs: the data types.
--   Conversation  conversation/history.rs (History, Outputs) and context/markers.rs (Markers).
--   Compaction    context/compaction: support.rs (Estimate), plan.rs (Plan), summary.rs (Summary),
--             replacement.rs (Replacement).
--   Rollout   rollout/policy.rs (Policy) and rollout/reconstruction.rs (Replay); proofs in Open,
--             Total, Persisted and Turns.
--   State     state/mod.rs (Agent), conversation/state.rs (Conversation), turn/request_id.rs
--             (RequestIds); steps in Steps; proofs in Invariant, Busy, Exclusive, Effects,
--             Finish.
--   Requests  crates/agent-app-server/src/server_request/coordinator.rs; the listing in
--             Listing; proofs in Lookups, Once and Drains.
--   Turn      turn/compaction/window.rs (Window), turn/compaction/policy.rs (AutoCompact),
--             turn/token_usage.rs (TokenUsage), turn/loop_guard.rs (LoopGuard), turn/utils.rs (Pages).
--   Truncation  output_truncation.rs; proofs in Budget.
--   Codec     crates/agent-tools/src/impls/text_codec.rs; proofs in RoundTrip.
--   Patch     crates/agent-tools/src/impls/fs/apply_patch.rs: the types (Data), parse_unified_patch
--             (Parse), validate_file_patches (Validate), seek_sequence (Seek), the lines of a hunk
--             (Hunks), closest_current_lines (Closest), compute_replacements and apply_hunks
--             (Compute), apply_replacements (Replace), plan_file_changes (Plan) and
--             apply_planned_changes (Write). Parse/Print prints patches for the proofs.
--   Edit      crates/agent-tools/src/impls/fs/edit_file.rs: the strings (Strings), the quotation
--             marks (Quotes), the preparation of edits (Edit), the patch that is shown (Render).
--   Witnesses  the theorems applied to concrete values.
--
-- Conventions. A method on `&mut self` is a function that returns the new value, with its result
-- where it has one. A panic is `none` of an Option. A String is the list of its code points,
-- `str::len` the length of its UTF-8. `usize` and `u64` are numbers below 2 ^ 64; additions wrap
-- or saturate as written in the source. A HashMap is a list of keys and values. Loops `for index
-- in (1..len).rev()` recur on the index; the loop that moves the start of the tail runs on one
-- round more than the start, which is enough because each round but the last lowers it.
--
-- Parameters. The products of f32 values (`scaled`, `derived`), the JSON text of a structured
-- result, the file system that the patch tool works on with resolve_workspace_path (the record
-- FileSystem of Patch/Plan, without laws), the table of alphabetic characters, the senders of
-- replies, and tokio's cancellation tokens, with the laws that a new token is not cancelled and
-- that `cancel` cancels its token and no other. A serde_json::Value stands by its compact text.
--
-- Not modelled: the turn loop and its host, tool batches, the server, the other tools, the model
-- providers, the clients and the command line, which are I/O around this core.
pub mod Base
pub mod Data
pub mod Conversation
pub mod Compaction
pub mod Rollout
pub mod Requests
pub mod State
pub mod Turn
pub mod Codec
pub mod Patch
pub mod Edit
pub mod Truncation
pub mod Witnesses
