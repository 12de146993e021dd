-- ===== src/Lib.antt =====
-- Pocage: a backend that queues prompts as runs for the daemons of coding agents, streams the events
-- of a run to its viewers, and keeps the index of sessions. This library models its in-memory core.
--
-- Parts and files. Paths are from the root of the repository.
--   Prelude, Dict, Text, Json   what Python and its library give: lists and their sorting, dicts in
--     insertion order, text, and JSON values with the size of their compact ASCII form.
--   Events    backend/app/events.py. Queue is one subscriber's bounded queue with
--     `_drop_first_matching`, `_drop_oldest` and `_publish_to_queue`; Broker is `EventBroker`.
--   Rows      the statuses, stored events and permission requests that the next two parts share.
--   Transcript   backend/app/transcript_projection.py. Updates is what an update shows, Segments is
--     `build_run_transcript_items` and Synced is `build_synced_session_transcript_items`.
--   Runtime   backend/app/runtime_state.py. State is the data of `RuntimeState`; Payload
--     the truncation of event payloads; Prompt the prompt items; Runs the runs and the queue;
--     Sessions the session index; RunEvents, Permissions, Cleanup and Transcripts the methods of those names.
--   Executor   backend/app/executor_manager.py. Defs is the state of `ExecutorManager` with `register`
--     and `unregister`; Dispatch is `dispatch_pending`, `request_cancel` and
--     `submit_permission_decision`; Handlers is `handle_executor_event`, with its branches for runs.
--     Answers, Requests and Results are the requests that wait for a daemon and its answers, Pointers the
--     table of session pointers, Listing `list_remote_sessions` and what syncs and resolves sessions.
--   Waiters   the dicts of `asyncio` futures under two texts, which both sides keep for answers.
--   ContextSearch   backend/app/context_search.py: Matching is `_score_candidate`, Search the rest, on a
--     tree of folders that stands for what `os.walk` lists; Order is the order of texts.
--   Access   backend/app/control_api.py and daemon_auth.py: Defs has the rows of db_models.py, Pairing
--     the handlers, Codes and Tokens what becomes of a pairing code and of the token of a machine.
--   Connector   connector/pocage/acp_client.py: PromptItems and McpServers convert what a run brings,
--     AgentClient and AgentPermissions are `AcpProcessClient`, Calls its histories. And
--     connector/pocage/executor.py: Connection is `run_forever`, Executor the permission requests and
--     runs of `PocageExecutor`, Steps its histories, Messages what it reads and sends.
-- The executor manager calls the runtime state, which calls the transcripts, and publishes each stored
-- event through the broker.
-- A method is a function from the state, with what `utc_now` and `new_id` return as arguments, to the
-- new state and the result. The lock of `RuntimeState` and the single thread of the event loop make a
-- method one step; histories of steps are lists of calls (Runtime.Reach, Events.Delivery).
--
-- Every loop but two is structural recursion on the list that it walks. `list_remote_sessions` has fuel
-- for a number of rounds, since it need not end. The loop of `dispatch_pending`
-- has fuel for one round more than there are idle daemons: a round with progress makes one of them
-- busy, and one without it is the last. Time stamps are texts; the function `instant`, an argument,
-- stands for `_parse_timestamp` on the stamps that `utc_now` writes, and gives microseconds. The
-- validation by the models of `acp.schema` is the argument `validate` of the transcripts. Of the executor manager, `sends` says whether a message to a
-- daemon is delivered, `models` is the validation by the pydantic models, `text_of` is `str`,
-- `hash_secret` the one of security.py and `seen_at` stands for `_parse_remote_timestamp`; of the search,
-- `as_uri` gives the address of a path; in Access, `drawn` holds the ids and secrets that are drawn;
-- of the connector, `lower` is `str.lower`. A call of the agent is two steps, its start and its end
-- with the agent's answer as an argument, so that updates and other calls can stand between them.
--
-- Not modelled: the HTTP and WebSocket handlers but for those on machines, sign-in, settings, the
-- database but for the rows of machines and session pointers, the connector's process, pipes and
-- socket, and the web client.
pub mod Prelude
pub mod Dict
pub mod Text
pub mod Json
pub mod Rows
pub mod Events
pub mod Transcript
pub mod Runtime
pub mod Waiters
pub mod Executor
pub mod ContextSearch
pub mod Access
pub mod Connector
