-- ===== src/Lib.antt =====
-- privibe: a coding agent in the terminal. This library models the parts of it that keep the state
-- of a session and proves what they promise. Paths below are from the root of the repository.
--
-- How the parts work together: the agent loop (privibe/core/agent_loop.py) keeps one
-- `ConversationList`, runs the middleware pipeline before each LLM call, and around each tool call
-- hands the file's old content to the rewind manager and to the undo history. A session is resumed by
-- `restore`; a user goes back by a rewind or by the restore_file tool.
--
-- Message.antt            privibe/core/types.py (FunctionCall, ToolCall, Role, LLMMessage) and
--                         privibe/core/utils/tags.py: the messages that are stored and sent.
-- Conversation.antt       privibe/core/conversation.py: the class ConversationList, one function for
--                         each method; an exception is an `err`, a callback an entry of `trace`.
--   Ops, Prefix, Rewind   sequences of the operations, and what stays through them.
--   Repair, Restore       _fix_dangling_tool_calls, _drop_dangling_step_budget_warning,
--                         _apply_context_refresh and restore.
-- Middleware.antt         privibe/core/middleware.py: the results and the context.
--   StepBudget, Limits, Warnings, RepeatedCall, Pipeline
--                         the middlewares, MiddlewarePipeline, and AgentLoop._setup_middleware.
-- Disk.antt               files as a function from paths to contents, and FileSnapshot.
-- UndoStack.antt          privibe/core/rewind/undo_stack.py: FileUndoStack.
-- Rewind.antt             privibe/core/rewind/manager.py: RewindManager with the conversation and the
--                         disk that it works on.
-- HashedEdit.antt         privibe/core/tools/builtins/_hashed_core.py and the line hash of
--                         hashed_read.py beside it: addresses, resolve_replacements, hash checks.
--   ShiftMap              the splice of apply_replacements_to_file, _translate_interval,
--                         translate_stale_addresses and record_shift_generation.
--   Duplicates            _dup_prefix_len and _dup_suffix_len, as prepare_replacements uses them.
-- History.antt            privibe/cli/history_manager.py: HistoryManager.
-- Arity.antt              privibe/core/tools/arity.py: ARITY and build_session_pattern.
-- Windowing.antt          privibe/cli/textual_ui/windowing/state.py: SessionWindowing.
-- Permissions.antt        privibe/core/tools/permissions.py and _should_execute_tool of
--                         privibe/core/agent_loop.py: which tool calls run, and who is asked.
--   Paths                 privibe/core/tools/utils.py: which paths a file tool may touch.
--   Tokens, Commands      resolve_permission of privibe/core/tools/builtins/bash.py.
-- Wire.antt               privibe/core/llm/message_utils.py: the messages that a request is built from.
-- TextFile.antt           privibe/core/utils/textfile.py: TextFile, from_text and reattach_endings.
-- Todo.antt               privibe/core/tools/builtins/todo.py: the todo tool.
-- Ledger.antt             privibe/core/orchestrate/ledger.py: cap_text and the checkpoints of a run.
--   Files                 the other files of the ledger that a run writes.
-- Orchestrate             privibe/core/orchestrate: jobs that a manager and workers do in rounds.
--   Verifier, Bundle      verifier.py and snapshot.py: the job's command, and the listed files.
--   Parse, Prompt         parse.py and prompt.py: answers, and the texts that are sent.
--   Run, Run.Calls        loop.py: _Run, the state of a job, with its checkpoints, calls and parsing.
--                         What a run yields is kept in `events`, and each call answers from the world.
--   Rounds                _rounds and the functions around it, down to _finalize.
--   Start                 run_orchestration and _resume.
-- Retry.antt              privibe/core/utils/retry.py: async_retry.
-- Str.antt                the methods of Python's strings that the parts share.
-- Prelude.antt            shared names: tests and lists over the native numbers, integers, results.
-- The Examples module of each part runs it on concrete data.
--
-- Numbers: Python's integers are unbounded, so there is no wrap-around; where a number may be negative
-- it is a ℤ, and a natural number elsewhere. A loop is structural recursion over a list, with a list
-- that the code walks backwards given newest first, or over a count that the code itself has, such as
-- its retries. Two run on fuel: the rounds of a job, on one more than the rounds allowed, since each
-- round raises their counter, and the digits of a number, on its successor.
--
-- What comes from outside is an argument: the text of prompts and of a context refresh, JSON
-- canonicalisation, fnmatch, difflib's opcodes, what regular expressions match, the answers of the
-- model, what a job's command does, how a path resolves, which commands a shell's grammar finds, how
-- many seconds an attempt waits, floating-point comparisons (Middleware.Outside), the CRC-32 of a
-- file's text, and which files the operating system refuses to read and which to write. Strings are
-- compared as code points; a file is its bytes, and two paths name one file only if they are equal.
--
-- Not modelled: the asynchronous agent loop itself, the model backends and MCP connections, the
-- session log, the configuration, the terminal, console and ACP front ends, audio and speech, the
-- nanny, the corrections of prefixes and indentation in prepare_replacements, and the texts shown to
-- the user.
pub mod Prelude
pub mod Message
pub mod Conversation
pub mod Middleware
pub mod Disk
pub mod UndoStack
pub mod Rewind
pub mod HashedEdit
pub mod History
pub mod Arity
pub mod Windowing
pub mod Todo
pub mod Ledger
pub mod Retry
pub mod Wire
pub mod Permissions
pub mod Str
pub mod Orchestrate
pub mod TextFile
