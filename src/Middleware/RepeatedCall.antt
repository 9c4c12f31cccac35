-- ===== src/Middleware/RepeatedCall.antt =====
-- `RepeatedToolCallMiddleware` and the functions that it uses.
pub mod ThisTurn
use Prim.Native.String.{compare}
use text.Mathlib.Text.{is_le}
use mathlib.Core.List.{reverse}
use privibe.Prelude.{
  ℕ, String, Bool, true, false, not, ◌&&◌, ◌||◌, Option, none, some, List, [], ◌∷◌, ◌++◌, map,
  length, leb, ltb, if◌then◌else◌, ◌==◌, or_empty,
}
use privibe.Message.{LlmMessage, ToolCall, is_user, is_assistant, calls_of}
use privibe.Middleware.{MiddlewareResult, Reason, Context, proceed, stopped}

-- A tool's name and its canonical arguments.
pub record CallKey : Type 0 where
  pub name : String
  pub arguments : String

-- `canonical_json` is `json.dumps(json.loads(raw), sort_keys=True, …)`, `none` where that raises.
abbrev pub tool_call_key : (String → Option String) → Option String → Option String → CallKey
tool_call_key canonical_json name arguments =
    let raw = or_empty arguments in
    record {
      name = or_empty name;
      arguments = elim (canonical_json raw) [ none ↦ raw | some canonical ↦ canonical ];
    }

-- The set as a list: only membership in it is used.
pub message_tool_call_keys : (String → Option String) → LlmMessage → List CallKey
message_tool_call_keys canonical_json message =
    map (λ tc. tool_call_key canonical_json tc.function.name tc.function.arguments)
      (calls_of message)

-- The loop of `assistant_messages_this_turn`, over the messages from the newest on.
unfoldable pub walk_back : ℕ → List LlmMessage → List LlmMessage → List LlmMessage
walk_back limit found [] = found
walk_back limit found (msg ∷ older) =
    let skipped = walk_back limit found older in
    let with_msg = found ++ msg ∷ [] in
    let further = walk_back limit with_msg older in
    if is_user msg.role && not msg.injected
    then found
    else if is_assistant msg.role
    then (if leb limit (length with_msg) then with_msg else further)
    else skipped

pub assistant_messages_this_turn : List LlmMessage → ℕ → List LlmMessage
unfolding walk_back
assistant_messages_this_turn messages limit = walk_back limit [] (reverse messages)

same_key : CallKey → CallKey → Bool
same_key a b = a.name == b.name && a.arguments == b.arguments

contains_key : CallKey → List CallKey → Bool
unfolding same_key
contains_key k [] = false
contains_key k (j ∷ js) = same_key k j || contains_key k js

in_all : (String → Option String) → CallKey → List LlmMessage → Bool
unfolding contains_key message_tool_call_keys
in_all canonical_json k [] = true
in_all canonical_json k (m ∷ ms) =
    contains_key k (message_tool_call_keys canonical_json m) && in_all canonical_json k ms

-- `set.intersection(*(message_tool_call_keys(m) for m in recent))`
repeated_among : (String → Option String) → List CallKey → List LlmMessage → List CallKey
unfolding in_all
repeated_among canonical_json [] ms = []
repeated_among canonical_json (k ∷ ks) ms =
    let rest = repeated_among canonical_json ks ms in
    if in_all canonical_json k ms then k ∷ rest else rest

repeated_calls : (String → Option String) → List LlmMessage → List CallKey
unfolding repeated_among
repeated_calls canonical_json [] = []
repeated_calls canonical_json (m ∷ ms) =
    repeated_among canonical_json (message_tool_call_keys canonical_json m) ms

-- The name of `sorted(repeated)[0]`, of a list that begins with `best`.
least_name : String → List CallKey → String
least_name best [] = best
least_name best (k ∷ ks) = least_name (if is_le (compare best k.name) then best else k.name) ks

unfoldable pub repeated_before_turn :
    {Float : Type 0} → (String → Option String) → ℕ → Context Float → MiddlewareResult Float
unfolding repeated_calls least_name
repeated_before_turn canonical_json streak ctx =
    let recent = assistant_messages_this_turn ctx.messages streak in
    if ltb (length recent) streak then proceed else elim (repeated_calls canonical_json recent) [
      | [] ↦ proceed
      | k ∷ ks ↦ stopped (Reason.repeated_call (least_name k.name ks) streak)
    ]
