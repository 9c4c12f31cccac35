-- ===== src/Message.antt =====
-- Messages and tool calls: privibe/core/types.py, and the tags of privibe/core/utils/tags.py.
use Prim.Native.String.{◌++◌}
use privibe.Prelude.{ℕ, String, Bool, true, false, Option, none, some, List}

pub record FunctionCall : Type 0 where
  pub name : Option String
  pub arguments : Option String

pub record ToolCall : Type 0 where
  pub id : Option String
  pub index : Option ℕ
  pub function : FunctionCall

pub data Role : Type 0 where
  system user assistant tool : Role

-- The fields that the program stores and sends; `meta`, which is for display only, is left out.
pub record LlmMessage : Type 0 where
  pub role : Role
  pub content : Option String
  pub injected : Bool
  pub steering : Bool
  pub auto_continue : Bool
  pub reasoning_content : Option String
  pub reasoning_signature : Option String
  pub reasoning_message_id : Option String
  pub tool_calls : Option (List ToolCall)
  pub name : Option String
  pub tool_call_id : Option String
  pub message_id : Option String
  pub reasoning_effort : Option String

-- `LLMMessage(role=…, content=…, …)`: the fields that the caller leaves out have their defaults.
abbrev pub new_message : Role → Option String → LlmMessage
new_message r c = record {
  role = r;
  content = c;
  injected = false;
  steering = false;
  auto_continue = false;
  reasoning_content = none;
  reasoning_signature = none;
  reasoning_message_id = none;
  tool_calls = none;
  name = none;
  tool_call_id = none;
  message_id = none;
  reasoning_effort = none;
}

abbrev pub is_system : Role → Bool
is_system Role.system = true
is_system _ = false

abbrev pub is_user : Role → Bool
is_user Role.user = true
is_user _ = false

abbrev pub is_assistant : Role → Bool
is_assistant Role.assistant = true
is_assistant _ = false

abbrev pub is_tool : Role → Bool
is_tool Role.tool = true
is_tool _ = false

-- `msg.tool_calls or []`.
abbrev pub calls_of : LlmMessage → List ToolCall
calls_of m = elim m.tool_calls [ none ↦ List.[] | some cs ↦ cs ]

abbrev pub opening : String → String
opening tag = "<" ++ (tag ++ ">")

abbrev pub closing : String → String
closing tag = "</" ++ (tag ++ ">")

-- `<tag>body</tag>`.
abbrev pub tagged : String → String → String
tagged tag body = opening tag ++ (body ++ closing tag)

abbrev pub vibe_warning_tag : String
vibe_warning_tag = "vibe_warning"

abbrev pub context_refresh_tag : String
context_refresh_tag = "context_refresh"

abbrev pub cancellation_tag : String
cancellation_tag = "user_cancellation"
