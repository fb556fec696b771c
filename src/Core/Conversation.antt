-- ===== src/Core/Conversation.antt =====
-- crates/core/src/conversation.rs: a provider and the identity that it gives to a conversation.
use agent_workboard.Prelude.{Text, is_blank, Result, ok, ◌>>◌, reject_if}

pub data Tool : Type 0 where
  claude codex : Tool

unfoldable pub Tool-discrete : Discrete Tool
Tool-discrete = hlevel

pub record ConversationRef : Type 0 where
  pub tool : Tool
  pub native_id : Text

pub data ConversationRefError : Type 0 where
  empty_native_id : ConversationRefError

unfoldable pub new_conversation_ref : Tool → Text → Result ConversationRef ConversationRefError
unfolding is_blank
new_conversation_ref tool native_id = do
  reject_if (is_blank native_id) empty_native_id
  ok (record { tool = tool; native_id = native_id })
