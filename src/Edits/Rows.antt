-- ===== src/Edits/Rows.antt =====
-- The tables of whatsapp-bridge/internal/database/edits_calls.go. Instants are nanoseconds, and a
-- NULL is none. (id, chat_jid) is the primary key of `messages`, and (chat_jid, message_id, edit_id)
-- is UNIQUE in `message_edits`, whose rows stand in the order of their row IDs. A statement that
-- SQLite refuses rolls its transaction back and is left out. Go's strings are given: `trim` is
-- strings.TrimSpace, `cut` is strings.Cut at "@", `stamp_key` is "ts-" and the milliseconds.
use text.Mathlib.Text.{starts_with}
use whatsapp_mcp_pro.Base.{
  ℕ, ◌+◌, List, [], ◌∷◌, ◌++◌, Option, none, some, Bool, true, not, ◌&&◌, String, str_eq,
  if◌then◌else◌, is_some, find, update, filter,
}

pub record GoText : Type 0 where
  pub trim : String → String
  pub cut : String → Option (String × String)
  pub stamp_key : ℕ → String

-- The media columns, which nothing here reads.
pub record Media : Type 0 where
  pub media_type : Option String
  pub filename : Option String
  pub url : Option String
  pub direct_path : Option String
  pub media_key : Option String
  pub file_sha256 : Option String
  pub file_enc_sha256 : Option String
  pub file_length : Option ℕ

pub record MessageRow : Type 0 where
  pub id : String
  pub chat_jid : String
  pub sender : Option String
  pub sender_name : Option String
  pub content : Option String
  pub timestamp : ℕ
  pub is_from_me : Bool
  pub media : Media
  pub edited_at : Option ℕ
  pub is_edited : Bool
  pub edit_count : ℕ
  pub deleted_at : Option ℕ
  pub deleted_by : Option String

pub data EditStatus : Type 0 where
  applied superseded rejected pending : EditStatus

pub data EditSource : Type 0 where
  live history api : EditSource

pub record EditRow : Type 0 where
  pub message_id : String
  pub edit_chat : String
  pub edit_id : String
  pub old_content : Option String
  pub new_content : String
  pub made_at : ℕ
  pub editor_jid : Option String
  pub source : EditSource
  pub status : EditStatus

-- A row of `identities`: the forms of one account, "" for a NULL.
pub record IdentityRow : Type 0 where
  pub jid : String
  pub lid : String
  pub phone_jid : String

-- `embeddings` are the keys of message_embeddings.
pub record Store : Type 0 where
  pub messages : List MessageRow
  pub edits : List EditRow
  pub chats : List String
  pub identities : List IdentityRow
  pub embeddings : List (String × String)

abbrev pub is_message : String → String → MessageRow → Bool
is_message id chat r = str_eq r.id id && str_eq r.chat_jid chat

abbrev pub is_edit : String → String → String → EditRow → Bool
is_edit chat id key r = str_eq r.edit_chat chat && (str_eq r.message_id id && str_eq r.edit_id key)

abbrev pub empty_media : Media
empty_media = record {
  media_type = some "";
  filename = some "";
  url = none;
  direct_path = none;
  media_key = none;
  file_sha256 = none;
  file_enc_sha256 = none;
  file_length = none;
}

-- `INSERT OR IGNORE INTO chats`
unfoldable pub ensure_chat : String → List String → List String
ensure_chat chat cs = if is_some (find (λ c. str_eq c chat) cs) then cs else cs ++ chat ∷ []

-- `findMessageChat`
unfoldable pub find_message_chat : String → List String → List MessageRow → Option String
find_message_chat id [] ms = none
find_message_chat id (chat ∷ chats) ms =
    if not (str_eq chat "") && is_some (find (is_message id chat) ms)
    then some chat
    else find_message_chat id chats ms

-- `IsImportedMessageID`
unfoldable pub is_imported_message_id : String → Bool
is_imported_message_id id = starts_with id "import-"

-- `chatJIDs[0]`, or "" where there is none.
abbrev pub first_chat : List String → String
first_chat [] = ""
first_chat (chat ∷ chats) = chat

unfoldable pub null_if_empty : GoText → String → Option String
null_if_empty go s = if str_eq (go.trim s) "" then none else some s

-- `NULLIF(s, '')`
abbrev pub nullif : String → Option String
nullif s = if str_eq s "" then none else some s

abbrev pub text_of : Option String → String
text_of none = ""
text_of (some s) = s

-- The columns of `setEditedContent`.
unfoldable pub edited : String → ℕ → ℕ → MessageRow → MessageRow
edited content at count r = record r {
  content = some content;
  edited_at = some at;
  is_edited = true;
  edit_count = r.edit_count + count;
}

-- `setEditedContent`
unfoldable pub set_edited_content : String → String → String → ℕ → ℕ → Store → Store
set_edited_content id chat content at count s = record s {
  messages = update (is_message id chat) (edited content at count) s.messages;
  embeddings =
      filter (λ (key : String × String). not (str_eq key.0 id && str_eq key.1 chat)) s.embeddings;
}

-- The columns of an edit that does not become the content.
unfoldable pub counted : ℕ → MessageRow → MessageRow
counted count r = record r { is_edited = true; edit_count = r.edit_count + count }
