-- ===== src/Edits/Apply.antt =====
-- `ApplyEdit` of whatsapp-bridge/internal/database/edits_calls.go: one edit, in one transaction.
pub mod Row
pub mod Order
pub mod Runs
pub mod Lands
pub mod Grows
pub mod Replay
pub mod Foreign
use whatsapp_mcp_pro.Base.{
  ℕ, ◌+◌, List, [], ◌∷◌, ◌++◌, Option, none, some, Bool, true, false, not, ◌&&◌, ◌||◌, String,
  str_eq, leb, if◌then◌else◌, is_some, find, update,
}
use whatsapp_mcp_pro.Edits.Rows.{
  GoText, MessageRow, EditRow, EditStatus, applied, superseded, rejected, pending, EditSource,
  Store, is_message, is_edit, empty_media, ensure_chat, find_message_chat, is_imported_message_id,
  first_chat, null_if_empty, nullif, text_of, set_edited_content, counted,
}
use whatsapp_mcp_pro.Edits.Authors.{Actor, is_author}

-- `Edit`
pub record Edit : Type 0 where
  pub target : String
  pub chat_jids : List String
  pub text : String
  pub at : ℕ
  pub editor : Actor
  pub stanza_id : String
  pub origin : EditSource
  pub trusted : Bool

-- `EditResult`
pub record EditResult : Type 0 where
  pub result_chat : String
  pub replaced : String
  pub is_applied : Bool
  pub is_duplicate : Bool
  pub is_placeholder : Bool
  pub is_rejected : Bool
  pub is_pending : Bool

abbrev pub no_result : String → EditResult
no_result chat = record {
  result_chat = chat;
  replaced = "";
  is_applied = false;
  is_duplicate = false;
  is_placeholder = false;
  is_rejected = false;
  is_pending = false;
}

-- `editID`
unfoldable pub edit_key : GoText → Edit → String
edit_key go e = if str_eq e.stanza_id "" then go.stamp_key e.at else e.stanza_id

-- The row that the closure `record` inserts.
unfoldable pub edit_row : GoText → Edit → String → Option String → EditStatus → EditRow
edit_row go e chat old status = record {
  message_id = e.target;
  edit_chat = chat;
  edit_id = edit_key go e;
  old_content = old;
  new_content = e.text;
  made_at = e.at;
  editor_jid = null_if_empty go e.editor.actor_jid;
  source = e.origin;
  status = status;
}

abbrev pub is_recorded : GoText → Edit → String → Store → Bool
is_recorded go e chat s = is_some (find (is_edit chat e.target (edit_key go e)) s.edits)

-- The closure `record`, an INSERT OR IGNORE.
unfoldable pub record_edit : GoText → Edit → String → Option String → EditStatus → Store → Store
record_edit go e chat old status s =
    if is_recorded go e chat s
    then s
    else record s { edits = s.edits ++ edit_row go e chat old status ∷ [] }

-- An edit is the newest unless the message has a later one.
abbrev pub is_newest : ℕ → Option ℕ → Bool
is_newest at none = true
is_newest at (some last) = leb last at

module _ (go : GoText) where
  -- The edit of a stored message by its author, or a trusted one: recorded once, and the content
  -- only if no later edit is in place.
  unfoldable pub accept : Edit → String → Bool → MessageRow → Store → Store × EditResult
  accept e chat placeholder r s =
      let newest = is_newest e.at r.edited_at in
      let old = if newest && not placeholder then null_if_empty go (text_of r.content) else none in
      let status = if newest then applied else superseded in
      let recorded = record_edit go e chat old status s in
      let base = record (no_result chat) { is_placeholder = placeholder } in
      if is_recorded go e chat s
      then (s, record base { is_duplicate = true })
      else if newest
      then (
        set_edited_content e.target chat e.text e.at 1 recorded,
        record base { is_applied = true; replaced = if placeholder then "" else text_of r.content },
      )
      else (
        record recorded {
          messages = update (is_message e.target chat) (counted 1) recorded.messages;
        },
        base,
      )

  -- The rest of `ApplyEdit`, on a message that is stored in a chat.
  unfoldable pub apply_stored : Edit → String → Bool → Store → Store × Option EditResult
  apply_stored e chat placeholder s = elim (find (is_message e.target chat) s.messages) [
    | none ↦ (s, none)
    | some r ↦
        if not e.trusted && not (is_author go s.identities r.sender chat r.is_from_me e.editor)
        then (
          record_edit go e chat none rejected s,
          some (record (no_result chat) {
            is_rejected = true;
            is_duplicate = is_recorded go e chat s;
          }),
        )
        else let done = accept e chat placeholder r s in (done.0, some done.1)
  ]

  -- The row that stands in for a message that was never stored.
  unfoldable pub placeholder_row : Edit → String → MessageRow
  placeholder_row e chat = record {
    id = e.target;
    chat_jid = chat;
    sender = some e.editor.actor_jid;
    sender_name = some e.editor.actor_jid;
    content = some "";
    timestamp = e.at;
    is_from_me = e.editor.is_me;
    media = empty_media;
    edited_at = none;
    is_edited = false;
    edit_count = 0;
    deleted_at = none;
    deleted_by = none;
  }

  -- An edit of a message that is not stored: kept pending, or with a stand-in row if it is trusted.
  unfoldable pub apply_unstored : Edit → Store → Store × Option EditResult
  apply_unstored e s =
      let chat = first_chat e.chat_jids in
      if not e.trusted
      then (
        record_edit go e chat none pending s,
        some
            (record (no_result chat) { is_pending = true; is_duplicate = is_recorded go e chat s }),
      )
      else apply_stored e chat true (record s {
        chats = ensure_chat chat s.chats;
        messages = s.messages ++ placeholder_row e chat ∷ [];
      })

  -- `ApplyEdit`; none is its error.
  unfoldable pub apply_edit : Edit → Store → Store × Option EditResult
  apply_edit e s =
      let chat = first_chat e.chat_jids in
      if str_eq e.target "" || str_eq chat ""
      then (s, none)
      else if is_imported_message_id e.target
      then (s, some (record (no_result chat) { is_rejected = true }))
      else elim (find_message_chat e.target e.chat_jids s.messages) [
        | none ↦ apply_unstored e s
        | some stored ↦ apply_stored e stored false s
      ]
