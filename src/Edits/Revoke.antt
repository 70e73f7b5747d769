-- ===== src/Edits/Revoke.antt =====
-- `MarkDeleted` of whatsapp-bridge/internal/database/edits_calls.go: a message is deleted for
-- everyone. `is_admin` is what the callback would answer.
use whatsapp_mcp_pro.Base.{
  ℕ, List, [], ◌∷◌, ◌++◌, Option, none, some, Bool, true, false, not, ◌&&◌, ◌||◌, String, str_eq,
  if◌then◌else◌, is_some, find, update,
}
use whatsapp_mcp_pro.Edits.Rows.{
  GoText, MessageRow, Store, is_message, empty_media, ensure_chat, find_message_chat,
  is_imported_message_id, first_chat, nullif,
}
use whatsapp_mcp_pro.Edits.Authors.{Actor, is_author}

-- `Revoke`
pub record Revoke : Type 0 where
  pub target : String
  pub chat_jids : List String
  pub at : ℕ
  pub by : Actor
  pub author : Actor
  pub is_admin : Bool
  pub trusted : Bool

-- `RevokeResult`
pub record RevokeResult : Type 0 where
  pub result_chat : String
  pub newly : Bool
  pub is_rejected : Bool
  pub is_ignored : Bool

abbrev pub no_revoke : String → RevokeResult
no_revoke chat = record {
  result_chat = chat;
  newly = false;
  is_rejected = false;
  is_ignored = false;
}

abbrev pub nobody : Actor
nobody = record { actor_jid = ""; forms = []; is_me = false }

-- The stand-in row of a message that was never stored: only a trusted revoke names its author.
unfoldable pub revoked_row : Revoke → String → MessageRow
revoked_row r chat =
    let author = if r.trusted then r.author else nobody in
    record {
      id = r.target;
      chat_jid = chat;
      sender = some author.actor_jid;
      sender_name = some author.actor_jid;
      content = some "";
      timestamp = r.at;
      is_from_me = author.is_me;
      media = empty_media;
      edited_at = none;
      is_edited = false;
      edit_count = 0;
      deleted_at = none;
      deleted_by = none;
    }

-- `SET deleted_at = ?, deleted_by = ?  … WHERE deleted_at IS NULL`
unfoldable pub deleted : ℕ → String → MessageRow → MessageRow
deleted at by r =
    if is_some r.deleted_at then r else record r { deleted_at = some at; deleted_by = nullif by }

abbrev pub is_live : Option MessageRow → Bool
is_live none = false
is_live (some r) = not (is_some r.deleted_at)

-- The end of `MarkDeleted`.
unfoldable pub set_deleted : Revoke → String → Store → Store × Option RevokeResult
set_deleted r chat s = (
  record s {
    messages = update (is_message r.target chat) (deleted r.at r.by.actor_jid) s.messages;
  },
  some (record (no_revoke chat) { newly = is_live (find (is_message r.target chat) s.messages) }),
)

module _ (go : GoText) where
  unfoldable pub revoke_unstored : Revoke → Store → Store × Option RevokeResult
  revoke_unstored r s =
      let chat = first_chat r.chat_jids in
      if not r.trusted && not r.is_admin
      then (s, some (record (no_revoke chat) { is_ignored = true }))
      else set_deleted r chat (record s {
        chats = ensure_chat chat s.chats;
        messages = s.messages ++ revoked_row r chat ∷ [];
      })

  unfoldable pub revoke_stored : Revoke → String → Store → Store × Option RevokeResult
  revoke_stored r chat s = elim (find (is_message r.target chat) s.messages) [
    | none ↦ (s, none)
    | some m ↦
        if not r.trusted
          && (not (is_author go s.identities m.sender chat m.is_from_me r.by) && not r.is_admin)
        then (s, some (record (no_revoke chat) { is_rejected = true }))
        else set_deleted r chat s
  ]

  -- `MarkDeleted`; none is its error.
  unfoldable pub mark_deleted : Revoke → Store → Store × Option RevokeResult
  mark_deleted r s =
      let chat = first_chat r.chat_jids in
      if str_eq r.target "" || str_eq chat ""
      then (s, none)
      else if is_imported_message_id r.target
      then (s, some (record (no_revoke chat) { is_rejected = true }))
      else elim (find_message_chat r.target r.chat_jids s.messages) [
        | none ↦ revoke_unstored r s
        | some stored ↦ revoke_stored r stored s
      ]
