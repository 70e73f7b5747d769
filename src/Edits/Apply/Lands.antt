-- ===== src/Edits/Apply/Lands.antt =====
-- What an edit leaves behind, once ApplyEdit of whatsapp-bridge/internal/database/edits_calls.go has
-- met its message: a row of its own, and the message where it was.
use whatsapp_mcp_pro.Base.{
  ◌≡◌, inl, inr, List, Option, none, some, Bool, true, not, ◌&&◌, String, eq_iff, if◌then◌else◌,
  arith, find, Option-cases, Bool-cases,
}
use whatsapp_mcp_pro.Edits.Rows.{
  GoText, MessageRow, EditStatus, applied, superseded, rejected, Store, is_message,
  find_message_chat, null_if_empty, text_of, edited, counted, set_edited_content,
}
use whatsapp_mcp_pro.Edits.Authors.{is_author}
use whatsapp_mcp_pro.Edits.Apply.{
  Edit, edit_key, edit_row, is_recorded, record_edit, is_newest, accept, apply_stored,
}
use whatsapp_mcp_pro.Edits.Apply.Row.{
  is_recorded-append, find_message_chat-update, edited-Keeps, counted-Keeps,
}

module _ (go : GoText) where
  pub record_edit-is_recorded :
      (e : Edit) (chat : String) (old : Option String) (status : EditStatus) (s : Store)
      → is_recorded go e chat (record_edit go e chat old status s) ≡ true
  unfolding record_edit edit_row
  record_edit-is_recorded e chat old status s = elim (Bool-cases (is_recorded go e chat s)) [
    | inl there ↦ ground (arith, there)
    | inr new ↦ ground (
      arith,
      new,
      is_recorded-append go e chat (edit_row go e chat old status) s,
      eq_iff chat chat,
      eq_iff e.target e.target,
      eq_iff (edit_key go e) (edit_key go e),
    )
  ]

  -- An edit that is recorded changes nothing.
  accept_again :
      (e : Edit) (chat : String) (placeholder : Bool) (r : MessageRow) (s : Store)
      → is_recorded go e chat s ≡ true
      → (accept go e chat placeholder r s).0 ≡ s
  unfolding accept
  accept_again e chat placeholder r s there = ground (arith, there)

  pub record_edit_again :
      (e : Edit) (chat : String) (old : Option String) (status : EditStatus) (s : Store)
      → is_recorded go e chat s ≡ true
      → record_edit go e chat old status s ≡ s
  unfolding record_edit
  record_edit_again e chat old status s there = ground (arith, there)

  pub apply_stored_again :
      (e : Edit) (chat : String) (placeholder : Bool) (s : Store)
      → is_recorded go e chat s ≡ true
      → (apply_stored go e chat placeholder s).0 ≡ s
  unfolding apply_stored
  apply_stored_again e chat placeholder s there =
      elim (Option-cases (find (is_message e.target chat) s.messages)) [
        | inl missing ↦ ground (arith, missing)
        | inr (r, row) ↦ ground (
          arith,
          row,
          accept_again e chat placeholder r s there,
          record_edit_again e chat none rejected s there,
        )
      ]

  accept-is_recorded :
      (e : Edit) (chat : String) (placeholder : Bool) (r : MessageRow) (s : Store)
      → is_recorded go e chat (accept go e chat placeholder r s).0 ≡ true
  unfolding accept set_edited_content
  accept-is_recorded e chat placeholder r s =
      let newest = is_newest e.at r.edited_at in
      let old = if newest && not placeholder then null_if_empty go (text_of r.content) else none in
      elim (Bool-cases (is_recorded go e chat s)) [
        | inl there ↦ ground (arith, there)
        | inr new ↦ ground (
          arith,
          new,
          record_edit-is_recorded e chat old (if newest then applied else superseded) s,
        )
      ]

  pub record_edit-messages :
      (e : Edit) (chat : String) (old : Option String) (status : EditStatus) (s : Store)
      → (record_edit go e chat old status s).messages ≡ s.messages
  unfolding record_edit
  record_edit-messages e chat old status s = ground arith

  accept-find_message_chat :
      (e : Edit) (chat : String) (placeholder : Bool) (r : MessageRow) (s : Store) (id : String)
      (chats : List String)
      → find_message_chat id chats (accept go e chat placeholder r s).0.messages
        ≡ find_message_chat id chats s.messages
  unfolding accept set_edited_content record_edit
  accept-find_message_chat e chat placeholder r s id chats = ground (
    arith,
    find_message_chat-update id chats (is_message e.target chat) (edited e.text e.at 1) s.messages
        (λ c. edited-Keeps id c e.text e.at 1),
    find_message_chat-update id chats (is_message e.target chat) (counted 1) s.messages
        (λ c. counted-Keeps id c 1),
  )

  -- An edit of a stored message is recorded, and the message stays where it is.
  pub apply_stored_lands :
      (e : Edit) (chat : String) (placeholder : Bool) (s : Store) (r : MessageRow)
      (chats : List String)
      → find (is_message e.target chat) s.messages ≡ some r
      → (is_recorded go e chat (apply_stored go e chat placeholder s).0 ≡ true)
        × (find_message_chat e.target chats (apply_stored go e chat placeholder s).0.messages
            ≡ find_message_chat e.target chats s.messages)
  unfolding apply_stored
  apply_stored_lands e chat placeholder s r chats row =
      elim (Bool-cases
        (not e.trusted && not (is_author go s.identities r.sender chat r.is_from_me e.editor))) [
          | inl foreign ↦ (
            ground (arith, row, foreign, record_edit-is_recorded e chat none rejected s),
            ground (arith, row, foreign, record_edit-messages e chat none rejected s),
          )
          | inr own ↦ (
            ground (arith, row, own, accept-is_recorded e chat placeholder r s),
            ground
                (arith, row, own, accept-find_message_chat e chat placeholder r s e.target chats),
          )
        ]
