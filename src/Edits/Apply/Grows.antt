-- ===== src/Edits/Apply/Grows.antt =====
-- The table message_edits of whatsapp-bridge/internal/database/edits_calls.go only grows, over edits
-- and revokes.
use whatsapp_mcp_pro.Base.{
  ◌≡◌, Option, not, ◌&&◌, if◌then◌else◌, inl, inr, List, [], ◌∷◌, ◌++◌, none, Bool, true, false,
  String, arith, find, Option-cases,
}
use whatsapp_mcp_pro.Edits.Rows.{
  GoText, MessageRow, EditStatus, applied, superseded, rejected, pending, null_if_empty, text_of,
  set_edited_content, Store, is_message, find_message_chat, first_chat, ensure_chat,
}
use whatsapp_mcp_pro.Edits.Apply.{
  Edit, edit_row, is_newest, accept, is_recorded, record_edit, apply_stored, apply_unstored,
  apply_edit, placeholder_row,
}
use whatsapp_mcp_pro.Edits.Apply.Row.{is_recorded-append}
use whatsapp_mcp_pro.Edits.Revoke.{
  Revoke, revoke_unstored, revoke_stored, set_deleted, mark_deleted,
}

-- An edit, or a revoke, of any message.
pub data Change : Type 0 where
  edit : Edit → Change
  revoke : Revoke → Change

module _ (go : GoText) where
  abbrev pub Has : Edit → String → Store → Type 0
  Has e chat s = is_recorded go e chat s ≡ true

  record_edit-Has :
      (e f : Edit) (chat other : String) (old : Option String) (status : EditStatus) (s : Store)
      → Has e chat s
      → Has e chat (record_edit go f other old status s)
  unfolding record_edit
  record_edit-Has e f chat other old status s there =
      ground (arith, there, is_recorded-append go e chat (edit_row go f other old status) s)

  accept-Has :
      (e f : Edit) (chat other : String) (placeholder : Bool) (r : MessageRow) (s : Store)
      → Has e chat s
      → Has e chat (accept go f other placeholder r s).0
  unfolding accept set_edited_content
  accept-Has e f chat other placeholder r s there =
      let newest = is_newest f.at r.edited_at in
      let old = if newest && not placeholder then null_if_empty go (text_of r.content) else none in
      ground (
        arith,
        there,
        record_edit-Has e f chat other old (if newest then applied else superseded) s there,
      )

  apply_stored-Has :
      (e f : Edit) (chat other : String) (placeholder : Bool) (s : Store)
      → Has e chat s
      → Has e chat (apply_stored go f other placeholder s).0
  unfolding apply_stored
  apply_stored-Has e f chat other placeholder s there =
      elim (Option-cases (find (is_message f.target other) s.messages)) [
        | inl missing ↦ ground (arith, there, missing)
        | inr (r, row) ↦ ground (
          arith,
          there,
          row,
          accept-Has e f chat other placeholder r s there,
          record_edit-Has e f chat other none rejected s there,
        )
      ]

  apply_unstored-Has :
      (e f : Edit) (chat : String) (s : Store) → Has e chat s → Has e chat (apply_unstored go f s).0
  unfolding apply_unstored
  apply_unstored-Has e f chat s there =
      let other = first_chat f.chat_jids in
      let s' : Store = record s {
        chats = ensure_chat other s.chats;
        messages = s.messages ++ placeholder_row go f other ∷ [];
      } in
      ground (
        arith,
        there,
        record_edit-Has e f chat other none pending s there,
        apply_stored-Has e f chat other true s' there,
      )

  apply_edit-Has :
      (e f : Edit) (chat : String) (s : Store) → Has e chat s → Has e chat (apply_edit go f s).0
  unfolding apply_edit
  apply_edit-Has e f chat s there =
      elim (Option-cases (find_message_chat f.target f.chat_jids s.messages)) [
        | inl missing ↦ ground (arith, there, missing, apply_unstored-Has e f chat s there)
        | inr (other, found) ↦
            ground (arith, there, found, apply_stored-Has e f chat other false s there)
      ]

  mark_deleted-edits : (r : Revoke) (s : Store) → (mark_deleted go r s).0.edits ≡ s.edits
  unfolding mark_deleted revoke_unstored revoke_stored set_deleted
  mark_deleted-edits r s = elim (Option-cases (find_message_chat r.target r.chat_jids s.messages)) [
    | inl missing ↦ ground (arith, missing)
    | inr (chat, found) ↦ elim (Option-cases (find (is_message r.target chat) s.messages)) [
      | inl absent ↦ ground (arith, found, absent)
      | inr (m, row) ↦ ground (arith, found, row)
    ]
  ]

  unfoldable pub perform : Change → Store → Store
  perform (edit e) s = (apply_edit go e s).0
  perform (revoke r) s = (mark_deleted go r s).0

  unfoldable pub perform_all : List Change → Store → Store
  perform_all [] s = s
  perform_all (change ∷ changes) s = perform_all changes (perform change s)

  pub perform_all-Has :
      (e : Edit) (chat : String) (changes : List Change) (s : Store)
      → Has e chat s
      → Has e chat (perform_all changes s)
  unfolding perform_all perform
  perform_all-Has e chat [] s there = there
  perform_all-Has e chat (edit f ∷ changes) s there =
      perform_all-Has e chat changes (apply_edit go f s).0 (apply_edit-Has e f chat s there)
  perform_all-Has e chat (revoke r ∷ changes) s there =
      perform_all-Has e chat changes (mark_deleted go r s).0 (rw (mark_deleted-edits r s) there)
