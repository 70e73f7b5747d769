-- ===== src/Edits/Forward/Applied.antt =====
-- ApplyEdit of whatsapp-bridge/internal/database/edits_calls.go takes no row back.
use whatsapp_mcp_pro.Base.{
  ◌≡◌, inl, inr, [], ◌∷◌, ◌++◌, none, some, Bool, true, false, not, ◌&&◌, String, arith, find,
  update, Option-cases, Bool-cases,
}
use whatsapp_mcp_pro.Edits.Rows.{
  GoText, MessageRow, rejected, pending, Store, is_message, first_chat, ensure_chat, edited,
  counted, set_edited_content,
}
use whatsapp_mcp_pro.Edits.Authors.{is_author}
use whatsapp_mcp_pro.Edits.Apply.{
  Edit, is_recorded, record_edit, is_newest, accept, apply_stored, apply_unstored, apply_edit,
  placeholder_row,
}
use whatsapp_mcp_pro.Edits.Apply.Lands.{record_edit-messages}
use whatsapp_mcp_pro.Edits.Apply.Foreign.{apply_edit-cases}
use whatsapp_mcp_pro.Edits.Forward.{
  Forward, Forward-refl, Forward-to, Forward-trans, Forward-append,
}
use whatsapp_mcp_pro.Edits.Forward.Changes.{edited-Forward, counted-Forward}

module _ (go : GoText) where
  accept-Forward :
      (e : Edit) (chat : String) (placeholder : Bool) (r : MessageRow) (s : Store)
      → find (is_message e.target chat) s.messages ≡ some r
      → Forward s.messages (accept go e chat placeholder r s).0.messages
  unfolding accept set_edited_content record_edit
  accept-Forward e chat placeholder r s row =
      let ms = s.messages in
      let out = (accept go e chat placeholder r s).0.messages in
      elim (Bool-cases (is_recorded go e chat s)) [
        | inl old ↦ Forward-to ms out ms (ground (arith, old)) (Forward-refl ms)
        | inr new ↦ elim (Bool-cases (is_newest e.at r.edited_at)) [
          | inl newest ↦
              Forward-to ms out (update (is_message e.target chat) (edited e.text e.at 1) ms)
                (ground (arith, new, newest))
                (edited-Forward e.target chat e.text e.at 1 ms r row newest)
          | inr late ↦
              Forward-to ms out (update (is_message e.target chat) (counted 1) ms)
                (ground (arith, new, late)) (counted-Forward e.target chat 1 ms)
        ]
      ]

  apply_stored-Forward :
      (e : Edit) (chat : String) (placeholder : Bool) (s : Store)
      → Forward s.messages (apply_stored go e chat placeholder s).0.messages
  unfolding apply_stored
  apply_stored-Forward e chat placeholder s =
      let ms = s.messages in
      let out = (apply_stored go e chat placeholder s).0.messages in
      elim (Option-cases (find (is_message e.target chat) ms)) [
        | inl missing ↦ Forward-to ms out ms (ground (arith, missing)) (Forward-refl ms)
        | inr (r, row) ↦
            let foreign =
              not e.trusted
              && not (is_author go s.identities r.sender chat r.is_from_me e.editor) in
            elim (Bool-cases foreign) [
              | inl other ↦
                  Forward-to ms out ms
                    (ground (arith, row, other, record_edit-messages go e chat none rejected s))
                    (Forward-refl ms)
              | inr own ↦
                  Forward-to ms out (accept go e chat placeholder r s).0.messages
                    (ground (arith, row, own)) (accept-Forward e chat placeholder r s row)
            ]
      ]

  apply_unstored-Forward :
      (e : Edit) (s : Store) → Forward s.messages (apply_unstored go e s).0.messages
  unfolding apply_unstored
  apply_unstored-Forward e s =
      let chat = first_chat e.chat_jids in
      let ms = s.messages in
      let out = (apply_unstored go e s).0.messages in
      let s' : Store = record s {
        chats = ensure_chat chat s.chats;
        messages = ms ++ placeholder_row go e chat ∷ [];
      } in
      elim (Bool-cases e.trusted) [
        | inl trusted ↦
            Forward-trans ms s'.messages out (Forward-append ms (placeholder_row go e chat ∷ [])) (
              Forward-to s'.messages out (apply_stored go e chat true s').0.messages
                (ground (arith, trusted)) (apply_stored-Forward e chat true s'))
        | inr untrusted ↦
            Forward-to ms out ms
              (ground (arith, untrusted, record_edit-messages go e chat none pending s))
              (Forward-refl ms)
      ]

  pub apply_edit-Forward :
      (e : Edit) (s : Store) → Forward s.messages (apply_edit go e s).0.messages
  apply_edit-Forward e s = elim (apply_edit-cases go e s) [
    | inl same ↦ rw same (Forward-refl s.messages)
    | inr (inl unstored) ↦ rw unstored (apply_unstored-Forward e s)
    | inr (inr (chat, stored)) ↦ rw stored (apply_stored-Forward e chat false s)
  ]
