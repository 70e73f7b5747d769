-- ===== src/Edits/Forward/Delivered.antt =====
-- StoreMessage of whatsapp-bridge/internal/database/messages.go, with the edits that waited for the
-- message, takes no row back.
use whatsapp_mcp_pro.Base.{
  ℕ, ◌≡◌, inl, inr, [], ◌∷◌, some, ◌&&◌, String, str_eq, ltb, is_some, arith, find, update, length,
  Option-cases, Bool-cases,
}
use whatsapp_mcp_pro.Edits.Rows.{
  GoText, MessageRow, EditRow, Store, is_message, edited, counted, set_edited_content, text_of,
}
use whatsapp_mcp_pro.Edits.Authors.{account_forms}
use whatsapp_mcp_pro.Edits.Messages.{
  Incoming, is_pending, upsert_message, move_forms, waits, settled, genuine_edits, last,
  apply_latest, settle, resolve_pending_edits, store_message,
}
use whatsapp_mcp_pro.Edits.Forward.{Forward, Forward-refl, Forward-to, Forward-trans}
use whatsapp_mcp_pro.Edits.Forward.Changes.{
  edited-Forward, counted-Forward, upsert-Forward, row_key,
}

module _ (go : GoText) where
  apply_latest-Forward :
      (m : MessageRow) (chat : String) (count : ℕ) (latest : EditRow) (s : Store)
      → find (is_message m.id chat) s.messages ≡ some m
      → Forward s.messages (apply_latest go m chat count latest s).messages
  unfolding apply_latest set_edited_content
  apply_latest-Forward m chat count latest s row =
      let ms = s.messages in
      let out = (apply_latest go m chat count latest s).messages in
      let tail = edited-Forward m.id chat latest.new_content latest.made_at count ms m row in
      let new = update (is_message m.id chat) (edited latest.new_content latest.made_at count) ms in
      elim (Option-cases m.edited_at) [
        | inl never ↦ Forward-to ms out new (ground (arith, never)) (tail (ground (arith, never)))
        | inr (t, before) ↦ elim (Bool-cases (ltb latest.made_at t)) [
          | inl later ↦
              Forward-to ms out (update (is_message m.id chat) (counted count) ms)
                (ground (arith, before, later)) (counted-Forward m.id chat count ms)
          | inr not_later ↦
              Forward-to ms out new (ground (arith, before, not_later))
                (tail (ground (arith, before, not_later)))
        ]
      ]

  settle-Forward :
      (m : MessageRow) (chat : String) (s : Store)
      → find (is_message m.id chat) s.messages ≡ some m
      → Forward s.messages (settle go m chat s).messages
  unfolding settle
  settle-Forward m chat s row =
      let ms = s.messages in
      let out = (settle go m chat s).messages in
      let s' : Store = record s {
        edits = update (waits m.id chat) (settled go s m chat) s.edits;
      } in
      let genuine = genuine_edits go s m chat in
      elim (Option-cases (last genuine)) [
        | inl none' ↦ Forward-to ms out ms (ground (arith, none')) (Forward-refl ms)
        | inr (latest, there) ↦
            Forward-to ms out (apply_latest go m chat (length genuine) latest s').messages
              (ground (arith, there)) (apply_latest-Forward m chat (length genuine) latest s' row)
      ]

  resolve_pending_edits-Forward :
      (id chat : String) (s : Store)
      → Forward s.messages (resolve_pending_edits go id chat s).messages
  unfolding resolve_pending_edits
  resolve_pending_edits-Forward id chat s =
      let ms = s.messages in
      let out = (resolve_pending_edits go id chat s).messages in
      let s' : Store = record s {
        edits = move_forms id chat (account_forms go s.identities (chat ∷ [])) s.edits;
      } in
      let some_wait =
        is_some (find (λ (r : EditRow). str_eq r.message_id id && is_pending r.status) s.edits) in
      elim (Bool-cases some_wait) [
        | inr idle ↦ Forward-to ms out ms (ground (arith, idle)) (Forward-refl ms)
        | inl wait ↦ elim (Option-cases (find (is_message id chat) ms)) [
          | inl missing ↦ Forward-to ms out ms (ground (arith, wait, missing)) (Forward-refl ms)
          | inr (m, row) ↦
              Forward-to ms out (settle go m chat s').messages (ground (arith, wait, row))
                (settle-Forward m chat s' (row_key id chat ms m row))
        ]
      ]

  pub store_message-Forward :
      (m : Incoming) (s : Store) → Forward s.messages (store_message go m s).messages
  unfolding store_message
  store_message-Forward m s =
      let ms = s.messages in
      let out = (store_message go m s).messages in
      let s' : Store = record s { messages = upsert_message m ms } in
      elim (Bool-cases (str_eq m.content "" && str_eq (text_of m.media.media_type) "")) [
        | inl empty ↦ Forward-to ms out ms (ground (arith, empty)) (Forward-refl ms)
        | inr full ↦ Forward-trans ms s'.messages out (upsert-Forward m ms) (
            Forward-to s'.messages out (resolve_pending_edits go m.id m.chat s').messages
              (ground (arith, full)) (resolve_pending_edits-Forward m.id m.chat s'))
      ]
