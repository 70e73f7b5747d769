-- ===== src/Edits/Apply/Order.antt =====
-- One accepted edit of ApplyEdit in whatsapp-bridge/internal/database/edits_calls.go: what it writes,
-- and that it leaves another edit of the message ready.
use whatsapp_mcp_pro.Base.{
  ◌≡◌, ◌≢◌, ◌∙◌, [], ◌∷◌, ◌++◌, none, some, false, not, ◌&&◌, String, eq_iff, if◌then◌else◌, arith,
  find, update, find-update, Keeps, Option-cases, inl, inr,
}
use whatsapp_mcp_pro.Edits.Rows.{
  GoText, MessageRow, EditRow, Store, applied, superseded, text_of, null_if_empty, is_message,
  edited, counted, set_edited_content,
}
use whatsapp_mcp_pro.Edits.Apply.{
  Edit, edit_key, edit_row, is_recorded, record_edit, is_newest, accept,
}
use whatsapp_mcp_pro.Edits.Apply.Row.{
  newest_wins, find_message_chat-update, is_recorded-append, Ready,
}

-- Two edits of different instants may come in either order.
pub newest_wins_swap :
    (a b : Edit) (r : MessageRow)
    → a.at ≢ b.at
    → newest_wins a (newest_wins b r) ≡ newest_wins b (newest_wins a r)
unfolding newest_wins edited counted
newest_wins_swap a b r h = elim (Option-cases r.edited_at) [
  | inl e ↦ ground (arith, e, h)
  | inr (t, e) ↦ ground (arith, e, h)
]

-- What the edit does to the rows of its message.
abbrev change : Edit → MessageRow → MessageRow → MessageRow
change e r q = if is_newest e.at r.edited_at then edited e.text e.at 1 q else counted 1 q

change-Keeps :
    (e : Edit) (r : MessageRow) (id chat : String) → Keeps (is_message id chat) (change e r)
unfolding edited counted
change-Keeps e r id chat q = ground arith

module _ (go : GoText) (id chat : String) where
  accept-messages :
      (s : Store) (r : MessageRow) (e : Edit)
      → is_recorded go e chat s ≡ false
      → (accept go e chat false r s).0.messages
        ≡ update (is_message e.target chat) (change e r) s.messages
  unfolding accept record_edit set_edited_content
  accept-messages s r e new = ground (arith, new)

  -- The row that it records.
  abbrev accepted_row : Edit → MessageRow → EditRow
  accepted_row e r =
      let newest = is_newest e.at r.edited_at in
      edit_row go e chat
        (if newest && not false then null_if_empty go (text_of r.content) else none)
        (if newest then applied else superseded)

  accept-edits :
      (s : Store) (r : MessageRow) (e : Edit)
      → is_recorded go e chat s ≡ false
      → (accept go e chat false r s).0.edits ≡ s.edits ++ accepted_row e r ∷ []
  unfolding accept record_edit set_edited_content
  accept-edits s r e new = ground (arith, new)

  accept-identities :
      (s : Store) (r : MessageRow) (e : Edit)
      → is_recorded go e chat s ≡ false
      → (accept go e chat false r s).0.identities ≡ s.identities
  unfolding accept record_edit set_edited_content
  accept-identities s r e new = ground (arith, new)

  -- Another edit of the message is not recorded by it.
  accept-is_recorded :
      (s : Store) (r : MessageRow) (e f : Edit)
      → is_recorded go e chat s ≡ false
      → is_recorded go f chat s ≡ false
      → edit_key go e ≢ edit_key go f
      → is_recorded go f chat (accept go e chat false r s).0 ≡ false
  unfolding edit_row
  accept-is_recorded s r e f new_e new_f other = rw (accept-edits s r e new_e) (
      ground (
        arith,
        is_recorded-append go f chat (accepted_row e r) s,
        new_f,
        other,
        eq_iff (edit_key go e) (edit_key go f),
      ))

  newest_wins_fixed :
      (e : Edit) (r : MessageRow)
      → (newest_wins e r).sender ≡ r.sender × ((newest_wins e r).is_from_me ≡ r.is_from_me)
  unfolding newest_wins edited counted
  newest_wins_fixed e r = ground arith

  -- An edit that is accepted leaves another one ready.
  pub accept-Ready :
      (s : Store) (r : MessageRow) (e f : Edit)
      → Ready go id chat s r e
      → edit_key go e ≢ edit_key go f
      → Ready go id chat s r f
      → Ready go id chat (accept go e chat false r s).0 (newest_wins e r) f
  accept-Ready s r e f ready_e other ready_f =
      let same = newest_wins_fixed e r in
      record {
        names = ready_f.names;
        valid = ready_f.valid;
        genuine = ready_f.genuine;
        located = rw (accept-messages s r e ready_e.fresh) (
            find_message_chat-update id f.chat_jids (is_message e.target chat) (change e r)
              s.messages (change-Keeps e r id)
            ∙ ready_f.located);
        allowed = rw (accept-identities s r e ready_e.fresh, same.0, same.1) ready_f.allowed;
        fresh = accept-is_recorded s r e f ready_e.fresh ready_f.fresh other;
      }

  pub accept-row :
      (s : Store) (r : MessageRow) (e : Edit)
      → find (is_message id chat) s.messages ≡ some r
      → Ready go id chat s r e
      → find (is_message id chat) (accept go e chat false r s).0.messages ≡ some (newest_wins e r)
  unfolding newest_wins
  accept-row s r e row ready =
      rw (accept-messages s r e ready.fresh, ready.names)
        (find-update (is_message id chat) (change e r) s.messages r (change-Keeps e r id chat) row)
