-- ===== src/Edits/Forward/Revoked.antt =====
-- MarkDeleted of whatsapp-bridge/internal/database/edits_calls.go takes no row back.
use whatsapp_mcp_pro.Base.{
  inl, inr, [], ◌∷◌, ◌++◌, not, ◌&&◌, ◌||◌, String, str_eq, arith, find, Option-cases, Bool-cases,
}
use whatsapp_mcp_pro.Edits.Rows.{
  GoText, Store, is_message, find_message_chat, first_chat, is_imported_message_id, ensure_chat,
}
use whatsapp_mcp_pro.Edits.Authors.{is_author}
use whatsapp_mcp_pro.Edits.Revoke.{
  Revoke, revoked_row, deleted, set_deleted, revoke_unstored, revoke_stored, mark_deleted,
}
use whatsapp_mcp_pro.Edits.Forward.{
  Forward, Forward-refl, Forward-to, Forward-trans, Forward-append, Forward-update,
}
use whatsapp_mcp_pro.Edits.Forward.Changes.{deleted-Later, deleted-Keeps}

module _ (go : GoText) where
  set_deleted-Forward :
      (r : Revoke) (chat : String) (s : Store)
      → Forward s.messages (set_deleted r chat s).0.messages
  unfolding set_deleted
  set_deleted-Forward r chat s =
      Forward-update r.target chat (deleted r.at r.by.actor_jid) s.messages
        (deleted-Keeps r.at r.by.actor_jid) (λ m e. deleted-Later r.at r.by.actor_jid m)

  revoke_unstored-Forward :
      (r : Revoke) (s : Store) → Forward s.messages (revoke_unstored go r s).0.messages
  unfolding revoke_unstored
  revoke_unstored-Forward r s =
      let chat = first_chat r.chat_jids in
      let ms = s.messages in
      let out = (revoke_unstored go r s).0.messages in
      let s' : Store = record s {
        chats = ensure_chat chat s.chats;
        messages = ms ++ revoked_row r chat ∷ [];
      } in
      elim (Bool-cases (not r.trusted && not r.is_admin)) [
        | inl weak ↦ Forward-to ms out ms (ground (arith, weak)) (Forward-refl ms)
        | inr strong ↦
            Forward-trans ms s'.messages out (Forward-append ms (revoked_row r chat ∷ [])) (
              Forward-to s'.messages out (set_deleted r chat s').0.messages (ground (arith, strong))
                (set_deleted-Forward r chat s'))
      ]

  revoke_stored-Forward :
      (r : Revoke) (chat : String) (s : Store)
      → Forward s.messages (revoke_stored go r chat s).0.messages
  unfolding revoke_stored
  revoke_stored-Forward r chat s =
      let ms = s.messages in
      let out = (revoke_stored go r chat s).0.messages in
      elim (Option-cases (find (is_message r.target chat) ms)) [
        | inl missing ↦ Forward-to ms out ms (ground (arith, missing)) (Forward-refl ms)
        | inr (m, row) ↦
            let weak =
              not r.trusted
              && (not (is_author go s.identities m.sender chat m.is_from_me r.by)
                  && not r.is_admin) in
            elim (Bool-cases weak) [
              | inl no' ↦ Forward-to ms out ms (ground (arith, row, no')) (Forward-refl ms)
              | inr may ↦
                  Forward-to ms out (set_deleted r chat s).0.messages (ground (arith, row, may))
                    (set_deleted-Forward r chat s)
            ]
      ]

  pub mark_deleted-Forward :
      (r : Revoke) (s : Store) → Forward s.messages (mark_deleted go r s).0.messages
  unfolding mark_deleted
  mark_deleted-Forward r s =
      let ms = s.messages in
      let out = (mark_deleted go r s).0.messages in
      let bad =
        (str_eq r.target "" || str_eq (first_chat r.chat_jids) "")
        || is_imported_message_id r.target in
      elim (Bool-cases bad) [
        | inl refused ↦ Forward-to ms out ms (ground (arith, refused)) (Forward-refl ms)
        | inr named ↦ elim (Option-cases (find_message_chat r.target r.chat_jids ms)) [
          | inl missing ↦
              Forward-to ms out (revoke_unstored go r s).0.messages (ground (arith, named, missing))
                (revoke_unstored-Forward r s)
          | inr (chat, found) ↦
              Forward-to ms out (revoke_stored go r chat s).0.messages
                (ground (arith, named, found)) (revoke_stored-Forward r chat s)
        ]
      ]
