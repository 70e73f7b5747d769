-- ===== src/Edits/Apply/Foreign.antt =====
-- Edits by others than the author: ApplyEdit of whatsapp-bridge/internal/database/edits_calls.go, for
-- edits that the sender's word alone supports.
use whatsapp_mcp_pro.Base.{
  ◌≡◌, ◌∙◌, refl, ◌⊎◌, inl, inr, List, [], ◌∷◌, Option, none, some, false, ◌||◌, String, str_eq,
  arith, find, Option-cases, Bool-cases,
}
use whatsapp_mcp_pro.Edits.Rows.{
  GoText, MessageRow, EditStatus, rejected, pending, IdentityRow, Store, is_message,
  find_message_chat, is_imported_message_id, first_chat,
}
use whatsapp_mcp_pro.Edits.Authors.{is_author}
use whatsapp_mcp_pro.Edits.Apply.{Edit, record_edit, apply_stored, apply_unstored, apply_edit}
use whatsapp_mcp_pro.Edits.Apply.Runs.{run}

-- All that a reader of the messages sees.
abbrev pub Same : Store → Store → Type 0
Same s t =
    (t.messages ≡ s.messages)
    × ((t.identities ≡ s.identities) × ((t.embeddings ≡ s.embeddings) × (t.chats ≡ s.chats)))

-- An edit that nothing but its sender supports, who wrote no stored message of that ID.
pub record Foreign (go : GoText) (ms : List MessageRow) (ids : List IdentityRow) (e : Edit)
    : Type 0 where
  pub untrusted : e.trusted ≡ false
  pub no_author :
      (chat : String) (r : MessageRow)
      → find (is_message e.target chat) ms ≡ some r
      → is_author go ids r.sender chat r.is_from_me e.editor ≡ false

abbrev pub AllForeign : GoText → List MessageRow → List IdentityRow → List Edit → Type 0
AllForeign go ms ids [] = Unit
AllForeign go ms ids (e ∷ es) = Foreign go ms ids e × AllForeign go ms ids es

module _ (go : GoText) where
  record_edit-Same :
      (e : Edit) (chat : String) (old : Option String) (status : EditStatus) (s : Store)
      → Same s (record_edit go e chat old status s)
  unfolding record_edit
  record_edit-Same e chat old status s =
      (ground arith, (ground arith, (ground arith, ground arith)))

  apply_stored-Same :
      (e : Edit) (chat : String) (s : Store)
      → Foreign go s.messages s.identities e
      → Same s (apply_stored go e chat false s).0
  unfolding apply_stored
  apply_stored-Same e chat s foreign =
      elim (Option-cases (find (is_message e.target chat) s.messages)) [
        | inl missing ↦ (
          ground (arith, missing),
          (ground (arith, missing), (ground (arith, missing), ground (arith, missing))),
        )
        | inr (r, row) ↦
            let same = record_edit-Same e chat none rejected s in
            let other = foreign.no_author chat r row in
            (
              ground (arith, row, other, foreign.untrusted, same.0),
              (
                ground (arith, row, other, foreign.untrusted, same.1.0),
                (
                  ground (arith, row, other, foreign.untrusted, same.1.1.0),
                  ground (arith, row, other, foreign.untrusted, same.1.1.1),
                ),
              ),
            )
      ]

  apply_unstored-untrusted :
      (e : Edit) (s : Store)
      → e.trusted ≡ false
      → (apply_unstored go e s).0 ≡ record_edit go e (first_chat e.chat_jids) none pending s
  unfolding apply_unstored
  apply_unstored-untrusted e s untrusted = ground (arith, untrusted)

  -- The stores that `ApplyEdit` can end in.
  pub apply_edit-cases :
      (e : Edit) (s : Store)
      → ((apply_edit go e s).0 ≡ s)
        ⊎ (((apply_edit go e s).0 ≡ (apply_unstored go e s).0)
            ⊎ ((chat : String) × ((apply_edit go e s).0 ≡ (apply_stored go e chat false s).0)))
  unfolding apply_edit
  apply_edit-cases e s =
      let bad =
        (str_eq e.target "" || str_eq (first_chat e.chat_jids) "")
        || is_imported_message_id e.target in
      elim (Bool-cases bad) [
        | inl yes' ↦ inl (ground (arith, yes'))
        | inr no' ↦ elim (Option-cases (find_message_chat e.target e.chat_jids s.messages)) [
          | inl missing ↦ inr (inl (ground (arith, no', missing)))
          | inr (chat, found) ↦ inr (inr (chat, ground (arith, no', found)))
        ]
      ]

  apply_edit-Same :
      (e : Edit) (s : Store) → Foreign go s.messages s.identities e → Same s (apply_edit go e s).0
  apply_edit-Same e s foreign = elim (apply_edit-cases e s) [
    | inl same ↦ rw same (refl, (refl, (refl, refl)))
    | inr (inl stays) ↦
        rw (stays, apply_unstored-untrusted e s foreign.untrusted)
          (record_edit-Same e (first_chat e.chat_jids) none pending s)
    | inr (inr (chat, stored)) ↦ rw stored (apply_stored-Same e chat s foreign)
  ]

  -- Edits that nothing but their senders support, none of whom wrote the message, leave every
  -- message, chat, identity and embedding as it is.
  pub foreign_edits :
      (es : List Edit) (s : Store) → AllForeign go s.messages s.identities es → Same s (run go es s)
  unfolding run
  foreign_edits [] s foreign = (refl, (refl, (refl, refl)))
  foreign_edits (e ∷ es) s foreign =
      let once = apply_edit-Same e s foreign.0 in
      let rest = foreign_edits es (apply_edit go e s).0 (rw (once.0, once.1.0) foreign.1) in
      (rest.0 ∙ once.0, (rest.1.0 ∙ once.1.0, (rest.1.1.0 ∙ once.1.1.0, rest.1.1.1 ∙ once.1.1.1)))
