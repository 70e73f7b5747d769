-- ===== src/Edits/Apply/Replay.antt =====
-- An edit that comes again: ApplyEdit of whatsapp-bridge/internal/database/edits_calls.go on a store
-- that it has been applied to.
use whatsapp_mcp_pro.Base.{
  ◌≡◌, ◌∙◌, ap, sym, subst, Option, inl, inr, List, [], ◌∷◌, ◌++◌, none, some, Bool, true, false,
  ◌||◌, String, str_eq, eq_iff, is_some, arith, find, Option-cases, Bool-cases, find-append_none,
}
use whatsapp_mcp_pro.Edits.Rows.{
  GoText, MessageRow, pending, Store, is_message, find_message_chat, is_imported_message_id,
  first_chat, ensure_chat,
}
use whatsapp_mcp_pro.Edits.Apply.{
  Edit, is_recorded, record_edit, apply_stored, apply_unstored, apply_edit, placeholder_row,
}
use whatsapp_mcp_pro.Edits.Apply.Grows.{Change, Has, perform_all, perform_all-Has}
use whatsapp_mcp_pro.Edits.Apply.Lands.{
  record_edit-is_recorded, record_edit_again, apply_stored_again, record_edit-messages,
  apply_stored_lands,
}

-- A chat that the message is found in has a row of it.
find_message_chat-is_some :
    (id : String) (chats : List String) (ms : List MessageRow) (chat : String)
    → find_message_chat id chats ms ≡ some chat
    → is_some (find (is_message id chat) ms) ≡ true
unfolding find_message_chat
find_message_chat-is_some id [] ms chat e = cc
find_message_chat-is_some id (c ∷ chats) ms chat e =
    ground (arith, e, find_message_chat-is_some id chats ms chat)

find_message_chat-first :
    (id : String) (chats : List String) (ms : List MessageRow) (r : MessageRow)
    → str_eq (first_chat chats) "" ≡ false
    → find (is_message id (first_chat chats)) ms ≡ some r
    → find_message_chat id chats ms ≡ some (first_chat chats)
unfolding find_message_chat
find_message_chat-first id [] ms r named row = cc
find_message_chat-first id (c ∷ chats) ms r named row = ground (arith, named, row)

find_message_chat-first_none :
    (id : String) (chats : List String) (ms : List MessageRow)
    → str_eq (first_chat chats) "" ≡ false
    → find_message_chat id chats ms ≡ none
    → find (is_message id (first_chat chats)) ms ≡ none
unfolding find_message_chat
find_message_chat-first_none id [] ms named missing = cc
find_message_chat-first_none id (c ∷ chats) ms named missing = ground (arith, named, missing)

-- The arguments that are checked before the tables are read.
abbrev Acceptable : Edit → Type 0
Acceptable e =
    ((str_eq e.target "" || str_eq (first_chat e.chat_jids) "") ≡ false)
    × (is_imported_message_id e.target ≡ false)

chat_named : (e : Edit) → Acceptable e → str_eq (first_chat e.chat_jids) "" ≡ false
chat_named e valid = ground (arith, valid.0)

module _ (go : GoText) where
  apply_edit-recorded :
      (e : Edit) (chat : String) (s : Store)
      → Acceptable e
      → is_recorded go e chat s ≡ true
      → find_message_chat e.target e.chat_jids s.messages ≡ some chat
      → (apply_edit go e s).0 ≡ s
  unfolding apply_edit
  apply_edit-recorded e chat s valid there found =
      ground (arith, valid.0, valid.1, found, apply_stored_again go e chat false s there)

  apply_edit-stored :
      (e : Edit) (chat : String) (s : Store)
      → Acceptable e
      → find_message_chat e.target e.chat_jids s.messages ≡ some chat
      → (apply_edit go e s).0 ≡ (apply_stored go e chat false s).0
  unfolding apply_edit
  apply_edit-stored e chat s valid found = ground (arith, valid.0, valid.1, found)

  apply_edit-unstored :
      (e : Edit) (s : Store)
      → Acceptable e
      → find_message_chat e.target e.chat_jids s.messages ≡ none
      → (apply_edit go e s).0 ≡ (apply_unstored go e s).0
  unfolding apply_edit
  apply_edit-unstored e s valid missing = ground (arith, valid.0, valid.1, missing)

  -- Where an edit is recorded: the chat that its message is found in, or else its first chat.
  abbrev home : Edit → Option String → String
  home e none = first_chat e.chat_jids
  home e (some chat) = chat

  Has-home :
      (e : Edit) (s : Store) (o p : Option String)
      → o ≡ p
      → Has go e (home e p) s
      → Has go e (home e o) s
  Has-home e s o p same there =
      subst (λ (q : Option String). Has go e (home e q) s) (sym same) there

  -- The store after an edit: it is recorded, and a message that is not there waits for it.
  abbrev Landed : Edit → Store → Type 0
  Landed e s =
      Has go e (home e (find_message_chat e.target e.chat_jids s.messages)) s
      × (find_message_chat e.target e.chat_jids s.messages ≡ none → e.trusted ≡ false)

  Landed-stored :
      (e : Edit) (chat : String) (s : Store)
      → is_recorded go e chat s ≡ true
      → find_message_chat e.target e.chat_jids s.messages ≡ some chat
      → Landed e s
  Landed-stored e chat s there found =
      (Has-home e s _ (some chat) found there, λ none_. absurd (ground (arith, found, none_)))

  Landed-pending :
      (e : Edit) (s : Store)
      → is_recorded go e (first_chat e.chat_jids) s ≡ true
      → find_message_chat e.target e.chat_jids s.messages ≡ none
      → e.trusted ≡ false
      → Landed e s
  Landed-pending e s there missing untrusted = (Has-home e s _ none missing there, λ _. untrusted)

  stored_again :
      (e : Edit) (chat : String) (placeholder : Bool) (s : Store) (r : MessageRow)
      → Acceptable e
      → find (is_message e.target chat) s.messages ≡ some r
      → find_message_chat e.target e.chat_jids s.messages ≡ some chat
      → Landed e (apply_stored go e chat placeholder s).0
  stored_again e chat placeholder s r valid row found =
      let lands = apply_stored_lands go e chat placeholder s r e.chat_jids row in
      Landed-stored e chat (apply_stored go e chat placeholder s).0 lands.0 (lands.1 ∙ found)

  placeholder_stored :
      (e : Edit) (s : Store)
      → Acceptable e
      → find_message_chat e.target e.chat_jids s.messages ≡ none
      → find
          (is_message e.target (first_chat e.chat_jids))
          (s.messages ++ placeholder_row go e (first_chat e.chat_jids) ∷ [])
        ≡ some (placeholder_row go e (first_chat e.chat_jids))
  unfolding placeholder_row find
  placeholder_stored e s valid missing =
      let chat = first_chat e.chat_jids in
      ground (
        arith,
        find-append_none {0} (is_message e.target chat) s.messages (placeholder_row go e chat ∷ []),
        find_message_chat-first_none e.target e.chat_jids s.messages (chat_named e valid) missing,
        eq_iff chat chat,
        eq_iff e.target e.target,
      )

  apply_unstored-trusted :
      (e : Edit) (s : Store)
      → e.trusted ≡ true
      → (apply_unstored go e s).0
        ≡ (apply_stored go e (first_chat e.chat_jids) true (record s {
          chats = ensure_chat (first_chat e.chat_jids) s.chats;
          messages = s.messages ++ placeholder_row go e (first_chat e.chat_jids) ∷ [];
        })).0
  unfolding apply_unstored
  apply_unstored-trusted e s trusted = ground (arith, trusted)

  apply_unstored-untrusted :
      (e : Edit) (s : Store)
      → e.trusted ≡ false
      → (apply_unstored go e s).0 ≡ record_edit go e (first_chat e.chat_jids) none pending s
  unfolding apply_unstored
  apply_unstored-untrusted e s untrusted = ground (arith, untrusted)

  pending_again :
      (e : Edit) (s : Store)
      → Acceptable e
      → find_message_chat e.target e.chat_jids s.messages ≡ none
      → e.trusted ≡ false
      → Landed e (record_edit go e (first_chat e.chat_jids) none pending s)
  unfolding apply_unstored
  pending_again e s valid missing untrusted =
      let chat = first_chat e.chat_jids in
      let s' = record_edit go e chat none pending s in
      let still =
        ap (find_message_chat e.target e.chat_jids) (record_edit-messages go e chat none pending s)
        ∙ missing in
      Landed-pending e s' (record_edit-is_recorded go e chat none pending s) still untrusted

  unstored_again :
      (e : Edit) (s : Store)
      → Acceptable e
      → find_message_chat e.target e.chat_jids s.messages ≡ none
      → Landed e (apply_unstored go e s).0
  unstored_again e s valid missing =
      let chat = first_chat e.chat_jids in
      let s' : Store = record s {
        chats = ensure_chat chat s.chats;
        messages = s.messages ++ placeholder_row go e chat ∷ [];
      } in
      let row = placeholder_stored e s valid missing in
      let found =
        find_message_chat-first e.target e.chat_jids s'.messages (placeholder_row go e chat)
          (chat_named e valid) row in
      elim (Bool-cases e.trusted) [
        | inl trusted ↦
            rw (apply_unstored-trusted e s trusted)
              (stored_again e chat true s' (placeholder_row go e chat) valid row found)
        | inr untrusted ↦
            rw (apply_unstored-untrusted e s untrusted) (pending_again e s valid missing untrusted)
      ]

  -- An edit that is refused, or that names no chat, changes nothing.
  apply_edit_invalid :
      (e : Edit) (s : Store)
      → ((str_eq e.target "" || str_eq (first_chat e.chat_jids) "")
          || is_imported_message_id e.target)
        ≡ true
      → (apply_edit go e s).0 ≡ s
  unfolding apply_edit
  apply_edit_invalid e s h = ground (arith, h)

  whole-Landed : (e : Edit) (s : Store) → Acceptable e → Landed e (apply_edit go e s).0
  whole-Landed e s valid = elim (Option-cases (find_message_chat e.target e.chat_jids s.messages)) [
    | inl missing ↦ rw (apply_edit-unstored e s valid missing) (unstored_again e s valid missing)
    | inr (chat, found) ↦ elim (Option-cases (find (is_message e.target chat) s.messages)) [
      | inl absent ↦ absurd (
          ground
            (arith, absent, find_message_chat-is_some e.target e.chat_jids s.messages chat found))
      | inr (r, row) ↦
          rw (apply_edit-stored e chat s valid found)
            (stored_again e chat false s r valid row found)
    ]
  ]

  -- An edit that has landed changes nothing.
  Landed-again : (e : Edit) (s : Store) → Acceptable e → Landed e s → (apply_edit go e s).0 ≡ s
  unfolding apply_unstored
  Landed-again e s valid landed =
      elim (Option-cases (find_message_chat e.target e.chat_jids s.messages)) [
        | inr (chat, found) ↦
            apply_edit-recorded e chat s valid (Has-home e s (some chat) _ (sym found) landed.0)
              found
        | inl missing ↦
            let there = Has-home e s none _ (sym missing) landed.0 in
            apply_edit-unstored e s valid missing
            ∙ ground (
              arith,
              landed.1 missing,
              record_edit_again go e (first_chat e.chat_jids) none pending s there,
            )
      ]

  -- An edit that comes again, after any other edits and revokes, of its message and of others,
  -- changes nothing, if its message is found in the same chat as after the first time, or in none as
  -- then.
  pub apply_edit_replay :
      (e : Edit) (changes : List Change) (s : Store)
      → find_message_chat e.target e.chat_jids
          (perform_all go changes (apply_edit go e s).0).messages
        ≡ find_message_chat e.target e.chat_jids (apply_edit go e s).0.messages
      → (apply_edit go e (perform_all go changes (apply_edit go e s).0)).0
        ≡ perform_all go changes (apply_edit go e s).0
  apply_edit_replay e changes s same =
      let s1 = (apply_edit go e s).0 in
      let s2 = perform_all go changes s1 in
      elim (Bool-cases (
        (str_eq e.target "" || str_eq (first_chat e.chat_jids) "")
        || is_imported_message_id e.target)) [
          | inl bad ↦ apply_edit_invalid e s2 bad
          | inr good ↦
              let landed = whole-Landed e s (ground (arith, good), ground (arith, good)) in
              Landed-again e s2 (ground (arith, good), ground (arith, good))
                (
                  Has-home e s2 _ _ same (perform_all-Has go e _ changes s1 landed.0),
                  λ missing. landed.1 (sym same ∙ missing),
                )
        ]
