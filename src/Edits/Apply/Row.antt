-- ===== src/Edits/Apply/Row.antt =====
-- What ApplyEdit of whatsapp-bridge/internal/database/edits_calls.go does to the row of a stored
-- message, for an edit that it accepts for the first time.
use whatsapp_mcp_pro.Base.{
  ℕ, ◌≡◌, refl, inl, inr, List, [], ◌∷◌, ◌++◌, some, Bool, true, false, ◌||◌, String, str_eq,
  if◌then◌else◌, is_some, arith, find, update, Keeps, find-append, find-append_none, Option-cases,
}
use whatsapp_mcp_pro.Edits.Rows.{
  GoText, MessageRow, EditRow, Store, is_message, is_edit, find_message_chat,
  is_imported_message_id, first_chat, edited, counted,
}
use whatsapp_mcp_pro.Edits.Authors.{is_author}
use whatsapp_mcp_pro.Edits.Apply.{
  Edit, edit_key, is_recorded, is_newest, accept, apply_stored, apply_edit,
}

-- The newest text wins, and every edit counts.
unfoldable pub newest_wins : Edit → MessageRow → MessageRow
newest_wins e r = if is_newest e.at r.edited_at then edited e.text e.at 1 r else counted 1 r

pub edited-Keeps :
    (id chat text : String) (at n : ℕ) → Keeps (is_message id chat) (edited text at n)
unfolding edited
edited-Keeps id chat text at n r = refl

pub counted-Keeps : (id chat : String) (n : ℕ) → Keeps (is_message id chat) (counted n)
unfolding counted
counted-Keeps id chat n r = refl

-- A test that a change keeps picks a row after it exactly when it did before.
pub is_some-find-update {ℓ} :
    {A : Type ℓ} (p q : A → Bool) (f : A → A) (rs : List A)
    → Keeps p f
    → is_some (find p (update q f rs)) ≡ is_some (find p rs)
unfolding find update
is_some-find-update p q f [] keep = refl
is_some-find-update p q f (r ∷ rs) keep = ground (arith, keep r, is_some-find-update p q f rs keep)

pub find_message_chat-update :
    (id : String) (chats : List String) (q : MessageRow → Bool) (f : MessageRow → MessageRow)
    (ms : List MessageRow)
    → ((chat : String) → Keeps (is_message id chat) f)
    → find_message_chat id chats (update q f ms) ≡ find_message_chat id chats ms
unfolding find_message_chat
find_message_chat-update id [] q f ms keep = refl
find_message_chat-update id (chat ∷ chats) q f ms keep = ground (
  arith,
  is_some-find-update {0} (is_message id chat) q f ms (keep chat),
  find_message_chat-update id chats q f ms keep,
)

-- An edit is recorded under one key, and under no other.
pub is_recorded-append :
    (go : GoText) (e : Edit) (chat : String) (row : EditRow) (s : Store)
    → is_recorded go e chat (record s { edits = s.edits ++ row ∷ [] })
      ≡ (is_recorded go e chat s || is_edit chat e.target (edit_key go e) row)
unfolding find
is_recorded-append go e chat row s =
    elim (Option-cases (find (is_edit chat e.target (edit_key go e)) s.edits)) [
      | inl missing ↦ ground (
        arith,
        missing,
        find-append_none {0} (is_edit chat e.target (edit_key go e)) s.edits (row ∷ []),
      )
      | inr (old, there) ↦ ground (
        arith,
        there,
        find-append {0} (is_edit chat e.target (edit_key go e)) s.edits (row ∷ []) old,
      )
    ]

-- The edit names a message that is stored in a chat, by its author or trusted, and is new.
pub record Ready (go : GoText) (id chat : String) (s : Store) (r : MessageRow) (e : Edit)
    : Type 0 where
  pub names : e.target ≡ id
  pub valid : (str_eq id "" || str_eq (first_chat e.chat_jids) "") ≡ false
  pub genuine : is_imported_message_id id ≡ false
  pub located : find_message_chat id e.chat_jids s.messages ≡ some chat
  pub allowed : (e.trusted || is_author go s.identities r.sender chat r.is_from_me e.editor) ≡ true
  pub fresh : is_recorded go e chat s ≡ false

module _ (go : GoText) (id chat : String) where
  -- The store after it.
  pub apply_edit-Ready :
      (s : Store) (r : MessageRow) (e : Edit)
      → find (is_message id chat) s.messages ≡ some r
      → Ready go id chat s r e
      → (apply_edit go e s).0 ≡ (accept go e chat false r s).0
  unfolding apply_edit apply_stored
  apply_edit-Ready s r e row k =
      ground (arith, k.names, k.valid, k.genuine, k.located, k.allowed, row)
