-- ===== src/Edits/Messages.antt =====
-- `StoreMessage` of whatsapp-bridge/internal/database/messages.go, and the edits that waited for the
-- message: `resolvePendingEdits` of edits_calls.go. SQLite's datetime() cuts an instant to the second.
pub mod Latest
use whatsapp_mcp_pro.Base.{
  ℕ, ◌+◌, ◌/◌, List, [], ◌∷◌, ◌++◌, map, Option, none, some, Bool, true, false, not, ◌&&◌, ◌||◌,
  String, str_eq, ltb, leb, if◌then◌else◌, is_some, length, filter, find, update,
}
use whatsapp_mcp_pro.Edits.Rows.{
  GoText, Media, MessageRow, EditRow, EditStatus, applied, superseded, rejected, pending, Store,
  is_message, is_edit, null_if_empty, nullif, text_of, set_edited_content, counted,
}
use whatsapp_mcp_pro.Edits.Authors.{Actor, account_forms, is_author}

-- The arguments of `StoreMessage`; absent hashes and lengths are none.
pub record Incoming : Type 0 where
  pub id : String
  pub chat : String
  pub sender : String
  pub sender_name : String
  pub content : String
  pub timestamp : ℕ
  pub is_from_me : Bool
  pub media : Media

-- `COALESCE(a, b)` and `COALESCE(NULLIF(a, ''), b)`
abbrev pub coalesce {ℓ} : {A : Type ℓ} → Option A → Option A → Option A
coalesce none b = b
coalesce (some a) b = some a

abbrev pub nonempty : Option String → Option String
nonempty none = none
nonempty (some s) = nullif s

abbrev pub nonzero : Option ℕ → Option ℕ
nonzero none = none
nonzero (some n) = if ltb 0 n then some n else none

-- The media columns: what is stored stays, once it is set.
unfoldable pub keep_media : Media → Media → Media
keep_media old new = record {
  media_type = coalesce (nonempty old.media_type) new.media_type;
  filename = coalesce (nonempty old.filename) new.filename;
  url = coalesce (nonempty old.url) new.url;
  direct_path = coalesce (nonempty old.direct_path) new.direct_path;
  media_key = coalesce old.media_key new.media_key;
  file_sha256 = coalesce old.file_sha256 new.file_sha256;
  file_enc_sha256 = coalesce old.file_enc_sha256 new.file_enc_sha256;
  file_length = coalesce (nonzero old.file_length) new.file_length;
}

abbrev pub name_of : Incoming → String
name_of m = if str_eq m.sender_name "" then m.sender else m.sender_name

unfoldable pub new_row : Incoming → MessageRow
new_row m = record {
  id = m.id;
  chat_jid = m.chat;
  sender = some m.sender;
  sender_name = some (name_of m);
  content = some m.content;
  timestamp = m.timestamp;
  is_from_me = m.is_from_me;
  media = m.media;
  edited_at = none;
  is_edited = false;
  edit_count = 0;
  deleted_at = none;
  deleted_by = none;
}

-- The `DO UPDATE` of `StoreMessage`.
unfoldable pub merged : Incoming → MessageRow → MessageRow
merged m r = record r {
  sender = coalesce (nullif m.sender) r.sender;
  sender_name = coalesce (nullif (name_of m)) r.sender_name;
  content =
      if r.is_edited && not (str_eq (text_of r.content) "")
      then r.content
      else coalesce (nullif m.content) r.content;
  timestamp = m.timestamp;
  is_from_me = m.is_from_me;
  media = keep_media r.media m.media;
}

unfoldable pub upsert_message : Incoming → List MessageRow → List MessageRow
upsert_message m ms =
    if is_some (find (is_message m.id m.chat) ms)
    then update (is_message m.id m.chat) (merged m) ms
    else ms ++ new_row m ∷ []

abbrev pub is_pending : EditStatus → Bool
is_pending pending = true
is_pending _ = false

abbrev pub waits : String → String → EditRow → Bool
waits id chat r = str_eq r.message_id id && (str_eq r.edit_chat chat && is_pending r.status)

-- One form of the chat: its pending edits move to `chat`, but for those that `chat` has already.
unfoldable pub move_form : String → String → String → List EditRow → List EditRow → List EditRow
move_form id chat form seen [] = []
move_form id chat form seen (r ∷ rs) =
    let taken = is_some (find (is_edit chat id r.edit_id) seen) in
    let moved : EditRow = record r { edit_chat = chat } in
    if not (waits id form r)
    then r ∷ move_form id chat form seen rs
    else if taken
    then move_form id chat form seen rs
    else moved ∷ move_form id chat form (moved ∷ seen) rs

unfoldable pub move_forms : String → String → List String → List EditRow → List EditRow
move_forms id chat [] rs = rs
move_forms id chat (form ∷ forms) rs =
    move_forms id chat forms (if str_eq form chat then rs else move_form id chat form rs rs)

abbrev pub second : ℕ
second = 1_000_000_000

-- `ORDER BY datetime(edited_at), id`
unfoldable pub insert_by_second : EditRow → List EditRow → List EditRow
insert_by_second r [] = r ∷ []
insert_by_second r (q ∷ qs) =
    if leb (r.made_at / second) (q.made_at / second) then r ∷ q ∷ qs else q ∷ insert_by_second r qs

unfoldable pub by_second : List EditRow → List EditRow
by_second [] = []
by_second (r ∷ rs) = insert_by_second r (by_second rs)

unfoldable pub last : List EditRow → Option EditRow
last [] = none
last (r ∷ []) = some r
last (r ∷ q ∷ qs) = last (q ∷ qs)

module _ (go : GoText) where
  -- Whether a pending edit comes from the author of the message; the table keeps one JID of it.
  unfoldable pub is_genuine : Store → MessageRow → String → EditRow → Bool
  is_genuine s m chat r =
      is_author go s.identities m.sender chat false
        (record { actor_jid = text_of r.editor_jid; forms = []; is_me = false })

  abbrev pub settled : Store → MessageRow → String → EditRow → EditRow
  settled s m chat r = record r { status = if is_genuine s m chat r then superseded else rejected }

  -- The pending edits of the author, the newest last.
  abbrev pub genuine_edits : Store → MessageRow → String → List EditRow
  genuine_edits s m chat =
      filter (is_genuine s m chat) (by_second (filter (waits m.id chat) s.edits))

  -- The latest of the author's pending edits becomes the content, unless a later one is in place.
  unfoldable pub apply_latest : MessageRow → String → ℕ → EditRow → Store → Store
  apply_latest m chat count latest s =
      let later = elim (m.edited_at) as (λ _. Bool) [
        | none ↦ false
        | some t ↦ ltb latest.made_at t
      ] in
      if later
      then record s { messages = update (is_message m.id chat) (counted count) s.messages }
      else set_edited_content m.id chat latest.new_content latest.made_at count (record s {
        edits =
            update (is_edit chat m.id latest.edit_id)
              (λ r. record r {
                status = applied;
                old_content = null_if_empty go (text_of m.content);
              })
              s.edits;
      })

  -- All pending edits of the message are settled.
  unfoldable pub settle : MessageRow → String → Store → Store
  settle m chat s =
      let genuine = genuine_edits s m chat in
      let s' = record s { edits = update (waits m.id chat) (settled s m chat) s.edits } in
      elim (last genuine) [
        | none ↦ s'
        | some latest ↦ apply_latest m chat (length genuine) latest s'
      ]

  -- `resolvePendingEdits`
  unfoldable pub resolve_pending_edits : String → String → Store → Store
  resolve_pending_edits id chat s =
      let forms = account_forms go s.identities (chat ∷ []) in
      let s' = record s { edits = move_forms id chat forms s.edits } in
      if not
        (is_some (find (λ (r : EditRow). str_eq r.message_id id && is_pending r.status) s.edits))
      then s
      else elim (find (is_message id chat) s.messages) [ none ↦ s | some m ↦ settle m chat s' ]

  -- `StoreMessage`
  unfoldable pub store_message : Incoming → Store → Store
  store_message m s =
      let stored = record s { messages = upsert_message m s.messages } in
      if str_eq m.content "" && str_eq (text_of m.media.media_type) ""
      then s
      else resolve_pending_edits m.id m.chat stored
