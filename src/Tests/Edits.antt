-- ===== src/Tests/Edits.antt =====
-- Instances for whatsapp-bridge/internal/database/edits_calls.go and messages.go.
use whatsapp_mcp_pro.Base.{
  elem, ℕ, ◌+◌, ◌*◌, ◌/◌, ◌≡◌, refl, subst, List, [], ◌∷◌, none, some, true, false, arith, find,
  String, filter, eq_iff, length, map,
}
use whatsapp_mcp_pro.Edits.Rows.{
  GoText, MessageRow, EditRow, pending, live, IdentityRow, Store, is_message, empty_media, edited,
  find_message_chat, is_imported_message_id,
}
use whatsapp_mcp_pro.Edits.Authors.{
  account_forms, start_forms, expand, new_forms, row_forms, linked, is_author, stored_sender_jid,
  any_elem,
}
use whatsapp_mcp_pro.Edits.Authors.Closed.{account_forms_closed, Covers, ClosedUnder}
use whatsapp_mcp_pro.Edits.Apply.{Edit, edit_key, apply_edit}
use whatsapp_mcp_pro.Edits.Apply.Row.{Ready}
use whatsapp_mcp_pro.Edits.Apply.Runs.{run, Shuffled, AllReady, run-any_order}
use whatsapp_mcp_pro.Edits.Apply.Foreign.{Same, AllForeign, foreign_edits}
use whatsapp_mcp_pro.Edits.Apply.Grows
use whatsapp_mcp_pro.Edits.Apply.Replay.{apply_edit_replay}
use whatsapp_mcp_pro.Edits.Messages.{
  second, settle, is_genuine, genuine_edits, waits, by_second, insert_by_second, last,
}
use whatsapp_mcp_pro.Edits.Messages.Latest.{UpTo, settle-latest, settle-same_second}
use whatsapp_mcp_pro.Edits.Revoke.{
  Revoke, mark_deleted, revoke_unstored, revoke_stored, set_deleted, deleted, revoked_row,
}
use whatsapp_mcp_pro.Edits.Apply.{
  apply_unstored, apply_stored, record_edit, accept, edit_row, placeholder_row,
}
use whatsapp_mcp_pro.Edits.Rows.{set_edited_content, edited, counted, ensure_chat, null_if_empty}
use whatsapp_mcp_pro.Base.{update}
use whatsapp_mcp_pro.Edits.Forward.{Later}
use whatsapp_mcp_pro.Edits.Forward.Ops.{Op, edit, revoke, perform_all, perform_all-Forward}

-- Strings without spaces, JIDs that are not taken apart, and one stamp.
abbrev plain : GoText
plain = record { trim = λ s. s; cut = λ s. none; stamp_key = λ n. "ts-0" }

abbrev ann : String
ann = "4915@s.whatsapp.net"

abbrev ann_lid : String
ann_lid = "77@lid"

abbrev bob : String
bob = "4916@s.whatsapp.net"

abbrev group : String
group = "12@g.us"

abbrev directory : List IdentityRow
directory = record { jid = ann; lid = ann_lid; phone_jid = ann } ∷ []

abbrev message : MessageRow
message = record {
  id = "3EB0";
  chat_jid = group;
  sender = some ann;
  sender_name = some "Ann";
  content = some "helo";
  timestamp = 5 * second;
  is_from_me = false;
  media = empty_media;
  edited_at = none;
  is_edited = false;
  edit_count = 0;
  deleted_at = none;
  deleted_by = none;
}

abbrev store : Store
store = record {
  messages = message ∷ [];
  edits = [];
  chats = group ∷ [];
  identities = directory;
  embeddings = [];
}

abbrev by_ann : String → ℕ → String → Edit
by_ann text at key = record {
  target = "3EB0";
  chat_jids = group ∷ [];
  text = text;
  at = at;
  editor = record { actor_jid = ann_lid; forms = []; is_me = false };
  stanza_id = key;
  origin = live;
  trusted = false;
}

abbrev first_edit : Edit
first_edit = by_ann "hello" (6 * second) "A1"

abbrev second_edit : Edit
second_edit = by_ann "hello!" (7 * second) "A2"

abbrev forged : Edit
forged = record first_edit { editor = record { actor_jid = bob; forms = []; is_me = false } }

-- The account of the group's member is found by its LID.
abbrev Ann : Type 0
Ann =
    is_author plain directory (some ann) group false
      (record { actor_jid = ann_lid; forms = []; is_me = false })
    ≡ true

ann_is_author : Ann
unfolding is_author stored_sender_jid account_forms start_forms expand new_forms row_forms linked
    elem any_elem find
ann_is_author = refl

ready :
    (text : String) (at : ℕ) (key : String)
    → Ready plain "3EB0" group store message (by_ann text at key)
unfolding find_message_chat find is_imported_message_id
ready text at key = record {
  names = refl;
  valid = refl;
  genuine = refl;
  located = refl;
  allowed = ann_is_author;
  fresh = refl;
}

both_ready : AllReady plain "3EB0" group store message (first_edit ∷ second_edit ∷ [])
unfolding edit_key
both_ready = (
  ready "hello" (6 * second) "A1",
  (((λ e. ground (arith, e, eq_iff "A1" "A2")), tt), (ready "hello!" (7 * second) "A2", (tt, tt))),
)

the_row : find (is_message "3EB0" group) store.messages ≡ some message
unfolding find
the_row = refl

run-any_order_example :
    find (is_message "3EB0" group) (run plain (second_edit ∷ first_edit ∷ []) store).messages
    ≡ find (is_message "3EB0" group) (run plain (first_edit ∷ second_edit ∷ []) store).messages
run-any_order_example =
    run-any_order plain "3EB0" group (first_edit ∷ second_edit ∷ []) (second_edit ∷ first_edit ∷ [])
      store message the_row both_ready
      (Shuffled.swap first_edit second_edit [] (λ e. omega (arith, e)))

same_row :
    (chat : String) (r : MessageRow)
    → find (is_message "3EB0" chat) store.messages ≡ some r
    → message ≡ r
unfolding find
same_row chat r e = ground (arith, e)

bob_in :
    (chat : String)
    → is_author plain directory
        (some ann)
        chat
        false
        (record { actor_jid = bob; forms = []; is_me = false })
      ≡ false
unfolding is_author stored_sender_jid account_forms start_forms expand new_forms row_forms linked
    elem any_elem find
bob_in chat = refl

forged_only : AllForeign plain store.messages directory (forged ∷ [])
forged_only = (
  record {
    untrusted = refl;
    no_author = λ chat r e.
        subst
          (λ (m : MessageRow).
            is_author plain directory m.sender chat m.is_from_me
              (record { actor_jid = bob; forms = []; is_me = false })
            ≡ false)
          (same_row chat r e) (bob_in chat);
  },
  tt,
)

foreign_edits_example : Same store (run plain (forged ∷ []) store)
foreign_edits_example = foreign_edits plain (forged ∷ []) store forged_only

abbrev by_author : Revoke
by_author = record {
  target = "3EB0";
  chat_jids = group ∷ [];
  at = 8 * second;
  by = record { actor_jid = ann_lid; forms = []; is_me = false };
  author = record { actor_jid = ""; forms = []; is_me = false };
  is_admin = false;
  trusted = false;
}

-- The author deletes the message between the two times.
abbrev after_first : Store
after_first = (apply_edit plain first_edit store).0

apply_edit_replay_example :
    (apply_edit plain first_edit
      (Grows.perform_all plain (Grows.revoke by_author ∷ []) after_first)).0
    ≡ Grows.perform_all plain (Grows.revoke by_author ∷ []) after_first
unfolding Grows.perform_all apply_edit Grows.perform is_imported_message_id mark_deleted
    apply_unstored revoke_unstored apply_stored revoke_stored find_message_chat record_edit find
    is_author set_deleted stored_sender_jid any_elem account_forms expand start_forms new_forms elem
    row_forms linked accept set_edited_content update edited edit_row placeholder_row deleted
    revoked_row counted ensure_chat null_if_empty
apply_edit_replay_example =
    apply_edit_replay plain first_edit (Grows.revoke by_author ∷ []) store refl

abbrev ops : List Op
ops = revoke by_author ∷ edit second_edit ∷ edit first_edit ∷ []

perform_all-Forward_example :
    (q : MessageRow) × ((find (is_message "3EB0" group) (perform_all plain ops store).messages
        ≡ some q)
      × Later message q)
perform_all-Forward_example = perform_all-Forward plain ops store "3EB0" group message the_row

-- Two rows that refer to each other.
abbrev circle : List IdentityRow
circle =
    record { jid = ann; lid = ann_lid; phone_jid = bob }
    ∷ record { jid = bob; lid = ann_lid; phone_jid = ann }
    ∷ []

account_forms_closed_example :
    ((expand
        (length (start_forms plain (ann ∷ [])) + 3 * length circle)
        circle
        []
        (start_forms plain (ann ∷ []))).1
      ≡ [])
    × Covers (account_forms plain circle (ann ∷ [])) (map plain.trim (ann ∷ []))
    × ClosedUnder circle
        (account_forms plain circle (ann ∷ []))
        (account_forms plain circle (ann ∷ []))
account_forms_closed_example = account_forms_closed plain circle (ann ∷ [])

abbrev waiting : String → ℕ → String → EditRow
waiting text at key = record {
  message_id = "3EB0";
  edit_chat = group;
  edit_id = key;
  old_content = none;
  new_content = text;
  made_at = at;
  editor_jid = some ann_lid;
  source = live;
  status = pending;
}

-- The newer edit came first.
abbrev newer_edit : EditRow
newer_edit = waiting "hello!" (6 * second + 400000000) "A2"

abbrev older_edit : EditRow
older_edit = waiting "hello" (6 * second + 100000000) "A1"

abbrev before_message : Store
before_message = record store { edits = newer_edit ∷ older_edit ∷ [] }

genuine :
    (text : String) (at : ℕ) (key : String)
    → is_genuine plain before_message message group (waiting text at key) ≡ true
unfolding is_genuine
genuine text at key = ann_is_author

picked : last (genuine_edits plain before_message message group) ≡ some older_edit
unfolding last by_second insert_by_second
picked = ground (
  arith,
  genuine "hello!" (6 * second + 400000000) "A2",
  genuine "hello" (6 * second + 100000000) "A1",
)

settle-latest_example :
    (find (is_message "3EB0" group) (settle plain message group before_message).messages
      ≡ some (
          edited "hello"
            (6 * second + 100000000)
            (length (genuine_edits plain before_message message group))
            message))
    × UpTo ((6 * second + 100000000) / second) (
        filter
          (is_genuine plain before_message message group)
          (filter (waits "3EB0" group) before_message.edits))
settle-latest_example =
    settle-latest plain message group before_message older_edit the_row refl picked

settle-same_second_example :
    find (is_message "3EB0" group) (settle plain message group before_message).messages
    ≡ some (edited "hello" (6 * second + 100000000) 2 message)
settle-same_second_example =
    settle-same_second plain message group before_message newer_edit older_edit the_row refl refl
      (genuine "hello!" (6 * second + 400000000) "A2")
      (genuine "hello" (6 * second + 100000000) "A1") (omega arith) refl
