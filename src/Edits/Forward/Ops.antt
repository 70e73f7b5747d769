-- ===== src/Edits/Forward/Ops.antt =====
-- The operations on a message, in any order: ApplyEdit and MarkDeleted of whatsapp-bridge/internal/
-- database/edits_calls.go, and StoreMessage of messages.go.
use whatsapp_mcp_pro.Base.{List, [], ◌∷◌}
use whatsapp_mcp_pro.Edits.Rows.{GoText, Store}
use whatsapp_mcp_pro.Edits.Apply.{Edit, apply_edit}
use whatsapp_mcp_pro.Edits.Revoke.{Revoke, mark_deleted}
use whatsapp_mcp_pro.Edits.Messages.{Incoming, store_message}
use whatsapp_mcp_pro.Edits.Forward.{Forward, Forward-refl, Forward-trans}
use whatsapp_mcp_pro.Edits.Forward.Applied.{apply_edit-Forward}
use whatsapp_mcp_pro.Edits.Forward.Revoked.{mark_deleted-Forward}
use whatsapp_mcp_pro.Edits.Forward.Delivered.{store_message-Forward}

-- What a row of `messages` can meet.
pub data Op : Type 0 where
  edit : Edit → Op
  revoke : Revoke → Op
  deliver : Incoming → Op

unfoldable pub perform : GoText → Op → Store → Store
perform go (edit e) s = (apply_edit go e s).0
perform go (revoke r) s = (mark_deleted go r s).0
perform go (deliver m) s = store_message go m s

unfoldable pub perform_all : GoText → List Op → Store → Store
perform_all go [] s = s
perform_all go (op ∷ ops) s = perform_all go ops (perform go op s)

perform-Forward :
    (go : GoText) (op : Op) (s : Store) → Forward s.messages (perform go op s).messages
unfolding perform
perform-Forward go (edit e) s = apply_edit-Forward go e s
perform-Forward go (revoke r) s = mark_deleted-Forward go r s
perform-Forward go (deliver m) s = store_message-Forward go m s

-- Over any edits, revokes and deliveries, every stored message is still there: once it is deleted,
-- the instant and the deleter stay, its edits are never fewer, it stays marked as edited, and the
-- instant of its last edit is not moved back.
pub perform_all-Forward :
    (go : GoText) (ops : List Op) (s : Store) → Forward s.messages (perform_all go ops s).messages
unfolding perform_all
perform_all-Forward go [] s = Forward-refl s.messages
perform_all-Forward go (op ∷ ops) s =
    let s' = perform go op s in
    Forward-trans s.messages s'.messages (perform_all go ops s').messages (perform-Forward go op s)
      (perform_all-Forward go ops s')
