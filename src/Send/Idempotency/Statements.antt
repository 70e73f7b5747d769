-- ===== src/Send/Idempotency/Statements.antt =====
-- The statements that requests run on the table of whatsapp-bridge/internal/database/send_state.go, one
-- by one.
use whatsapp_mcp_pro.Base.{ℕ, ◌≤◌, ◌≡◌, List, [], ◌∷◌, Bool, true, false, ◌&&◌, String, str_eq}
use whatsapp_mcp_pro.Send.Idempotency.{
  Status, Table, purge, insert_or_ignore, reclaim_row, set_message_id, finish,
}

-- One statement of a request: of its claim, of its dispatch, or of its end. The statements of
-- several requests come in any order.
pub data Op : Type 0 where
  purges : ℕ → Op
  inserts : String → String → String → ℕ → Op
  reclaims : String → String → String → ℕ → Op
  dispatches : String → String → String → Op
  finishes : String → String → Status → String → ℕ → String → ℕ → Op

unfoldable pub apply : Table → Op → Table
apply t (purges now) = purge now t
apply t (inserts key scope h now) = (insert_or_ignore key scope h now t).0
apply t (reclaims key scope h now) = (reclaim_row key scope h now t).0
apply t (dispatches key scope id) = set_message_id key scope id t
apply t (finishes key scope status id code response now) =
    finish key scope status id code response now t

unfoldable pub apply_all : Table → List Op → Table
unfolding apply
apply_all t [] = t
apply_all t (op ∷ ops) = apply_all (apply t op) ops

-- Whether a statement gives its request the key: it affected a row.
unfoldable pub wins : Op → Table → Bool
wins (inserts key scope h now) t = (insert_or_ignore key scope h now t).1
wins (reclaims key scope h now) t = (reclaim_row key scope h now t).1
wins _ t = false

-- While one request owns a key, the others run statements of claims, of this key and of others, by
-- clocks up to `until`, and what they want on other keys.
abbrev pub Others : String → String → ℕ → Op → Type 0
Others key scope until (purges now) = now ≤ until
Others key scope until (inserts k s h now) = Unit
Others key scope until (reclaims k s h now) = now ≤ until
Others key scope until (dispatches k s id) = (str_eq k key && str_eq s scope) ≡ false
Others key scope until (finishes k s status id code response now) =
    (str_eq k key && str_eq s scope) ≡ false

abbrev pub AllOthers : String → String → ℕ → List Op → Type 0
AllOthers key scope until [] = Unit
AllOthers key scope until (op ∷ ops) = Others key scope until op × AllOthers key scope until ops

-- The statement by which a claim takes a key: its INSERT, or its UPDATE of a row that is there.
abbrev pub claiming : Bool → String → String → String → ℕ → Op
claiming false = inserts
claiming true = reclaims
