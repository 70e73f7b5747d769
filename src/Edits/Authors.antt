-- ===== src/Edits/Authors.antt =====
-- Who wrote a message: `storedSenderJID`, `accountForms` and `isAuthor` of whatsapp-bridge/internal/
-- database/edits_calls.go. A set of forms is a list without the order of Go's map; the queue of
-- accountForms runs on fuel.
pub mod Closed
use Prim.Native.String.{◌++◌ as ◌++ₛ◌}
use text.Mathlib.Text.{find?}
use whatsapp_mcp_pro.Base.{
  elem, ℕ, zero, suc, ◌+◌, ◌*◌, List, [], ◌∷◌, ◌++◌, Option, none, some, Bool, true, false, not,
  ◌&&◌, ◌||◌, String, str_eq, if◌then◌else◌, is_some, find, length, map,
}
use whatsapp_mcp_pro.Edits.Rows.{GoText, IdentityRow}

-- `Actor`
pub record Actor : Type 0 where
  pub actor_jid : String
  pub forms : List String
  pub is_me : Bool

abbrev pub has_server : String → Bool
has_server s = is_some (find? s "@")

-- The forms that name a server and that a list does not hold yet, each once.
unfoldable pub new_forms : List String → List String → List String
new_forms out [] = []
new_forms out (f ∷ fs) =
    if has_server f && not (elem f out) then f ∷ new_forms (out ++ f ∷ []) fs else new_forms out fs

-- The row that the query of `accountForms` finds first.
unfoldable pub linked : String → IdentityRow → Bool
linked form r = str_eq r.jid form || (str_eq r.lid form || str_eq r.phone_jid form)

abbrev pub forms_of : IdentityRow → List String
forms_of r = r.jid ∷ r.lid ∷ r.phone_jid ∷ []

unfoldable pub row_forms : String → List IdentityRow → List String
row_forms form rows = elim (find (linked form) rows) [ none ↦ [] | some r ↦ forms_of r ]

-- The loop over the queue: the first forms are expanded, the second ones are not yet.
unfoldable pub expand : ℕ → List IdentityRow → List String → List String → List String × List String
expand zero rows done queue = (done, queue)
expand (suc fuel) rows done [] = (done, [])
expand (suc fuel) rows done (form ∷ queue) =
    expand fuel rows (done ++ form ∷ [])
      (queue ++ new_forms (done ++ form ∷ queue) (row_forms form rows))

-- `accountForms`
unfoldable pub start_forms : GoText → List String → List String
start_forms go jids = new_forms [] (map go.trim jids)

unfoldable pub account_forms : GoText → List IdentityRow → List String → List String
account_forms go rows jids =
    let queue = start_forms go jids in (expand (length queue + 3 * length rows) rows [] queue).0

-- `storedSenderJID`
unfoldable pub stored_sender_jid : GoText → List IdentityRow → String → String → String
stored_sender_jid go rows sender chat =
    let s = go.trim sender in
    let by_directory =
      if is_some (find (λ (r : IdentityRow). str_eq r.lid (s ++ₛ "@lid")) rows)
      then s ++ₛ "@lid"
      else s ++ₛ "@s.whatsapp.net" in
    if str_eq s "" || has_server s then s else elim (go.cut chat) [
      | none ↦ by_directory
      | some (user, server) ↦
          if not (str_eq server "g.us") && str_eq user s then chat else by_directory
    ]

unfoldable pub any_elem : List String → List String → Bool
any_elem [] ys = false
any_elem (x ∷ xs) ys = elem x ys || any_elem xs ys

-- `isAuthor`
unfoldable pub is_author : GoText → List IdentityRow → Option String → String → Bool → Actor → Bool
is_author go rows sender chat true actor = actor.is_me
is_author go rows none chat false actor = false
is_author go rows (some sender) chat false actor =
    let author = stored_sender_jid go rows sender chat in
    if actor.is_me
    then false
    else if str_eq author ""
    then false
    else any_elem (account_forms go rows (actor.actor_jid ∷ actor.forms))
        (account_forms go rows (author ∷ []))
