-- ===== src/Edits/Forward/Changes.antt =====
-- The changes of one row of `messages` in whatsapp-bridge/internal/database/edits_calls.go and
-- messages.go, none of which takes it back.
use whatsapp_mcp_pro.Base.{
  NotBefore, NotBefore-refl, ℕ, ◌≡◌, ◌∙◌, refl, ap, sym, inl, inr, List, [], ◌∷◌, Option, none,
  some, true, String, is_some, arith, find, update, Keeps, find-passes, eq_iff, Bool-cases,
}
use whatsapp_mcp_pro.Edits.Rows.{MessageRow, is_message, edited, counted}
use whatsapp_mcp_pro.Edits.Apply.{is_newest}
use whatsapp_mcp_pro.Edits.Apply.Row.{edited-Keeps, counted-Keeps}
use whatsapp_mcp_pro.Edits.Revoke.{deleted}
use whatsapp_mcp_pro.Edits.Messages.{Incoming, merged, new_row, upsert_message}
use whatsapp_mcp_pro.Edits.Forward.{Later, Later-refl, Forward, Forward-append, Forward-update}

newest-NotBefore : (at : ℕ) (t : Option ℕ) → is_newest at t ≡ true → NotBefore t (some at)
newest-NotBefore at none h = tt
newest-NotBefore at (some t) h = ground (arith, h)

edited-Later :
    (text : String) (at n : ℕ) (r : MessageRow)
    → is_newest at r.edited_at ≡ true
    → Later r (edited text at n r)
unfolding edited
edited-Later text at n r newest = record {
  deleted_stays = λ h. (refl, refl);
  more_edits = omega arith;
  newer_edit = newest-NotBefore at r.edited_at newest;
  still_edited = λ h. refl;
}

counted-Later : (n : ℕ) (r : MessageRow) → Later r (counted n r)
unfolding counted
counted-Later n r =
    let same = Later-refl r in
    record {
      deleted_stays = λ h. (refl, refl);
      more_edits = omega arith;
      newer_edit = same.newer_edit;
      still_edited = λ h. refl;
    }

deleted-edited_at :
    (at : ℕ) (by : String) (r : MessageRow) → (deleted at by r).edited_at ≡ r.edited_at
unfolding deleted
deleted-edited_at at by r = ground arith

pub deleted-Later : (at : ℕ) (by : String) (r : MessageRow) → Later r (deleted at by r)
unfolding deleted
deleted-Later at by r = record {
  deleted_stays = λ gone. (ground (arith, gone), ground (arith, gone));
  more_edits = ground arith;
  newer_edit = rw (deleted-edited_at at by r) (NotBefore-refl r.edited_at);
  still_edited = λ h. ground (arith, h);
}

pub deleted-Keeps : (at : ℕ) (by id chat : String) → Keeps (is_message id chat) (deleted at by)
unfolding deleted
deleted-Keeps at by id chat r = ground arith

merged-Keeps : (m : Incoming) (id chat : String) → Keeps (is_message id chat) (merged m)
unfolding merged
merged-Keeps m id chat r = refl

merged-Later : (m : Incoming) (r : MessageRow) → Later r (merged m r)
unfolding merged
merged-Later m r =
    let same = Later-refl r in
    record {
      deleted_stays = λ h. (refl, refl);
      more_edits = same.more_edits;
      newer_edit = same.newer_edit;
      still_edited = λ h. h;
    }

some_inj : (q r : MessageRow) → some q ≡ some r → q ≡ r
some_inj q r e = cc

-- A row is found under its own ID too.
pub row_key :
    (id chat : String) (ms : List MessageRow) (m : MessageRow)
    → find (is_message id chat) ms ≡ some m
    → find (is_message m.id chat) ms ≡ some m
row_key id chat ms m row =
    let key = find-passes (is_message id chat) ms m row in
    let same : m.id ≡ id = ground (arith, key, eq_iff m.id id) in
    ap (λ (k : String). find (is_message k chat) ms) same ∙ row

pub upsert-Forward : (m : Incoming) (ms : List MessageRow) → Forward ms (upsert_message m ms)
unfolding upsert_message
upsert-Forward m ms = elim (Bool-cases (is_some (find (is_message m.id m.chat) ms))) [
  | inl there ↦
      rw there (Forward-update m.id m.chat (merged m) ms (merged-Keeps m) (λ r e. merged-Later m r))
  | inr absent ↦ rw absent (Forward-append ms (new_row m ∷ []))
]

pub edited-Forward :
    (id chat text : String) (at n : ℕ) (ms : List MessageRow) (r : MessageRow)
    → find (is_message id chat) ms ≡ some r
    → is_newest at r.edited_at ≡ true
    → Forward ms (update (is_message id chat) (edited text at n) ms)
edited-Forward id chat text at n ms r row newest =
    Forward-update id chat (edited text at n) ms (λ i c. edited-Keeps i c text at n)
      (λ q there.
        let same = some_inj q r (sym there ∙ row) in
        edited-Later text at n q (ap (λ (m : MessageRow). is_newest at m.edited_at) same ∙ newest))

pub counted-Forward :
    (id chat : String) (n : ℕ) (ms : List MessageRow)
    → Forward ms (update (is_message id chat) (counted n) ms)
counted-Forward id chat n ms =
    Forward-update id chat (counted n) ms (λ i c. counted-Keeps i c n)
      (λ q there. counted-Later n q)
