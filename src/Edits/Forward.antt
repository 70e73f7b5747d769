-- ===== src/Edits/Forward.antt =====
-- A row of `messages` never goes back: its deletion, its count of edits and the instant of its last
-- edit, over the operations of whatsapp-bridge/internal/database/edits_calls.go and messages.go.
pub mod Changes
pub mod Applied
pub mod Revoked
pub mod Delivered
pub mod Ops
use whatsapp_mcp_pro.Base.{
  NotBefore, NotBefore-refl, NotBefore-trans, ℕ, ◌+◌, ◌≤◌, ◌≡◌, ◌∙◌, refl, ap, sym, ◌⊎◌, inl, inr,
  List, [], ◌∷◌, ◌++◌, Option, none, some, Bool, true, false, not, ◌&&◌, ◌||◌, String, str_eq,
  eq_iff, leb, if◌then◌else◌, is_some, arith, find, update, Keeps, find-append, find-update_any,
  find-passes, Option-cases, Bool-cases,
}
use whatsapp_mcp_pro.Edits.Rows.{MessageRow, is_message}

-- What a row becomes: a deletion stays as it is, and the edits only advance.
pub record Later (r q : MessageRow) : Type 0 where
  pub deleted_stays :
      is_some r.deleted_at ≡ true → (q.deleted_at ≡ r.deleted_at) × (q.deleted_by ≡ r.deleted_by)
  pub more_edits : r.edit_count ≤ q.edit_count
  pub newer_edit : NotBefore r.edited_at q.edited_at
  pub still_edited : r.is_edited ≡ true → q.is_edited ≡ true

pub Later-refl : (r : MessageRow) → Later r r
Later-refl r = record {
  deleted_stays = λ h. (refl, refl);
  more_edits = omega arith;
  newer_edit = NotBefore-refl r.edited_at;
  still_edited = λ h. h;
}

Later-trans : (r q p : MessageRow) → Later r q → Later q p → Later r p
Later-trans r q p h k = record {
  deleted_stays = λ gone.
      let first = h.deleted_stays gone in
      let next = k.deleted_stays (ap (is_some {A = ℕ}) first.0 ∙ gone) in
      (next.0 ∙ first.0, next.1 ∙ first.1);
  more_edits = omega (arith, h.more_edits, k.more_edits);
  newer_edit = NotBefore-trans r.edited_at q.edited_at p.edited_at h.newer_edit k.newer_edit;
  still_edited = λ e. k.still_edited (h.still_edited e);
}

-- Every row of a table is still there, and has not gone back.
abbrev pub Forward : List MessageRow → List MessageRow → Type 0
Forward ms ns =
    (id chat : String) (r : MessageRow)
    → find (is_message id chat) ms ≡ some r
    → (q : MessageRow) × ((find (is_message id chat) ns ≡ some q) × Later r q)

pub Forward-refl : (ms : List MessageRow) → Forward ms ms
Forward-refl ms id chat r e = (r, (e, Later-refl r))

pub Forward-to : (ms ns os : List MessageRow) → ns ≡ os → Forward ms os → Forward ms ns
Forward-to ms ns os e h = rw e h

pub Forward-trans : (ms ns os : List MessageRow) → Forward ms ns → Forward ns os → Forward ms os
Forward-trans ms ns os h k id chat r e =
    let first = h id chat r e in
    let next = k id chat first.0 first.1.0 in
    (next.0, (next.1.0, Later-trans r first.0 next.0 first.1.1 next.1.1))

pub Forward-append : (ms rows : List MessageRow) → Forward ms (ms ++ rows)
Forward-append ms rows id chat r e =
    (r, (find-append (is_message id chat) ms rows r e, Later-refl r))

-- Two keys of one row are one key.
same_key :
    (a b c d : String) (r : MessageRow)
    → is_message a b r ≡ true
    → is_message c d r ≡ true
    → (a ≡ c) × (b ≡ d)
same_key a b c d r h k = (
  ground (arith, h, k, eq_iff r.id a, eq_iff r.id c),
  ground (arith, h, k, eq_iff r.chat_jid b, eq_iff r.chat_jid d),
)

-- A change of the rows under one key, which the row that stands there bears.
pub Forward-update :
    (id chat : String) (f : MessageRow → MessageRow) (ms : List MessageRow)
    → ((i c : String) → Keeps (is_message i c) f)
    → ((r : MessageRow) → find (is_message id chat) ms ≡ some r → Later r (f r))
    → Forward ms (update (is_message id chat) f ms)
Forward-update id chat f ms keep later i c r e =
    let key = find-passes (is_message i c) ms r e in
    let there = find-update_any (is_message i c) (is_message id chat) f ms r (keep i c) e in
    elim (Bool-cases (is_message id chat r)) [
      | inl hit ↦
          let same = same_key id chat i c r hit key in
          (f r, (ground (arith, there, hit), later r (rw (same.0, same.1) e)))
      | inr miss ↦ (r, (ground (arith, there, miss), Later-refl r))
    ]
