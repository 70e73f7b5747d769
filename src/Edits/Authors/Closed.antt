-- ===== src/Edits/Authors/Closed.antt =====
-- The queue of accountForms (whatsapp-bridge/internal/database/edits_calls.go) ends, and what it
-- finds is closed under the directory.
use whatsapp_mcp_pro.Base.{
  elem, ℕ, zero, suc, ◌+◌, ◌*◌, ◌≤◌, ◌≡◌, ◌∙◌, refl, ap, sym, subst, inl, inr, List, [], ◌∷◌, ◌++◌,
  true, false, not, ◌&&◌, ◌||◌, String, eq_iff, arith, find, length, length-append, count, map, All,
  All-append, Bool-cases,
}
use mathlib.Core.List.{append_assoc, append-nil}
use whatsapp_mcp_pro.Edits.Rows.{GoText, IdentityRow}
use whatsapp_mcp_pro.Edits.Authors.{
  has_server, new_forms, linked, forms_of, row_forms, expand, start_forms, account_forms,
}

pub elem-append : (x : String) (xs ys : List String) → elem x (xs ++ ys) ≡ (elem x xs || elem x ys)
unfolding elem
elem-append x [] ys = refl
elem-append x (y ∷ xs) ys = ground (arith, elem-append x xs ys)

-- The forms of a directory that a list does not hold, with their repetitions.
missing : List String → List String → ℕ
missing out us = count (λ u. not (elem u out)) us

-- Adding a form never adds a missing one, and takes away a missing form of the directory.
missing-append : (out us : List String) (f : String) → missing (out ++ f ∷ []) us ≤ missing out us
unfolding missing elem
missing-append out [] f = omega arith
missing-append out (u ∷ us) f = ground (arith, elem-append u out (f ∷ []), missing-append out us f)

missing-append_elem :
    (out us : List String) (f : String)
    → elem f us ≡ true
    → elem f out ≡ false
    → missing (out ++ f ∷ []) us + 1 ≤ missing out us
unfolding missing elem
missing-append_elem out [] f h k = cc
missing-append_elem out (u ∷ us) f h k = ground (
  arith,
  elem-append u out (f ∷ []),
  eq_iff u f,
  eq_iff f u,
  missing-append out us f,
  missing-append_elem out us f,
)

abbrev Within : List String → List String → Type 0
Within us = All (λ f. elem f us ≡ true)

new_forms-missing :
    (us out fs : List String)
    → Within us fs
    → length (new_forms out fs) + missing (out ++ new_forms out fs) us ≤ missing out us
unfolding new_forms
new_forms-missing us out [] w = rw (append-nil) (omega arith)
new_forms-missing us out (f ∷ fs) w = elim (Bool-cases (has_server f && not (elem f out))) [
  | inr old ↦ rw (old, new_forms) (new_forms-missing us out fs w.1)
  | inl new ↦
      let rest = new_forms (out ++ f ∷ []) fs in
      let ih = new_forms-missing us (out ++ f ∷ []) fs w.1 in
      let ih' : length rest + missing (out ++ (f ∷ rest)) us ≤ missing (out ++ f ∷ []) us =
        subst (λ l. length rest + missing l us ≤ missing (out ++ f ∷ []) us)
          (append_assoc out (f ∷ []) rest) ih in
      rw (new, new_forms)
        (omega (arith, ih', missing-append_elem out us f w.0 (ground (arith, new))))
]

-- What the expansion of a form adds was missing, so the queue ends.
expand_ends :
    (fuel : ℕ) (rows : List IdentityRow) (us done queue : List String)
    → ((form : String) → Within us (row_forms form rows))
    → missing (done ++ queue) us + length queue ≤ fuel
    → (expand fuel rows done queue).1 ≡ []
unfolding expand
expand_ends zero rows us done [] w m = refl
expand_ends zero rows us done (form ∷ queue) w m = absurd (omega arith)
expand_ends (suc fuel) rows us done [] w m = refl
expand_ends (suc fuel) rows us done (form ∷ queue) w m =
    let out = done ++ (form ∷ queue) in
    let new = new_forms out (row_forms form rows) in
    let fewer = new_forms-missing us out (row_forms form rows) (w form) in
    let same : out ++ new ≡ (done ++ form ∷ []) ++ (queue ++ new) =
      append_assoc done (form ∷ queue) new ∙ sym (append_assoc done (form ∷ []) (queue ++ new)) in
    let fewer' = subst (λ l. length new + missing l us ≤ missing out us) same fewer in
    expand_ends fuel rows us (done ++ form ∷ []) (queue ++ new) w
      (omega (arith, fewer', m, length-append {0} queue new))

-- All forms of a directory.
directory : List IdentityRow → List String
directory [] = []
directory (r ∷ rows) = forms_of r ++ directory rows

length-directory : (rows : List IdentityRow) → length (directory rows) ≡ 3 * length rows
unfolding directory
length-directory [] = omega arith
length-directory (r ∷ rows) = omega (arith, length-directory rows)

missing-le-length : (out us : List String) → missing out us ≤ length us
unfolding missing
missing-le-length out [] = omega arith
missing-le-length out (u ∷ us) = ground (arith, missing-le-length out us)

Within-append : (xs us fs : List String) → Within us fs → Within (xs ++ us) fs
Within-append xs us [] w = tt
Within-append xs us (f ∷ fs) w =
    (ground (arith, elem-append f xs us, w.0), Within-append xs us fs w.1)

row_forms-Within :
    (form : String) (rows : List IdentityRow) → Within (directory rows) (row_forms form rows)
unfolding row_forms find directory elem
row_forms-Within form [] = tt
row_forms-Within form (r ∷ rows) = elim (Bool-cases (linked form r)) [
  | inl here ↦
      rw (here, row_forms, find)
        (
          ground (arith, eq_iff r.jid r.jid),
          (
            ground (arith, eq_iff r.lid r.lid),
            (ground (arith, eq_iff r.phone_jid r.phone_jid), tt),
          ),
        )
  | inr below ↦
      rw (below, row_forms, find)
        (Within-append (forms_of r) (directory rows) (row_forms form rows)
          (row_forms-Within form rows))
]

-- Each form of a list that names a server is held.
abbrev pub Covers : List String → List String → Type 0
Covers out = All (λ f. (not (has_server f) || elem f out) ≡ true)

Covers-append : (out ys fs : List String) → Covers out fs → Covers (out ++ ys) fs
Covers-append out ys [] c = tt
Covers-append out ys (f ∷ fs) c =
    (ground (arith, elem-append f out ys, c.0), Covers-append out ys fs c.1)

new_forms-Covers : (out fs : List String) → Covers (out ++ new_forms out fs) fs
unfolding new_forms elem
new_forms-Covers out [] = tt
new_forms-Covers out (f ∷ fs) = elim (Bool-cases (has_server f && not (elem f out))) [
  | inr old ↦
      let step : new_forms out (f ∷ fs) ≡ new_forms out fs = rw (old, new_forms) refl in
      subst (λ l. Covers (out ++ l) (f ∷ fs)) (sym step)
        (ground (arith, old, elem-append f out (new_forms out fs)), new_forms-Covers out fs)
  | inl new ↦
      let rest = new_forms (out ++ f ∷ []) fs in
      let step : new_forms out (f ∷ fs) ≡ f ∷ rest = rw (new, new_forms) refl in
      subst (λ l. Covers (out ++ l) (f ∷ fs)) (sym step)
        (
          ground (arith, elem-append f out (f ∷ rest), eq_iff f f),
          subst (λ l. Covers l fs) (append_assoc out (f ∷ []) rest)
              (new_forms-Covers (out ++ f ∷ []) fs),
        )
]

-- The forms that stand beside one that was expanded are held.
abbrev pub ClosedUnder : List IdentityRow → List String → List String → Type 0
ClosedUnder rows out = All (λ d. Covers out (row_forms d rows))

ClosedUnder-append :
    (rows : List IdentityRow) (out ys ds : List String)
    → ClosedUnder rows out ds
    → ClosedUnder rows (out ++ ys) ds
ClosedUnder-append rows out ys [] c = tt
ClosedUnder-append rows out ys (d ∷ ds) c =
    (Covers-append out ys (row_forms d rows) c.0, ClosedUnder-append rows out ys ds c.1)

module _ (rows : List IdentityRow) where
  -- One round: the held forms grow at the end.
  grows :
      (done queue new : List String) (form : String)
      → (done ++ (form ∷ queue)) ++ new ≡ (done ++ form ∷ []) ++ (queue ++ new)
  grows done queue new form =
      append_assoc done (form ∷ queue) new ∙ sym (append_assoc done (form ∷ []) (queue ++ new))

  expand-Covers :
      (fuel : ℕ) (done queue fs : List String)
      → Covers (done ++ queue) fs
      → Covers ((expand fuel rows done queue).0 ++ (expand fuel rows done queue).1) fs
  unfolding expand
  expand-Covers zero done queue fs c = c
  expand-Covers (suc fuel) done [] fs c = c
  expand-Covers (suc fuel) done (form ∷ queue) fs c =
      let new = new_forms (done ++ (form ∷ queue)) (row_forms form rows) in
      expand-Covers fuel (done ++ form ∷ []) (queue ++ new) fs (
        subst (λ l. Covers l fs) (grows done queue new form)
          (Covers-append (done ++ (form ∷ queue)) new fs c))

  expand-ClosedUnder :
      (fuel : ℕ) (done queue : List String)
      → ClosedUnder rows (done ++ queue) done
      → ClosedUnder rows
          ((expand fuel rows done queue).0 ++ (expand fuel rows done queue).1)
          (expand fuel rows done queue).0
  unfolding expand
  expand-ClosedUnder zero done queue c = c
  expand-ClosedUnder (suc fuel) done [] c = c
  expand-ClosedUnder (suc fuel) done (form ∷ queue) c =
      let out = done ++ (form ∷ queue) in
      let new = new_forms out (row_forms form rows) in
      let old = ClosedUnder-append rows out new done c in
      let own = new_forms-Covers out (row_forms form rows) in
      expand-ClosedUnder fuel (done ++ form ∷ []) (queue ++ new) (
        subst (λ l. ClosedUnder rows l (done ++ form ∷ [])) (grows done queue new form)
          (All-append (λ d. Covers (out ++ new) (row_forms d rows)) done (form ∷ []) old (own, tt)))

-- The search for the forms of an account ends within its bound, with an empty queue, for any
-- directory, also one whose rows refer to one another in a circle. What it finds holds every given
-- JID that names a server, and with each form those of the row that the directory has for it.
pub account_forms_closed :
    (go : GoText) (rows : List IdentityRow) (jids : List String)
    → ((expand (length (start_forms go jids) + 3 * length rows) rows [] (start_forms go jids)).1
        ≡ [])
      × Covers (account_forms go rows jids) (map go.trim jids)
      × ClosedUnder rows (account_forms go rows jids) (account_forms go rows jids)
unfolding account_forms start_forms
account_forms_closed go rows jids =
    let queue = new_forms [] (map go.trim jids) in
    let fuel = length queue + 3 * length rows in
    let result = expand fuel rows [] queue in
    let room : missing queue (directory rows) + length queue ≤ fuel =
      omega (arith, missing-le-length queue (directory rows), length-directory rows) in
    let ended : result.1 ≡ [] =
      expand_ends fuel rows (directory rows) [] queue (λ form. row_forms-Within form rows) room in
    let whole : result.0 ++ result.1 ≡ result.0 =
      ap (λ l. result.0 ++ l) ended ∙ append-nil result.0 in
    (
      ended,
      subst (λ l. Covers l (map go.trim jids)) whole
          (expand-Covers rows fuel [] queue (map go.trim jids)
            (new_forms-Covers [] (map go.trim jids))),
      subst (λ l. ClosedUnder rows l result.0) whole (expand-ClosedUnder rows fuel [] queue tt),
    )
