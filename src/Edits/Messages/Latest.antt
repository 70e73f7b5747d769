-- ===== src/Edits/Messages/Latest.antt =====
-- Which pending edit becomes the content: resolvePendingEdits of whatsapp-bridge/internal/database/
-- edits_calls.go, for a message that had no edit before.
use whatsapp_mcp_pro.Base.{
  ℕ, ◌/◌, ◌≤◌, ◌<◌, ◌≡◌, ◌∙◌, ap, subst, inl, inr, List, [], ◌∷◌, none, some, Bool, true, String,
  leb, if◌then◌else◌, arith, find, update, filter, length, find-update, Bool-cases,
}
use whatsapp_mcp_pro.Edits.Rows.{
  GoText, MessageRow, EditRow, Store, is_message, edited, set_edited_content,
}
use whatsapp_mcp_pro.Edits.Apply.Row.{edited-Keeps}
use whatsapp_mcp_pro.Edits.Messages.{
  waits, second, insert_by_second, by_second, last, is_genuine, settled, genuine_edits,
  apply_latest, settle,
}

-- No edit of a list is in a later second than n.
abbrev pub UpTo : ℕ → List EditRow → Type 0
UpTo n [] = Unit
UpTo n (r ∷ rs) = (r.made_at / second ≤ n) × UpTo n rs

-- Each is in no later second than the ones after it.
abbrev After : ℕ → List EditRow → Type 0
After n [] = Unit
After n (r ∷ rs) = (n ≤ r.made_at / second) × After n rs

some_inj : (q r : EditRow) → some q ≡ some r → q ≡ r
some_inj q r e = cc

abbrev BySecond : List EditRow → Type 0
BySecond [] = Unit
BySecond (r ∷ rs) = After (r.made_at / second) rs × BySecond rs

After-mono : (a b : ℕ) (rs : List EditRow) → a ≤ b → After b rs → After a rs
After-mono a b [] h k = tt
After-mono a b (r ∷ rs) h k = (omega (arith, h, k.0), After-mono a b rs h k.1)

After-insert :
    (n : ℕ) (r : EditRow) (rs : List EditRow)
    → n ≤ r.made_at / second
    → After n rs
    → After n (insert_by_second r rs)
unfolding insert_by_second
After-insert n r [] h k = (h, tt)
After-insert n r (q ∷ qs) h k = elim (Bool-cases (leb (r.made_at / second) (q.made_at / second))) [
  | inl le ↦ rw le (h, k)
  | inr gt ↦ rw gt (k.0, After-insert n r qs h k.1)
]

BySecond-insert : (r : EditRow) (rs : List EditRow) → BySecond rs → BySecond (insert_by_second r rs)
unfolding insert_by_second
BySecond-insert r [] h = (tt, tt)
BySecond-insert r (q ∷ qs) h = elim (Bool-cases (leb (r.made_at / second) (q.made_at / second))) [
  | inl le ↦
      let below : r.made_at / second ≤ q.made_at / second = ground (arith, le) in
      rw le ((below, After-mono (r.made_at / second) (q.made_at / second) qs below h.0), h)
  | inr gt ↦
      rw gt
        (After-insert (q.made_at / second) r qs (ground (arith, gt)) h.0, BySecond-insert r qs h.1)
]

BySecond-by_second : (rs : List EditRow) → BySecond (by_second rs)
unfolding by_second
BySecond-by_second [] = tt
BySecond-by_second (r ∷ rs) = BySecond-insert r (by_second rs) (BySecond-by_second rs)

module _ (p : EditRow → Bool) where
  After-filter : (n : ℕ) (rs : List EditRow) → After n rs → After n (filter p rs)
  After-filter n [] h = tt
  After-filter n (r ∷ rs) h = elim (Bool-cases (p r)) [
    | inl kept ↦ rw kept (h.0, After-filter n rs h.1)
    | inr gone ↦ rw gone (After-filter n rs h.1)
  ]

  BySecond-filter : (rs : List EditRow) → BySecond rs → BySecond (filter p rs)
  BySecond-filter [] h = tt
  BySecond-filter (r ∷ rs) h = elim (Bool-cases (p r)) [
    | inl kept ↦ rw kept (After-filter (r.made_at / second) rs h.0, BySecond-filter rs h.1)
    | inr gone ↦ rw gone (BySecond-filter rs h.1)
  ]

  UpTo-cons :
      (n : ℕ) (r : EditRow) (rs : List EditRow)
      → (p r ≡ true → r.made_at / second ≤ n)
      → UpTo n (filter p rs)
      → UpTo n (filter p (r ∷ rs))
  UpTo-cons n r rs h k = elim (Bool-cases (p r)) [
    | inl kept ↦ rw kept (h kept, k)
    | inr gone ↦ rw gone k
  ]

  UpTo-head :
      (n : ℕ) (r : EditRow) (rs : List EditRow)
      → UpTo n (filter p (r ∷ rs))
      → (p r ≡ true → r.made_at / second ≤ n) × UpTo n (filter p rs)
  UpTo-head n r rs h = elim (Bool-cases (p r)) [
    | inl kept ↦
        let both : UpTo n (r ∷ filter p rs) =
          subst (λ (b : Bool). UpTo n (if b then r ∷ filter p rs else filter p rs)) kept h in
        ((λ e. both.0), both.1)
    | inr gone ↦ (
      (λ e. cc),
      subst (λ (b : Bool). UpTo n (if b then r ∷ filter p rs else filter p rs)) gone h,
    )
  ]

  -- An insertion holds what it was given.
  UpTo-insert :
      (n : ℕ) (r : EditRow) (rs : List EditRow)
      → UpTo n (filter p (insert_by_second r rs))
      → UpTo n (filter p (r ∷ rs))
  unfolding insert_by_second
  UpTo-insert n r [] h = h
  UpTo-insert n r (q ∷ qs) h = elim (Bool-cases (leb (r.made_at / second) (q.made_at / second))) [
    | inl le ↦
        subst
          (λ (b : Bool). UpTo n (filter p (if b then r ∷ q ∷ qs else q ∷ insert_by_second r qs))) le
          h
    | inr gt ↦
        let h' : UpTo n (filter p (q ∷ insert_by_second r qs)) =
          subst
            (λ (b : Bool). UpTo n (filter p (if b then r ∷ q ∷ qs else q ∷ insert_by_second r qs)))
            gt h in
        let first = UpTo-head n q (insert_by_second r qs) h' in
        let next = UpTo-head n r qs (UpTo-insert n r qs first.1) in
        UpTo-cons n r (q ∷ qs) next.0 (UpTo-cons n q qs first.0 next.1)
  ]

  UpTo-by_second :
      (n : ℕ) (rs : List EditRow) → UpTo n (filter p (by_second rs)) → UpTo n (filter p rs)
  unfolding by_second
  UpTo-by_second n [] h = h
  UpTo-by_second n (r ∷ rs) h =
      let next = UpTo-head n r (by_second rs) (UpTo-insert n r (by_second rs) h) in
      UpTo-cons n r rs next.0 (UpTo-by_second n rs next.1)

After-last :
    (n : ℕ) (rs : List EditRow) (z : EditRow)
    → After n rs
    → last rs ≡ some z
    → n ≤ z.made_at / second
unfolding last
After-last n [] z h e = cc
After-last n (r ∷ []) z h e = subst (λ (q : EditRow). n ≤ q.made_at / second) (some_inj r z e) h.0
After-last n (r ∷ q ∷ qs) z h e = After-last n (q ∷ qs) z h.1 e

-- The last of a sorted list is in the latest second.
UpTo-last :
    (rs : List EditRow) (z : EditRow)
    → BySecond rs
    → last rs ≡ some z
    → UpTo (z.made_at / second) rs
unfolding last
UpTo-last [] z h e = tt
UpTo-last (r ∷ []) z h e = (
  subst (λ (q : EditRow). r.made_at / second ≤ q.made_at / second) (some_inj r z e) (omega arith),
  tt,
)
UpTo-last (r ∷ q ∷ qs) z h e =
    (After-last (r.made_at / second) (q ∷ qs) z h.0 e, UpTo-last (q ∷ qs) z h.1 e)

module _ (go : GoText) where
  apply_latest-row :
      (m : MessageRow) (chat : String) (count : ℕ) (latest : EditRow) (s : Store)
      → find (is_message m.id chat) s.messages ≡ some m
      → m.edited_at ≡ none
      → find (is_message m.id chat) (apply_latest go m chat count latest s).messages
        ≡ some (edited latest.new_content latest.made_at count m)
  unfolding apply_latest set_edited_content
  apply_latest-row m chat count latest s row never = ground (
    arith,
    never,
    find-update {0} (is_message m.id chat) (edited latest.new_content latest.made_at count)
        s.messages m (edited-Keeps m.id chat latest.new_content latest.made_at count) row,
  )

  -- The edits that waited for a message without an edit, when one of them is by its author: the
  -- content becomes the one that was picked, each of the author's counts, and none of them is in a
  -- later second.
  pub settle-latest :
      (m : MessageRow) (chat : String) (s : Store) (latest : EditRow)
      → find (is_message m.id chat) s.messages ≡ some m
      → m.edited_at ≡ none
      → last (genuine_edits go s m chat) ≡ some latest
      → (find (is_message m.id chat) (settle go m chat s).messages
          ≡ some (edited latest.new_content latest.made_at (length (genuine_edits go s m chat)) m))
        × UpTo
            (latest.made_at / second)
            (filter (is_genuine go s m chat) (filter (waits m.id chat) s.edits))
  unfolding settle
  settle-latest m chat s latest row never there =
      let genuine = is_genuine go s m chat in
      let waiting = filter (waits m.id chat) s.edits in
      let s' : Store = record s {
        edits = update (waits m.id chat) (settled go s m chat) s.edits;
      } in
      (
        ground (
          arith,
          there,
          apply_latest-row m chat (length (genuine_edits go s m chat)) latest s' row never,
        ),
        UpTo-by_second genuine (latest.made_at / second) waiting (
            UpTo-last (genuine_edits go s m chat) latest
              (BySecond-filter genuine (by_second waiting) (BySecond-by_second waiting)) there),
      )

  two_genuine :
      (m : MessageRow) (chat : String) (s : Store) (newer older : EditRow)
      → filter (waits m.id chat) s.edits ≡ newer ∷ older ∷ []
      → is_genuine go s m chat newer ≡ true
      → is_genuine go s m chat older ≡ true
      → newer.made_at / second ≡ older.made_at / second
      → genuine_edits go s m chat ≡ newer ∷ older ∷ []
  unfolding by_second insert_by_second
  two_genuine m chat s newer older waiting g h same =
      ap (λ (l : List EditRow). filter (is_genuine go s m chat) (by_second l)) waiting
      ∙ ground (arith, g, h, same)

  -- Of two edits by the author that waited for a message without an edit, made in one second, the
  -- one recorded last becomes the content, though it is the older one.
  pub settle-same_second :
      (m : MessageRow) (chat : String) (s : Store) (newer older : EditRow)
      → find (is_message m.id chat) s.messages ≡ some m
      → m.edited_at ≡ none
      → filter (waits m.id chat) s.edits ≡ newer ∷ older ∷ []
      → is_genuine go s m chat newer ≡ true
      → is_genuine go s m chat older ≡ true
      → older.made_at < newer.made_at
      → newer.made_at / second ≡ older.made_at / second
      → find (is_message m.id chat) (settle go m chat s).messages
        ≡ some (edited older.new_content older.made_at 2 m)
  unfolding last
  settle-same_second m chat s newer older row never waiting g h lt same =
      let two : genuine_edits go s m chat ≡ newer ∷ older ∷ [] =
        two_genuine m chat s newer older waiting g h same in
      let lands = settle-latest m chat s older row never (ap last two) in
      lands.0
      ∙ ap (λ (l : List EditRow). some (edited older.new_content older.made_at (length l) m)) two
