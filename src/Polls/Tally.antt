-- ===== src/Polls/Tally.antt =====
-- What a poll shows after its votes, in whatever order they arrive: resolvePollVoteContent of
-- whatsapp-bridge/internal/whatsapp/polls.go on the table of database/polls.go.
use whatsapp_mcp_pro.Base.{
  ℕ, ◌≡◌, ◌∙◌, refl, ap, sym, subst, List, [], ◌∷◌, map, filter, Option, none, some, true, false,
  String, str_eq, eq_iff, ltb, if◌then◌else◌, arith, All, elem, find, Keeps, find-update_any,
  find-update, find-update-none, find-passes, find-append, find-append_none, Option-cases,
  Bool-cases, inl, inr,
}
use whatsapp_mcp_pro.Polls.Votes.{
  VoteRow, PollStore, store_poll_options, PollVote, is_vote, replaced_by, upsert_poll_current_vote,
  get_poll_options, match_selected_options, resolve_poll_vote_content, record_vote,
}
use whatsapp_mcp_pro.Polls.Names.{NoClash, match-hash, store-get_poll_options}

-- What a voter decides: which options, in whatever order the voter's device lists them, and when.
pub record Ballot : Type 0 where
  pub voter : String
  pub chosen : List String
  pub at : ℕ

-- The newer of two ballots, the first of them where they are of one instant.
abbrev pub newer_of : Ballot → Option Ballot → Option Ballot
newer_of b none = some b
newer_of b (some c) = if ltb b.at c.at then some c else some b

-- The newest ballot of a voter, the first to arrive of those of one instant.
unfoldable pub newest : String → List Ballot → Option Ballot
newest voter [] = none
newest voter (b ∷ bs) =
    let later = newest voter bs in if str_eq b.voter voter then newer_of b later else later

-- The options of a poll that a ballot chose, in the order of the poll.
abbrev pub choice : List String → Ballot → List String
choice os b = filter (λ o. elem o b.chosen) os

-- What the poll should show of a voter.
abbrev pub shown : List String → Option Ballot → Option (List String × ℕ)
shown os none = none
shown os (some b) = some (choice os b, b.at)

-- The vote that WhatsApp sends for a ballot.
unfoldable pub vote_of : (String → String) → String → String → List String → Ballot → PollVote
vote_of hash poll chat os b = record {
  poll = poll;
  chat = chat;
  sender = b.voter;
  selected = some (map hash b.chosen);
  timestamp_ms = b.at;
}

unfoldable pub cast_all :
    (String → String) → String → String → List String → List Ballot → PollStore → PollStore
cast_all hash poll chat os [] s = s
cast_all hash poll chat os (b ∷ bs) s =
    cast_all hash poll chat os bs (resolve_poll_vote_content hash (vote_of hash poll chat os b) s).0

-- What the table shows of a voter.
abbrev pub row_shown : Option VoteRow → Option (List String × ℕ)
row_shown none = none
row_shown (some r) = some (r.selected_options, r.vote_timestamp_ms)

abbrev pub current : String → String → String → PollStore → Option (List String × ℕ)
current poll chat voter s = row_shown (find (is_vote poll chat voter) s.votes)

-- A later answer in place of an earlier one.
abbrev later_of : Option (List String × ℕ) → Option (List String × ℕ) → Option (List String × ℕ)
later_of none b = b
later_of (some a) none = some a
later_of (some a) (some b) = if ltb a.1 b.1 then some b else some a

replaced_by-Keeps :
    (poll chat voter : String) (selected : List String) (at : ℕ)
    → Keeps (is_vote poll chat voter) (replaced_by selected at)
unfolding replaced_by
replaced_by-Keeps poll chat voter selected at r = ground arith

upsert-options :
    (poll chat voter : String) (selected : List String) (at : ℕ) (s : PollStore)
    → (upsert_poll_current_vote poll chat voter selected at s).options ≡ s.options
unfolding upsert_poll_current_vote
upsert-options poll chat voter selected at s = ground arith

upsert-same :
    (poll chat voter : String) (selected : List String) (at : ℕ) (s : PollStore)
    → current poll chat voter (upsert_poll_current_vote poll chat voter selected at s)
      ≡ later_of (current poll chat voter s) (some (selected, at))
unfolding upsert_poll_current_vote replaced_by find
upsert-same poll chat voter selected at s =
    let key = is_vote poll chat voter in
    elim (Option-cases (find key s.votes)) [
      | inr (r, there) ↦
          let kept =
            find-update {0} key (replaced_by selected at) s.votes r
              (replaced_by-Keeps poll chat voter selected at) there in
          ground (arith, there, kept)
      | inl missing ↦
          let row : VoteRow = record {
            poll_message_id = poll;
            chat_jid = chat;
            voter_jid = voter;
            selected_options = selected;
            vote_timestamp_ms = at;
          } in
          ground (
            arith,
            missing,
            find-append_none {0} key s.votes (row ∷ []),
            eq_iff poll poll,
            eq_iff chat chat,
            eq_iff voter voter,
          )
    ]

upsert-other :
    (poll chat voter other : String) (selected : List String) (at : ℕ) (s : PollStore)
    → str_eq voter other ≡ false
    → current poll chat other (upsert_poll_current_vote poll chat voter selected at s)
      ≡ current poll chat other s
unfolding upsert_poll_current_vote find
upsert-other poll chat voter other selected at s differ =
    let mine = is_vote poll chat voter in
    let theirs = is_vote poll chat other in
    let f = replaced_by selected at in
    let keep = replaced_by-Keeps poll chat other selected at in
    let row : VoteRow = record {
      poll_message_id = poll;
      chat_jid = chat;
      voter_jid = voter;
      selected_options = selected;
      vote_timestamp_ms = at;
    } in
    elim (Option-cases (find theirs s.votes)) [
      | inl missing ↦ ground (
        arith,
        missing,
        differ,
        find-update-none {0} theirs mine f s.votes keep missing,
        find-append_none {0} theirs s.votes (row ∷ []) missing,
      )
      | inr (r, there) ↦
          let not_mine : mine r ≡ false = ground (
            arith,
            find-passes {0} theirs s.votes r there,
            differ,
            eq_iff r.voter_jid voter,
            eq_iff r.voter_jid other,
          ) in
          ground (
            arith,
            there,
            not_mine,
            find-update_any {0} theirs mine f s.votes r keep there,
            find-append {0} theirs s.votes (row ∷ []) r there,
          )
    ]

later_of-none : (a : Option (List String × ℕ)) → a ≡ later_of a none
later_of-none none = refl
later_of-none (some a) = refl

later_of-shown :
    (os : List String) (cur : Option (List String × ℕ)) (b : Ballot) (rest : Option Ballot)
    → later_of (later_of cur (some (choice os b, b.at))) (shown os rest)
      ≡ later_of cur (shown os (newer_of b rest))
later_of-shown os none b none = refl
later_of-shown os (some a) b none = ground arith
later_of-shown os none b (some c) = ground arith
later_of-shown os (some a) b (some c) = ground arith

newest-cons :
    (voter : String) (b : Ballot) (bs : List Ballot)
    → str_eq b.voter voter ≡ true
    → newest voter (b ∷ bs) ≡ newer_of b (newest voter bs)
unfolding newest
newest-cons voter b bs same = ground (arith, same)

newest-cons_other :
    (voter : String) (b : Ballot) (bs : List Ballot)
    → str_eq b.voter voter ≡ false
    → newest voter (b ∷ bs) ≡ newest voter bs
unfolding newest
newest-cons_other voter b bs other = ground (arith, other)

get_poll_options-votes :
    (poll chat id group voter : String) (selected : List String) (at : ℕ) (s : PollStore)
    → get_poll_options id group (upsert_poll_current_vote poll chat voter selected at s)
      ≡ get_poll_options id group s
unfolding get_poll_options
get_poll_options-votes poll chat id group voter selected at s =
    rw (upsert-options poll chat voter selected at s) refl

current-votes :
    (poll chat voter : String) (os : List String) (s : PollStore)
    → current poll chat voter (store_poll_options poll chat os s) ≡ current poll chat voter s
unfolding store_poll_options
current-votes poll chat voter os s = refl

module _ (hash : String → String) (poll chat first : String) (more : List String) where
  -- A vote of a poll whose options are stored.
  resolve_lem :
      (b : Ballot) (s : PollStore)
      → get_poll_options poll chat s ≡ first ∷ more
      → NoClash hash (first ∷ more) b.chosen
      → (resolve_poll_vote_content hash (vote_of hash poll chat (first ∷ more) b) s).0
        ≡ upsert_poll_current_vote poll chat b.voter (choice (first ∷ more) b) b.at s
  unfolding resolve_poll_vote_content vote_of record_vote
  resolve_lem b s stored apart =
      let v = vote_of hash poll chat (first ∷ more) b in
      let hashes = map hash b.chosen in
      ap (λ (l : List String). (record_vote v l (match_selected_options hash l hashes) s).0) stored
      ∙ ap (λ (l : List String). upsert_poll_current_vote poll chat b.voter l b.at s)
          (match-hash hash b.chosen (first ∷ more) apart)

  -- One more vote, for the voter whom the poll is asked about and for others.
  upsert-shown :
      (voter : String) (b : Ballot) (bs : List Ballot) (s : PollStore)
      → later_of
          (current poll chat voter
            (upsert_poll_current_vote poll chat b.voter (choice (first ∷ more) b) b.at s))
          (shown (first ∷ more) (newest voter bs))
        ≡ later_of (current poll chat voter s) (shown (first ∷ more) (newest voter (b ∷ bs)))
  upsert-shown voter b bs s =
      let os = first ∷ more in
      let chosen = choice os b in
      let after = upsert_poll_current_vote poll chat b.voter chosen b.at s in
      elim (Bool-cases (str_eq b.voter voter)) [
        | inl same ↦
            let voter_same : b.voter ≡ voter = ground (arith, same, eq_iff b.voter voter) in
            let now : current poll chat voter after
                ≡ later_of (current poll chat voter s) (some (chosen, b.at)) =
              subst
                (λ (v : String).
                  current poll chat v after
                  ≡ later_of (current poll chat v s) (some (chosen, b.at)))
                voter_same (upsert-same poll chat b.voter chosen b.at s) in
            ap (λ (c : Option (List String × ℕ)). later_of c (shown os (newest voter bs))) now
            ∙ later_of-shown os (current poll chat voter s) b (newest voter bs)
            ∙ ap (λ (n : Option Ballot). later_of (current poll chat voter s) (shown os n))
                (sym (newest-cons voter b bs same))
        | inr other ↦
            ap (λ (c : Option (List String × ℕ)). later_of c (shown os (newest voter bs)))
              (upsert-other poll chat b.voter voter chosen b.at s other)
            ∙ ap (λ (n : Option Ballot). later_of (current poll chat voter s) (shown os n))
                (sym (newest-cons_other voter b bs other))
      ]

  cast_all-later_of :
      (bs : List Ballot) (voter : String) (s : PollStore)
      → get_poll_options poll chat s ≡ first ∷ more
      → All (λ b. NoClash hash (first ∷ more) b.chosen) bs
      → current poll chat voter (cast_all hash poll chat (first ∷ more) bs s)
        ≡ later_of (current poll chat voter s) (shown (first ∷ more) (newest voter bs))
  unfolding cast_all newest
  cast_all-later_of [] voter s stored apart = later_of-none (current poll chat voter s)
  cast_all-later_of (b ∷ bs) voter s stored apart =
      let s' = upsert_poll_current_vote poll chat b.voter (choice (first ∷ more) b) b.at s in
      ap (λ (t : PollStore). current poll chat voter (cast_all hash poll chat (first ∷ more) bs t))
        (resolve_lem b s stored apart.0)
      ∙ (cast_all-later_of bs voter s'
            (get_poll_options-votes poll chat poll chat b.voter (choice (first ∷ more) b) b.at s
              ∙ stored)
            apart.1
          ∙ upsert-shown voter b bs s)

  -- A poll whose options are stored, and then voted on in any order, each vote with the hashes of
  -- its options in any order, shows of every voter who had not voted before the options of the
  -- newest ballot, in the order of the poll, and its instant, and nothing of those who cast none,
  -- where the hash of an option of the poll is that of no other text that was chosen.
  pub cast_all-newest :
      (bs : List Ballot) (voter : String) (s : PollStore)
      → All (λ b. NoClash hash (first ∷ more) b.chosen) bs
      → current poll chat voter s ≡ none
      → current poll chat voter (
          cast_all hash poll chat (first ∷ more) bs (store_poll_options poll chat (first ∷ more) s))
        ≡ shown (first ∷ more) (newest voter bs)
  cast_all-newest bs voter s apart unvoted =
      let s' = store_poll_options poll chat (first ∷ more) s in
      cast_all-later_of bs voter s' (store-get_poll_options poll chat (first ∷ more) s) apart
      ∙ ap (λ (c : Option (List String × ℕ)). later_of c (shown (first ∷ more) (newest voter bs)))
          (current-votes poll chat voter (first ∷ more) s ∙ unvoted)
