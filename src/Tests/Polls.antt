-- ===== src/Tests/Polls.antt =====
-- Instances for whatsapp-bridge/internal/whatsapp/polls.go and database/polls.go.
use whatsapp_mcp_pro.Base.{ℕ, ◌≡◌, refl, List, [], ◌∷◌, none, String, find, elem}
use whatsapp_mcp_pro.Polls.Votes.{
  PollStore, match_selected_options, resolve_poll_vote_content, store_poll_options,
  get_poll_options, record_vote, vote_text, join, option_rows, by_index, insert_by_index,
  option_rows,
}
use whatsapp_mcp_pro.Polls.Names.{NoClash}
use whatsapp_mcp_pro.Polls.Tally.{
  Ballot, newest, shown, vote_of, cast_all, current, cast_all-newest,
}

abbrev days : List String
days = "Mon" ∷ "Tue" ∷ "Wed" ∷ []

-- A hash without clashes.
abbrev same : String → String
same s = s

abbrev empty : PollStore
empty = record { options = []; votes = [] }

abbrev ballot : String → List String → ℕ → Ballot
ballot voter chosen at = record { voter = voter; chosen = chosen; at = at }

-- Not in the order of the poll, and with a text that it does not have.
abbrev late : Ballot
late = ballot "ann" ("Wed" ∷ "Sun" ∷ "Tue" ∷ []) 9

-- Ann's newest ballot comes first, and Bob takes his vote back.
abbrev ballots : List Ballot
ballots = late ∷ ballot "bob" ("Wed" ∷ []) 3 ∷ ballot "ann" ("Mon" ∷ []) 5 ∷ ballot "bob" [] 4 ∷ []

no_clash : (chosen : List String) → NoClash same days chosen
no_clash chosen o c here there e = e

unvoted : current "P1" "12@g.us" "ann" empty ≡ none
unfolding find
unvoted = refl

-- The text of Ann's vote in the history.
ann_text :
    (resolve_poll_vote_content same
      (vote_of same "P1" "12@g.us" days late)
      (store_poll_options "P1" "12@g.us" days empty)).1
    ≡ "[Poll Vote: Tue, Wed]"
unfolding resolve_poll_vote_content vote_of store_poll_options get_poll_options record_vote
    vote_text join option_rows by_index insert_by_index match_selected_options elem
ann_text = refl

cast_all-newest_example :
    current "P1" "12@g.us" "ann"
      (cast_all same "P1" "12@g.us" days ballots (store_poll_options "P1" "12@g.us" days empty))
    ≡ shown days (newest "ann" ballots)
cast_all-newest_example =
    cast_all-newest same "P1" "12@g.us" "Mon" ("Tue" ∷ "Wed" ∷ []) ballots "ann" empty
      (no_clash _, (no_clash _, (no_clash _, (no_clash _, tt)))) unvoted
