-- ===== src/Polls/Votes.antt =====
-- The tables of whatsapp-bridge/internal/database/polls.go and the handling of a vote in
-- internal/whatsapp/polls.go. SHA-256 is given as `hash`, and a vote as what its decryption gives. The
-- JSON text of a selection stands as the list that it encodes, and statements that SQLite refuses
-- are left out. Timestamps are not negative.
use Prim.Native.String.{◌++◌ as ◌++ₛ◌}
use whatsapp_mcp_pro.Base.{
  ℕ, ◌+◌, List, [], ◌∷◌, ◌++◌, map, filter, Option, none, some, Bool, not, ◌&&◌, String, str_eq,
  ltb, leb, if◌then◌else◌, is_some, find, update, elem,
}

pub record OptionRow : Type 0 where
  pub message_id : String
  pub chat_jid : String
  pub option_index : ℕ
  pub option_name : String

pub record VoteRow : Type 0 where
  pub poll_message_id : String
  pub chat_jid : String
  pub voter_jid : String
  pub selected_options : List String
  pub vote_timestamp_ms : ℕ

pub record PollStore : Type 0 where
  pub options : List OptionRow
  pub votes : List VoteRow

abbrev pub is_option : String → String → OptionRow → Bool
is_option id chat r = str_eq r.message_id id && str_eq r.chat_jid chat

abbrev pub is_vote : String → String → String → VoteRow → Bool
is_vote poll chat voter r =
    str_eq r.poll_message_id poll && (str_eq r.chat_jid chat && str_eq r.voter_jid voter)

-- The rows of a list of options, numbered from an index.
unfoldable pub option_rows : String → String → ℕ → List String → List OptionRow
option_rows id chat i [] = []
option_rows id chat i (o ∷ os) =
    record { message_id = id; chat_jid = chat; option_index = i; option_name = o }
    ∷ option_rows id chat (i + 1) os

-- `StorePollOptions`
unfoldable pub store_poll_options : String → String → List String → PollStore → PollStore
store_poll_options id chat os s = record s {
  options = filter (λ r. not (is_option id chat r)) s.options ++ option_rows id chat 0 os;
}

-- `ORDER BY option_index ASC`
unfoldable pub insert_by_index : OptionRow → List OptionRow → List OptionRow
insert_by_index r [] = r ∷ []
insert_by_index r (q ∷ qs) =
    if leb r.option_index q.option_index then r ∷ q ∷ qs else q ∷ insert_by_index r qs

unfoldable pub by_index : List OptionRow → List OptionRow
by_index [] = []
by_index (r ∷ rs) = insert_by_index r (by_index rs)

abbrev pub name_of : OptionRow → String
name_of r = r.option_name

-- `GetPollOptions`
unfoldable pub get_poll_options : String → String → PollStore → List String
get_poll_options id chat s = map name_of (by_index (filter (is_option id chat) s.options))

-- The `DO UPDATE` of `UpsertPollCurrentVote`.
unfoldable pub replaced_by : List String → ℕ → VoteRow → VoteRow
replaced_by selected at r =
    if ltb r.vote_timestamp_ms at
    then record r { selected_options = selected; vote_timestamp_ms = at }
    else r

-- `UpsertPollCurrentVote`
unfoldable pub upsert_poll_current_vote :
    String → String → String → List String → ℕ → PollStore → PollStore
upsert_poll_current_vote poll chat voter selected at s =
    let row : VoteRow = record {
      poll_message_id = poll;
      chat_jid = chat;
      voter_jid = voter;
      selected_options = selected;
      vote_timestamp_ms = at;
    } in
    if is_some (find (is_vote poll chat voter) s.votes)
    then record s { votes = update (is_vote poll chat voter) (replaced_by selected at) s.votes }
    else record s { votes = s.votes ++ row ∷ [] }

-- `matchSelectedOptions`
unfoldable pub match_selected_options : (String → String) → List String → List String → List String
match_selected_options hash [] hashes = []
match_selected_options hash (o ∷ os) hashes =
    if elem (hash o) hashes
    then o ∷ match_selected_options hash os hashes
    else match_selected_options hash os hashes

-- What `resolvePollVoteContent` reads of the message; none is a vote that is not decrypted.
pub record PollVote : Type 0 where
  pub poll : String
  pub chat : String
  pub sender : String
  pub selected : Option (List String)
  pub timestamp_ms : ℕ

unfoldable pub join : List String → String
join [] = ""
join (s ∷ []) = s
join (s ∷ t ∷ ts) = s ++ₛ (", " ++ₛ join (t ∷ ts))

-- The end of `resolvePollVoteContent`: the text of a selection.
unfoldable pub vote_text : List String → String
vote_text [] = "[Poll Vote: retracted]"
vote_text (c ∷ cs) = "[Poll Vote: " ++ₛ (join (c ∷ cs) ++ₛ "]")

-- `resolvePollVoteContent` once the options are looked up.
unfoldable pub record_vote : PollVote → List String → List String → PollStore → PollStore × String
record_vote v [] selected s =
    (s, "[Poll Vote: decrypted, but this bridge never saw the original poll's options]")
record_vote v (o ∷ os) selected s =
    (upsert_poll_current_vote v.poll v.chat v.sender selected v.timestamp_ms s, vote_text selected)

-- `resolvePollVoteContent`
unfoldable pub resolve_poll_vote_content :
    (String → String) → PollVote → PollStore → PollStore × String
resolve_poll_vote_content hash v s = elim (v.selected) [
  | none ↦ (s, "[Poll Vote: could not decrypt]")
  | some hashes ↦
      let options = get_poll_options v.poll v.chat s in
      record_vote v options (match_selected_options hash options hashes) s
]
