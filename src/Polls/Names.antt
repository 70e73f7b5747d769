-- ===== src/Polls/Names.antt =====
-- From a hash back to the name of an option: matchSelectedOptions of whatsapp-bridge/internal/whatsapp/
-- polls.go, and the stored options of database/polls.go.
use whatsapp_mcp_pro.Base.{
  ℕ, ◌+◌, ◌≡◌, ◌∙◌, refl, ap, List, [], ◌∷◌, ◌++◌, map, filter, Bool, true, not, String, str_eq,
  eq_iff, arith, elem, Bool-cases, inl, inr,
}
use whatsapp_mcp_pro.Polls.Votes.{
  OptionRow, PollStore, is_option, option_rows, store_poll_options, insert_by_index, by_index,
  name_of, get_poll_options, match_selected_options,
}

-- The hash of an option of a poll is that of no other text that was chosen.
abbrev pub NoClash : (String → String) → List String → List String → Type 0
NoClash hash os chosen =
    (o c : String) → elem o os ≡ true → elem c chosen ≡ true → hash c ≡ hash o → c ≡ o

-- The hash of an option is among those of a vote exactly if the option was chosen.
elem-hash :
    (hash : String → String) (o : String) (chosen : List String)
    → ((c : String) → elem c chosen ≡ true → hash c ≡ hash o → c ≡ o)
    → elem (hash o) (map hash chosen) ≡ elem o chosen
unfolding elem
elem-hash hash o [] apart = refl
elem-hash hash o (c ∷ chosen) apart =
    let rest = elem-hash hash o chosen (λ b e. apart b (ground (arith, e))) in
    elim (Bool-cases (str_eq (hash c) (hash o))) [
      | inr differ ↦ ground (arith, rest, differ, ap hash, eq_iff c o, eq_iff (hash c) (hash o))
      | inl same ↦
          let c_is_o =
            apart c (ground (arith, eq_iff c c)) (ground (arith, same, eq_iff (hash c) (hash o))) in
          ground (arith, same, c_is_o, eq_iff c o)
    ]

option_names :
    (hash : String → String) (chosen os all : List String)
    → ((o : String) → elem o os ≡ true → elem o all ≡ true)
    → NoClash hash all chosen
    → match_selected_options hash os (map hash chosen) ≡ filter (λ o. elem o chosen) os
unfolding match_selected_options elem
option_names hash chosen [] all known apart = refl
option_names hash chosen (o ∷ os) all known apart = ground (
  arith,
  elem-hash hash o chosen (λ c there. apart o c (known o (ground (arith, eq_iff o o))) there),
  option_names hash chosen os all (λ p e. known p (ground (arith, e))) apart,
)

-- Whatever the order of a vote's hashes, and whether one comes twice or stands for no option: they
-- are read back as the options that were chosen, in the order of the poll, where the hash of an
-- option is that of no other text that was chosen.
pub match-hash :
    (hash : String → String) (chosen os : List String)
    → NoClash hash os chosen
    → match_selected_options hash os (map hash chosen) ≡ filter (λ o. elem o chosen) os
match-hash hash chosen os apart = option_names hash chosen os os (λ o e. e) apart

map-name_of :
    (id chat : String) (i : ℕ) (os : List String) → map name_of (option_rows id chat i os) ≡ os
unfolding option_rows
map-name_of id chat i [] = refl
map-name_of id chat i (o ∷ os) = ap (λ (l : List String). o ∷ l) (map-name_of id chat (i + 1) os)

filter-option_rows :
    (id chat : String) (i : ℕ) (os : List String)
    → filter (is_option id chat) (option_rows id chat i os) ≡ option_rows id chat i os
unfolding option_rows
filter-option_rows id chat i [] = refl
filter-option_rows id chat i (o ∷ os) =
    ground (arith, eq_iff id id, eq_iff chat chat, filter-option_rows id chat (i + 1) os)

-- Rows in order of their numbers stay as they are.
by_index-option_rows :
    (id chat : String) (i : ℕ) (os : List String)
    → by_index (option_rows id chat i os) ≡ option_rows id chat i os
unfolding option_rows by_index insert_by_index
by_index-option_rows id chat i [] = refl
by_index-option_rows id chat i (o ∷ []) = refl
by_index-option_rows id chat i (o ∷ p ∷ os) =
    ground (arith, by_index-option_rows id chat (i + 1) (p ∷ os))

filter-deleted :
    (p : OptionRow → Bool) (rs qs : List OptionRow)
    → filter p (filter (λ r. not (p r)) rs ++ qs) ≡ filter p qs
filter-deleted p [] qs = refl
filter-deleted p (r ∷ rs) qs = ground (arith, filter-deleted p rs qs)

-- The options of a poll are read back as they were stored.
pub store-get_poll_options :
    (id chat : String) (os : List String) (s : PollStore)
    → get_poll_options id chat (store_poll_options id chat os s) ≡ os
unfolding get_poll_options store_poll_options
store-get_poll_options id chat os s =
    ap (λ (l : List OptionRow). map name_of (by_index l))
      (filter-deleted (is_option id chat) s.options (option_rows id chat 0 os)
        ∙ filter-option_rows id chat 0 os)
    ∙ ap (map name_of) (by_index-option_rows id chat 0 os)
    ∙ map-name_of id chat 0 os
