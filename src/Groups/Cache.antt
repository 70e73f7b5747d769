-- ===== src/Groups/Cache.antt =====
-- `groupCache` of whatsapp-bridge/internal/whatsapp/groupcache.go. The mutex is never held across a
-- fetch, so a call is two steps: what it does before the fetch, and what it does when the answer
-- lands. Instants are nanoseconds, and a step reads the clock once. `Info` and `Joined` are what
-- whatsmeow answers about one group and about all.
use whatsapp_mcp_pro.Base.{
  ℕ, ◌+◌, ◌*◌, List, [], ◌∷◌, Option, none, some, Bool, true, false, not, ◌||◌, ℤ, pos, negsuc,
  String, str_eq, ltb, ◌==◌, if◌then◌else◌, is_some, filter, Dict, lookup, insert, delete,
}

abbrev pub minute : ℕ
minute = 60_000_000_000

-- `groupCacheTTL`; none is a variable that is unset or does not parse.
unfoldable pub group_cache_ttl : Option ℤ → ℕ
group_cache_ttl none = 5 * minute
group_cache_ttl (some (pos d)) = d
group_cache_ttl (some (negsuc d)) = 5 * minute

-- An answer and its error.
pub record Answer (V : Type 0) : Type 0 where
  pub val : V
  pub err : Option String

-- `groupInfoEntry`
pub record Entry (V : Type 0) : Type 0 where
  pub answer : Answer V
  pub at : ℕ

-- `groupCache`; `joined` is none where joinedAt is zero.
pub record GroupCache (Info Joined : Type 0) : Type 0 where
  pub ttl : ℕ
  pub joined : Option (Entry Joined)
  pub joined_in_flight : Bool
  pub info : Dict (Entry Info)
  pub info_in_flight : List String

-- What a caller gets at once: an answer, a place with those who wait, or a fetch of its own.
pub data Asked (V : Type 0) : Type 0 where
  cached : Answer V → Asked V
  waits : Asked V
  fetches : Asked V

unfoldable pub is_flying : String → List String → Bool
is_flying jid [] = false
is_flying jid (f ∷ fs) = str_eq f jid || is_flying jid fs

-- `fresh`
abbrev pub fresh : ℕ → ℕ → ℕ → Bool
fresh ttl now at = ltb now (at + ttl)

-- Whether an answer is kept: a caller that gave up says nothing about WhatsApp.
abbrev pub kept : {V : Type 0} → Answer V → Bool → Bool
kept a gave_up = not (is_some a.err) || not gave_up

-- The entries that have not expired.
unfoldable pub drop_expired : {V : Type 0} → ℕ → ℕ → Dict (Entry V) → Dict (Entry V)
drop_expired ttl now [] = []
drop_expired ttl now ((k, e) ∷ es) =
    if fresh ttl now e.at then (k, e) ∷ drop_expired ttl now es else drop_expired ttl now es

module _ {Info Joined : Type 0} where
  -- `groupInfo` up to the fetch.
  unfoldable pub join_info : String → GroupCache Info Joined → GroupCache Info Joined × Asked Info
  join_info jid c =
      if is_flying jid c.info_in_flight
      then (c, waits)
      else (record c { info_in_flight = jid ∷ c.info_in_flight }, fetches)

  unfoldable pub ask_info :
      String → ℕ → GroupCache Info Joined → GroupCache Info Joined × Asked Info
  ask_info jid now c = if c.ttl == 0 then (c, fetches) else elim (lookup jid c.info) [
    | none ↦ join_info jid c
    | some e ↦ if fresh c.ttl now e.at then (c, cached e.answer) else join_info jid c
  ]

  -- `groupInfo` from the fetch on.
  unfoldable pub land_info :
      String → Answer Info → Bool → ℕ → GroupCache Info Joined → GroupCache Info Joined
  land_info jid a gave_up now c =
      let entry : Entry Info = record { answer = a; at = now } in
      let landed = record c {
        info_in_flight = filter (λ f. not (str_eq f jid)) c.info_in_flight;
      } in
      if kept a gave_up
      then record landed { info = drop_expired c.ttl now (insert jid entry c.info) }
      else landed

  -- `joinedGroups` up to the fetch.
  unfoldable pub join_joined : GroupCache Info Joined → GroupCache Info Joined × Asked Joined
  join_joined c =
      if c.joined_in_flight then (c, waits) else (record c { joined_in_flight = true }, fetches)

  unfoldable pub ask_joined : ℕ → GroupCache Info Joined → GroupCache Info Joined × Asked Joined
  ask_joined now c = if c.ttl == 0 then (c, fetches) else elim (c.joined) [
    | none ↦ join_joined c
    | some e ↦ if fresh c.ttl now e.at then (c, cached e.answer) else join_joined c
  ]

  -- `joinedGroups` from the fetch on.
  unfoldable pub land_joined :
      Answer Joined → Bool → ℕ → GroupCache Info Joined → GroupCache Info Joined
  land_joined a gave_up now c =
      let landed = record c { joined_in_flight = false } in
      if kept a gave_up
      then record landed { joined = some (record { answer = a; at = now }) }
      else landed

  -- `invalidate`, which both events of a group call.
  unfoldable pub invalidate : String → GroupCache Info Joined → GroupCache Info Joined
  invalidate jid c = record c { info = delete jid c.info; joined = none }
