-- ===== src/Groups/Events.antt =====
-- The steps of `groupCache` in whatsapp-bridge/internal/whatsapp/groupcache.go in any order, and what
-- the callers who ask about a group are told.
use whatsapp_mcp_pro.Base.{
  ℕ, ◌<◌, ◌≡◌, List, [], ◌∷◌, ◌++◌, Bool, false, String, str_eq, if◌then◌else◌,
}
use whatsapp_mcp_pro.Groups.Cache.{
  Answer, GroupCache, Asked, is_flying, ask_info, land_info, ask_joined, land_joined, invalidate,
}

-- What happens to the cache, in the order in which the mutex is taken. An answer lands only for a
-- fetch that was started.
pub data Event (Info Joined : Type 0) : Type 0 where
  ask : String → ℕ → Event Info Joined
  land : String → Answer Info → Bool → ℕ → Event Info Joined
  ask_all : ℕ → Event Info Joined
  land_all : Answer Joined → Bool → ℕ → Event Info Joined
  change : String → Event Info Joined

module _ {Info Joined : Type 0} where
  unfoldable pub perform : Event Info Joined → GroupCache Info Joined → GroupCache Info Joined
  perform (ask jid now) c = (ask_info jid now c).0
  perform (land jid a gave_up now) c =
      if is_flying jid c.info_in_flight then land_info jid a gave_up now c else c
  perform (ask_all now) c = (ask_joined now c).0
  perform (land_all a gave_up now) c = if c.joined_in_flight then land_joined a gave_up now c else c
  perform (change jid) c = invalidate jid c

  -- What an event tells those who ask about one group.
  unfoldable pub told : String → Event Info Joined → GroupCache Info Joined → List (Asked Info)
  told jid (ask k now) c = if str_eq k jid then (ask_info k now c).1 ∷ [] else []
  told jid (land k a gave_up now) c = []
  told jid (ask_all now) c = []
  told jid (land_all a gave_up now) c = []
  told jid (change k) c = []

  -- What those who ask about one group are told at once, in order.
  unfoldable pub answers :
      String → List (Event Info Joined) → GroupCache Info Joined → List (Asked Info)
  answers jid [] c = []
  answers jid (e ∷ es) c = told jid e c ++ answers jid es (perform e c)

  -- Before an instant, and without a change of the group.
  abbrev pub Calm : String → ℕ → Event Info Joined → Type 0
  Calm jid until (ask k now) = now < until
  Calm jid until (land k a gave_up now) = now < until
  Calm jid until (ask_all now) = Unit
  Calm jid until (land_all a gave_up now) = Unit
  Calm jid until (change k) = str_eq k jid ≡ false
