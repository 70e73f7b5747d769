-- ===== src/Tests/Groups.antt =====
-- Instances for whatsapp-bridge/internal/whatsapp/groupcache.go.
use whatsapp_mcp_pro.Base.{
  ℕ, ◌+◌, ◌*◌, ◌≡◌, refl, List, [], ◌∷◌, none, some, false, arith, String, All, lookup,
}
use whatsapp_mcp_pro.Groups.Cache.{
  minute, Answer, GroupCache, Asked, cached, fetches, land_info, is_flying,
}
use whatsapp_mcp_pro.Groups.Events.{Event, ask, land, ask_all, change, answers, Calm}
use whatsapp_mcp_pro.Groups.Served.{land-served, change-lost}

abbrev family : String
family = "12@g.us"

abbrev choir : String
choir = "13@g.us"

abbrev cache : GroupCache String ℕ
cache = record {
  ttl = 5 * minute;
  joined = none;
  joined_in_flight = false;
  info = [];
  info_in_flight = [];
}

abbrev named : String → Answer String
named name = record { val = name; err = none }

abbrev timed_out : Answer String
timed_out = record { val = ""; err = some "timeout" }

-- Two callers ask, the choir changes, and its own answer lands in between.
abbrev quiet_minutes : List (Event String ℕ)
quiet_minutes =
    ask family (2 * minute)
    ∷ ask choir (2 * minute)
    ∷ change choir
    ∷ land choir timed_out false (3 * minute)
    ∷ ask_all (3 * minute)
    ∷ ask family (4 * minute)
    ∷ []

calm : All (Calm family (minute + cache.ttl)) quiet_minutes
calm = (omega arith, (omega arith, (refl, (omega arith, (tt, (omega arith, tt))))))

land-served_example :
    All
      (λ r. r ≡ cached timed_out)
      (answers family quiet_minutes (land_info family timed_out false minute cache))
land-served_example = land-served family timed_out false minute quiet_minutes cache refl refl calm

no_entry : lookup family cache.info ≡ none
unfolding lookup
no_entry = refl

no_flight : is_flying family cache.info_in_flight ≡ false
unfolding is_flying
no_flight = refl

change-lost_example :
    (later : List (Asked String)) × ((answers family
          (ask family 0 ∷ change family ∷ land family (named "Family") false minute ∷ quiet_minutes)
          cache
        ≡ fetches ∷ later)
      × All (λ r. r ≡ cached (named "Family")) later)
change-lost_example =
    change-lost family 0 (named "Family") false minute quiet_minutes cache refl no_entry no_flight
      refl calm
