-- ===== src/Groups/Served.antt =====
-- Which answer the callers of `groupInfo` in whatsapp-bridge/internal/whatsapp/groupcache.go get.
use whatsapp_mcp_pro.Base.{
  ℕ, ◌+◌, ◌≡◌, List, ◌∷◌, none, some, Bool, true, false, String, eq_iff, ◌==◌, arith, All, lookup,
  insert, lookup-insert,
}
use whatsapp_mcp_pro.Groups.Cache.{
  Answer, Entry, GroupCache, Asked, cached, fetches, is_flying, fresh, kept, join_info, ask_info,
  land_info, invalidate,
}
use whatsapp_mcp_pro.Groups.Events.{Event, ask, land, change, perform, told, answers, Calm}
use whatsapp_mcp_pro.Groups.Holds.{Holds, is_flying-filter, lookup-drop_expired, answers-Holds}

module _ {Info Joined : Type 0} where
  -- An answer that lands and is kept stands.
  land_info-stands :
      (jid : String) (a : Answer Info) (gave_up : Bool) (t : ℕ) (c : GroupCache Info Joined)
      → (c.ttl == 0) ≡ false
      → kept a gave_up ≡ true
      → Holds jid a t c.ttl (land_info jid a gave_up t c)
  unfolding land_info
  land_info-stands jid a gave_up t c on keep =
      let entry : Entry Info = record { answer = a; at = t } in
      let placed : lookup jid (insert jid entry c.info) ≡ some entry =
        ground (arith, lookup-insert jid jid entry c.info, eq_iff jid jid) in
      let alive : fresh c.ttl t t ≡ true = ground (arith, on) in
      record {
        lasts = ground (arith, keep);
        on = ground (arith, keep, on);
        stands = ground (
          arith,
          keep,
          lookup-drop_expired c.ttl t jid (insert jid entry c.info) entry placed alive,
        );
        rests = ground (arith, keep, is_flying-filter jid jid c.info_in_flight, eq_iff jid jid);
      }

  -- Once an answer about a group has landed, be it an error, and is kept, everyone who asks about
  -- the group within the TTL gets that answer and no fetch is started, as long as no change of the
  -- group is heard of.
  pub land-served :
      (jid : String) (a : Answer Info) (gave_up : Bool) (t : ℕ) (es : List (Event Info Joined))
      (c : GroupCache Info Joined)
      → (c.ttl == 0) ≡ false
      → kept a gave_up ≡ true
      → All (Calm jid (t + c.ttl)) es
      → All (λ r. r ≡ cached a) (answers jid es (land_info jid a gave_up t c))
  land-served jid a gave_up t es c on keep calm =
      answers-Holds jid a t c.ttl es (land_info jid a gave_up t c) calm
        (land_info-stands jid a gave_up t c on keep)

  -- The cache with a fetch of the group under way.
  abbrev started : String → GroupCache Info Joined → GroupCache Info Joined
  started jid c = record c { info_in_flight = jid ∷ c.info_in_flight }

  ask_info-starts :
      (jid : String) (now : ℕ) (c : GroupCache Info Joined)
      → (c.ttl == 0) ≡ false
      → lookup jid c.info ≡ none
      → is_flying jid c.info_in_flight ≡ false
      → ask_info jid now c ≡ (started jid c, fetches)
  unfolding ask_info join_info
  ask_info-starts jid now c on missing idle = ground (arith, on, missing, idle)

  started-is_flying :
      (jid : String) (c : GroupCache Info Joined)
      → is_flying jid (invalidate jid (started jid c)).info_in_flight ≡ true
  unfolding is_flying invalidate
  started-is_flying jid c = ground (arith, eq_iff jid jid)

  -- A change of a group that is heard of while a fetch is under way is lost: the answer that was
  -- asked for before the change is what everyone gets within a whole TTL after it has landed.
  pub change-lost :
      (jid : String) (start : ℕ) (a : Answer Info) (gave_up : Bool) (t : ℕ)
      (es : List (Event Info Joined)) (c : GroupCache Info Joined)
      → (c.ttl == 0) ≡ false
      → lookup jid c.info ≡ none
      → is_flying jid c.info_in_flight ≡ false
      → kept a gave_up ≡ true
      → All (Calm jid (t + c.ttl)) es
      → (later : List (Asked Info)) × ((answers jid
              (ask jid start ∷ change jid ∷ land jid a gave_up t ∷ es)
              c
            ≡ fetches ∷ later)
          × All (λ r. r ≡ cached a) later)
  unfolding answers told perform invalidate
  change-lost jid start a gave_up t es c on missing idle keep calm =
      let changed = invalidate jid (started jid c) in
      let later = answers jid es (land_info jid a gave_up t changed) in
      (
        later,
        (
          ground (
            arith,
            ask_info-starts jid start c on missing idle,
            started-is_flying jid c,
            eq_iff jid jid,
          ),
          land-served jid a gave_up t es changed on keep calm,
        ),
      )
