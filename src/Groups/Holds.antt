-- ===== src/Groups/Holds.antt =====
-- An answer that stands in `groupCache` of whatsapp-bridge/internal/whatsapp/groupcache.go.
use whatsapp_mcp_pro.Base.{
  ℕ, ◌+◌, ◌<◌, ◌≡◌, ◌∙◌, refl, ap, sym, subst, List, [], ◌∷◌, some, Bool, true, false, not, ◌&&◌,
  String, str_eq, eq_iff, ◌==◌, arith, filter, All, All-append, Dict, lookup, insert, lookup-insert,
  lookup-delete, Option-cases, Bool-cases, inl, inr,
}
use whatsapp_mcp_pro.Groups.Cache.{
  Answer, Entry, GroupCache, Asked, cached, is_flying, fresh, drop_expired, join_info, ask_info,
  land_info, join_joined, ask_joined, land_joined, invalidate,
}
use whatsapp_mcp_pro.Groups.Events.{
  Event, ask, land, ask_all, land_all, change, perform, told, answers, Calm,
}

module _ {Info Joined : Type 0} where
  -- The answer of one group is in place.
  pub record Holds (jid : String) (a : Answer Info) (t w : ℕ) (c : GroupCache Info Joined)
      : Type 0 where
    pub lasts : c.ttl ≡ w
    pub on : (c.ttl == 0) ≡ false
    pub stands : lookup jid c.info ≡ some (record { answer = a; at = t })
    pub rests : is_flying jid c.info_in_flight ≡ false

pub is_flying-filter :
    (jid k : String) (fs : List String)
    → is_flying jid (filter (λ f. not (str_eq f k)) fs) ≡ (is_flying jid fs && not (str_eq k jid))
unfolding is_flying
is_flying-filter jid k [] = refl
is_flying-filter jid k (f ∷ fs) =
    ground (arith, is_flying-filter jid k fs, eq_iff f k, eq_iff f jid, eq_iff k jid)

pub lookup-drop_expired :
    {V : Type 0} (ttl now : ℕ) (jid : String) (d : Dict (Entry V)) (e : Entry V)
    → lookup jid d ≡ some e
    → fresh ttl now e.at ≡ true
    → lookup jid (drop_expired ttl now d) ≡ some e
unfolding lookup drop_expired
lookup-drop_expired ttl now jid [] e there lives = cc
lookup-drop_expired ttl now jid ((k, old) ∷ d) e there lives =
    ground (arith, there, lives, lookup-drop_expired ttl now jid d e)

module _ {Info Joined : Type 0} where
  ask_info-info :
      (k : String) (now : ℕ) (c : GroupCache Info Joined)
      → ((ask_info k now c).0.info ≡ c.info) × ((ask_info k now c).0.ttl ≡ c.ttl)
  unfolding ask_info join_info
  ask_info-info k now c = elim (Option-cases (lookup k c.info)) [
    | inl missing ↦ (ground (arith, missing), ground (arith, missing))
    | inr (e, there) ↦ (ground (arith, there), ground (arith, there))
  ]

  ask_info-rests :
      (jid k : String) (now : ℕ) (c : GroupCache Info Joined)
      → str_eq k jid ≡ false
      → is_flying jid c.info_in_flight ≡ false
      → is_flying jid (ask_info k now c).0.info_in_flight ≡ false
  unfolding ask_info join_info is_flying
  ask_info-rests jid k now c other rests = elim (Option-cases (lookup k c.info)) [
    | inl missing ↦ ground (arith, missing, other, rests)
    | inr (e, there) ↦ ground (arith, there, other, rests)
  ]

module _ {Info Joined : Type 0} where
  -- What happens to the list of all groups leaves the single ones as they are.
  abbrev SameInfo : GroupCache Info Joined → GroupCache Info Joined → Type 0
  SameInfo c d = (d.ttl ≡ c.ttl) × ((d.info ≡ c.info) × (d.info_in_flight ≡ c.info_in_flight))

  ask_joined-SameInfo : (now : ℕ) (c : GroupCache Info Joined) → SameInfo c (ask_joined now c).0
  unfolding ask_joined join_joined
  ask_joined-SameInfo now c = elim (Option-cases c.joined) [
    | inl missing ↦ (ground (arith, missing), (ground (arith, missing), ground (arith, missing)))
    | inr (e, there) ↦ (ground (arith, there), (ground (arith, there), ground (arith, there)))
  ]

  land_joined-SameInfo :
      (b : Answer Joined) (gave_up : Bool) (now : ℕ) (c : GroupCache Info Joined)
      → SameInfo c (perform (land_all b gave_up now) c)
  unfolding perform land_joined
  land_joined-SameInfo b gave_up now c = (ground arith, (ground arith, ground arith))

module _ {Info Joined : Type 0} (jid : String) (a : Answer Info) (t w : ℕ) where
  SameInfo-Holds :
      (c d : GroupCache Info Joined) → SameInfo c d → Holds jid a t w c → Holds jid a t w d
  SameInfo-Holds c d same h = record {
    lasts = same.0 ∙ h.lasts;
    on = ap (λ (n : ℕ). n == 0) same.0 ∙ h.on;
    stands = ap (lookup jid) same.1.0 ∙ h.stands;
    rests = ap (is_flying jid) same.1.1 ∙ h.rests;
  }

  -- While the answer stands, it is what a caller gets.
  ask_info-Holds :
      (k : String) (now : ℕ) (c : GroupCache Info Joined)
      → now < t + w
      → Holds jid a t w c
      → str_eq k jid ≡ true
      → ask_info k now c ≡ (c, cached a)
  unfolding ask_info
  ask_info-Holds k now c early h same =
      ground (arith, h.lasts, h.on, h.stands, early, same, eq_iff k jid)

  ask-Holds :
      (k : String) (now : ℕ) (c : GroupCache Info Joined)
      → now < t + w
      → Holds jid a t w c
      → Holds jid a t w (perform (ask k now) c) × All (λ r. r ≡ cached a) (told jid (ask k now) c)
  unfolding perform told
  ask-Holds k now c early h = elim (Bool-cases (str_eq k jid)) [
    | inl same ↦
        let gets = ask_info-Holds k now c early h same in
        (
          subst (Holds jid a t w) (sym (ap (λ (r : GroupCache Info Joined × Asked Info). r.0) gets))
              h,
          rw same (ap (λ (r : GroupCache Info Joined × Asked Info). r.1) gets, tt),
        )
    | inr other ↦
        let still = ask_info-info k now c in
        (
          record {
            lasts = still.1 ∙ h.lasts;
            on = ap (λ (n : ℕ). n == 0) still.1 ∙ h.on;
            stands = ap (lookup jid) still.0 ∙ h.stands;
            rests = ask_info-rests jid k now c other h.rests;
          },
          rw other tt,
        )
  ]

  land_info-Holds :
      (k : String) (b : Answer Info) (gave_up : Bool) (now : ℕ) (c : GroupCache Info Joined)
      → now < t + w
      → str_eq k jid ≡ false
      → Holds jid a t w c
      → Holds jid a t w (land_info k b gave_up now c)
  unfolding land_info
  land_info-Holds k b gave_up now c early other h =
      let entry : Entry Info = record { answer = b; at = now } in
      let mine : Entry Info = record { answer = a; at = t } in
      let placed : lookup jid (insert k entry c.info) ≡ some mine =
        ground (arith, lookup-insert k jid entry c.info, other, h.stands) in
      let alive : fresh c.ttl now t ≡ true = ground (arith, h.lasts, early) in
      record {
        lasts = ground (arith, h.lasts);
        on = ground (arith, h.on);
        stands = ground (
          arith,
          h.stands,
          lookup-drop_expired c.ttl now jid (insert k entry c.info) mine placed alive,
        );
        rests = ground (arith, h.rests, is_flying-filter jid k c.info_in_flight);
      }

  land-Holds :
      (k : String) (b : Answer Info) (gave_up : Bool) (now : ℕ) (c : GroupCache Info Joined)
      → now < t + w
      → Holds jid a t w c
      → Holds jid a t w (perform (land k b gave_up now) c)
  unfolding perform
  land-Holds k b gave_up now c early h = elim (Bool-cases (is_flying k c.info_in_flight)) [
    | inr idle ↦ rw idle h
    | inl flying ↦
        let other : str_eq k jid ≡ false = ground (arith, flying, h.rests, eq_iff k jid) in
        rw flying (land_info-Holds k b gave_up now c early other h)
  ]

  perform-Holds :
      (e : Event Info Joined) (c : GroupCache Info Joined)
      → Calm jid (t + w) e
      → Holds jid a t w c
      → Holds jid a t w (perform e c)
  unfolding perform invalidate
  perform-Holds (ask k now) c calm h = (ask-Holds k now c calm h).0
  perform-Holds (land k b gave_up now) c calm h = land-Holds k b gave_up now c calm h
  perform-Holds (ask_all now) c calm h =
      SameInfo-Holds c (ask_joined now c).0 (ask_joined-SameInfo now c) h
  perform-Holds (land_all b gave_up now) c calm h =
      SameInfo-Holds c (perform (land_all b gave_up now) c) (land_joined-SameInfo b gave_up now c) h
  perform-Holds (change k) c calm h = record {
    lasts = h.lasts;
    on = h.on;
    stands = ground (arith, lookup-delete k jid c.info, calm, h.stands);
    rests = h.rests;
  }

  told-Holds :
      (e : Event Info Joined) (c : GroupCache Info Joined)
      → Calm jid (t + w) e
      → Holds jid a t w c
      → All (λ r. r ≡ cached a) (told jid e c)
  unfolding told
  told-Holds (ask k now) c calm h = (ask-Holds k now c calm h).1
  told-Holds (land k b gave_up now) c calm h = tt
  told-Holds (ask_all now) c calm h = tt
  told-Holds (land_all b gave_up now) c calm h = tt
  told-Holds (change k) c calm h = tt

  pub answers-Holds :
      (es : List (Event Info Joined)) (c : GroupCache Info Joined)
      → All (Calm jid (t + w)) es
      → Holds jid a t w c
      → All (λ r. r ≡ cached a) (answers jid es c)
  unfolding answers
  answers-Holds [] c calm h = tt
  answers-Holds (e ∷ es) c calm h =
      All-append (λ (r : Asked Info). r ≡ cached a) (told jid e c) (answers jid es (perform e c))
        (told-Holds e c calm.0 h)
        (answers-Holds es (perform e c) calm.1 (perform-Holds e c calm.0 h))
