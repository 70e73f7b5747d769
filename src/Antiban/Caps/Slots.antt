-- ===== src/Antiban/Caps/Slots.antt =====
-- The windows that `SendCaps` keeps, by name, and what one operation does to each of them.
use whatsapp_mcp_pro.Base.{
  ℕ, ◌+◌, ◌≡◌, refl, ◌⊎◌, inl, inr, List, [], ◌∷◌, ◌++◌, Option, none, Bool, true, false, not, ◌&&◌,
  pos, String, str_eq, eq_iff, arith, ltb_ℤ, ℤ, ltb, length, is_some, Option-cases, if◌then◌else◌,
  Bool-cases, Dict, insert, lookup-insert, lookup-delete,
}
use whatsapp_mcp_pro.Antiban.Config.{
  Config, SendClass, class_message, class_feedback, class_exempt, class, minute, hour,
}
use whatsapp_mcp_pro.Antiban.Window.{prune_before}
use whatsapp_mcp_pro.Antiban.Window.Track.{Tracks, Tracks-prune_before, Tracks-append}
use whatsapp_mcp_pro.Antiban.Caps.{
  Cap, SendRequest, SendCaps, CapError, cap_sweep_threshold, new_recipient_window, window_at,
  set_or_delete, consider, check_recipient, check_new_recipient, check_feedback_recipient,
  check_message, check_feedback, check_class, check, record_class, sweep_keys, sweep,
  sweep_if_large, reserve,
}

pub data Slot : Type 0 where
  global new_recipients feedback_global : Slot
  recipient feedback_recipient : String → Slot

abbrev pub span : Slot → ℕ
span global = hour
span new_recipients = new_recipient_window
span feedback_global = hour
span (recipient r) = hour
span (feedback_recipient r) = minute

unfoldable pub window_of : SendCaps → Slot → List ℕ
window_of c global = c.global
window_of c new_recipients = c.new_recipients
window_of c feedback_global = c.feedback_global
window_of c (recipient r) = window_at c.recipient r
window_of c (feedback_recipient r) = window_at c.feedback_recipient r

-- Whether an admitted send of a class is to be counted in a slot.
unfoldable pub counts : Config → SendClass → SendRequest → Slot → Bool
counts cfg class_message req global = true
counts cfg class_message req new_recipients =
    req.new_recipient && ltb_ℤ (pos 0) cfg.new_recipients_per_day
counts cfg class_message req (recipient r) = not (str_eq req.recipient "") && str_eq req.recipient r
counts cfg class_feedback req feedback_global = true
counts cfg class_feedback req (feedback_recipient r) =
    not (str_eq req.recipient "") && str_eq req.recipient r
counts cfg _ req _ = false

window_at-set_or_delete :
    (m : Dict (List ℕ)) (k j : String) (ts : List ℕ)
    → window_at (set_or_delete m k ts) j ≡ (if str_eq k j then ts else window_at m j)
unfolding window_at set_or_delete
window_at-set_or_delete m k j [] = ground (arith, lookup-delete k j m)
window_at-set_or_delete m k j (t ∷ ts) = ground (arith, lookup-insert k j (t ∷ ts) m)

window_at-insert :
    (m : Dict (List ℕ)) (k j : String) (ts : List ℕ)
    → window_at (insert k ts m) j ≡ (if str_eq k j then ts else window_at m j)
unfolding window_at
window_at-insert m k j ts = ground (arith, lookup-insert k j ts m)

-- A window is left alone or pruned.
abbrev Kept : ℕ → ℕ → List ℕ → List ℕ → Type 0
Kept window now ts ts' = (ts' ≡ ts) ⊎ (ts' ≡ prune_before window now ts)

window_at-prune :
    (window now : ℕ) (m : Dict (List ℕ)) (k j : String)
    → Kept window now
        (window_at m j)
        (window_at (set_or_delete m k (prune_before window now (window_at m k))) j)
window_at-prune window now m k j =
    ground
      (arith, eq_iff k j, window_at-set_or_delete m k j (prune_before window now (window_at m k)))

check_recipient-window :
    (cfg : Config) (c : SendCaps) (r : String) (now : ℕ) (w : Option CapError) (s : Slot)
    → Kept (span s) now (window_of c s) (window_of (check_recipient cfg c r now w).0 s)
unfolding check_recipient window_of consider
check_recipient-window cfg c r now w (recipient j) =
    ground (arith, window_at-prune hour now c.recipient r j)
check_recipient-window cfg c r now w _ = ground arith

check_feedback_recipient-window :
    (cfg : Config) (c : SendCaps) (r : String) (now : ℕ) (w : Option CapError) (s : Slot)
    → Kept (span s) now (window_of c s) (window_of (check_feedback_recipient cfg c r now w).0 s)
unfolding check_feedback_recipient window_of consider
check_feedback_recipient-window cfg c r now w (feedback_recipient j) =
    ground (arith, window_at-prune minute now c.feedback_recipient r j)
check_feedback_recipient-window cfg c r now w _ = ground arith

check_new_recipient-window :
    (cfg : Config) (c : SendCaps) (fresh : Bool) (now : ℕ) (w : Option CapError) (s : Slot)
    → Kept (span s) now (window_of c s) (window_of (check_new_recipient cfg c fresh now w).0 s)
unfolding check_new_recipient window_of consider
check_new_recipient-window cfg c true now w new_recipients = inr refl
check_new_recipient-window cfg c _ now w _ = inl refl

Tracks-Kept :
    (window now : ℕ) (ts ts' h : List ℕ)
    → Kept window now ts ts'
    → Tracks window now ts h
    → Tracks window now ts' h
Tracks-Kept window now ts ts' h (inl e) k = rw e k
Tracks-Kept window now ts ts' h (inr e) k = rw e (Tracks-prune_before window now ts h k)

set_global-window :
    (c : SendCaps) (cap : Cap) (limit : ℤ) (now : ℕ) (s : Slot)
    → Kept
        (span s)
        now
        (window_of c s)
        (window_of (record c { global = (consider cap c.global limit hour now none).0 }) s)
unfolding window_of consider
set_global-window c cap limit now global = inr refl
set_global-window c cap limit now _ = inl refl

set_feedback_global-window :
    (c : SendCaps) (cap : Cap) (limit : ℤ) (now : ℕ) (s : Slot)
    → Kept (span s) now (window_of c s) (
        window_of
          (record c { feedback_global = (consider cap c.feedback_global limit hour now none).0 })
          s)
unfolding window_of consider
set_feedback_global-window c cap limit now feedback_global = inr refl
set_feedback_global-window c cap limit now _ = inl refl

module _ (cfg : Config) (req : SendRequest) (now : ℕ) (s : Slot) (h : List ℕ) where
  abbrev Good : SendCaps → Type 0
  Good c = Tracks (span s) now (window_of c s) h

  check_message-Tracks : (c : SendCaps) → Good c → Good (check_message cfg c req now).0
  unfolding check_message
  check_message-Tracks c k =
      let g = consider Cap.global_per_hour c.global cfg.global_max_per_hour hour now none in
      let r = check_recipient cfg (record c { global = g.0 }) req.recipient now g.1 in
      Tracks-Kept _ _ _ _ _ (check_new_recipient-window cfg r.0 req.new_recipient now r.1 s) (
        Tracks-Kept _ _ _ _ _
          (check_recipient-window cfg (record c { global = g.0 }) req.recipient now g.1 s)
          (Tracks-Kept _ _ _ _ _ (set_global-window c _ cfg.global_max_per_hour now s) k))

  check_feedback-Tracks : (c : SendCaps) → Good c → Good (check_feedback cfg c req now).0
  unfolding check_feedback
  check_feedback-Tracks c k =
      let g =
        consider Cap.feedback_per_hour c.feedback_global cfg.feedback_max_per_hour hour now none in
      Tracks-Kept _ _ _ _ _
        (check_feedback_recipient-window cfg (record c { feedback_global = g.0 }) req.recipient now
          g.1 s)
        (Tracks-Kept _ _ _ _ _ (set_feedback_global-window c _ cfg.feedback_max_per_hour now s) k)

  check_class-Tracks :
      (k : SendClass) (c : SendCaps) → Good c → Good (check_class k cfg c req now).0
  unfolding check_class
  check_class-Tracks class_message c g = check_message-Tracks c g
  check_class-Tracks class_feedback c g = check_feedback-Tracks c g
  check_class-Tracks class_exempt c g = g

  -- A check keeps what each window knows of its history.
  pub check-Tracks : (c : SendCaps) → Good c → Good (check cfg c req now).0
  unfolding check
  check-Tracks c g =
      elim (cfg.caps_enabled)
        as (λ b. Good (if b then check_class (class req.type) cfg c req now else (c, none)).0) [
          | true ↦ check_class-Tracks (class req.type) c g
          | false ↦ g
        ]

-- What recording a send does to a window: the instant is added where the send counts.
record_class-window :
    (k : SendClass) (cfg : Config) (c : SendCaps) (req : SendRequest) (now : ℕ) (s : Slot)
    → window_of (record_class k cfg c req now).0 s
      ≡ (if counts cfg k req s then window_of c s ++ now ∷ [] else window_of c s)
unfolding record_class window_of counts
record_class-window class_message cfg c req now (recipient r) = ground (
  arith,
  eq_iff req.recipient r,
  window_at-insert c.recipient req.recipient r (window_at c.recipient req.recipient ++ now ∷ []),
)
record_class-window class_feedback cfg c req now (feedback_recipient r) = ground (
  arith,
  eq_iff req.recipient r,
  window_at-insert c.feedback_recipient req.recipient r
      (window_at c.feedback_recipient req.recipient ++ now ∷ []),
)
record_class-window class_message cfg c req now new_recipients = ground arith
record_class-window _ cfg c req now _ = refl

sweep_keys-Tracks :
    (window now : ℕ) (keys m : Dict (List ℕ)) (r : String) (h : List ℕ)
    → Tracks window now (window_at m r) h
    → Tracks window now (window_at (sweep_keys window now keys m) r) h
unfolding sweep_keys
sweep_keys-Tracks window now [] m r h k = k
sweep_keys-Tracks window now ((key, ts) ∷ rest) m r h k =
    sweep_keys-Tracks window now rest
      (set_or_delete m key (prune_before window now (window_at m key))) r h
      (Tracks-Kept _ _ _ _ _ (window_at-prune window now m key r) k)

sweep-Tracks :
    (c : SendCaps) (now : ℕ) (s : Slot) (h : List ℕ)
    → Tracks (span s) now (window_of c s) h
    → Tracks (span s) now (window_of (sweep c now) s) h
unfolding sweep window_of
sweep-Tracks c now (recipient r) h k = sweep_keys-Tracks hour now c.recipient c.recipient r h k
sweep-Tracks c now (feedback_recipient r) h k =
    sweep_keys-Tracks minute now c.feedback_recipient c.feedback_recipient r h k
sweep-Tracks c now _ h k = k

sweep_if_large-Tracks :
    (c : SendCaps) (now : ℕ) (s : Slot) (h : List ℕ)
    → Tracks (span s) now (window_of c s) h
    → Tracks (span s) now (window_of (sweep_if_large c now) s) h
unfolding sweep_if_large
sweep_if_large-Tracks c now s h k =
    elim (Bool-cases (ltb cap_sweep_threshold (length c.recipient + length c.feedback_recipient))) [
      | inl large ↦ rw large (sweep-Tracks c now s h k)
      | inr small ↦ rw small k
    ]

record_class-Tracks :
    (k : SendClass) (cfg : Config) (c : SendCaps) (req : SendRequest) (now : ℕ) (s : Slot)
    (h : List ℕ)
    → Tracks (span s) now (window_of c s) h
    → Tracks
        (span s)
        now
        (window_of (record_class k cfg c req now).0 s)
        (if counts cfg k req s then now ∷ h else h)
record_class-Tracks k cfg c req now s h g =
    rw (record_class-window k cfg c req now s)
      (elim (counts cfg k req s)
        as (λ b.
          Tracks (span s) now (if b then window_of c s ++ now ∷ [] else window_of c s)
            (if b then now ∷ h else h)) [
              | true ↦ Tracks-append (span s) now (window_of c s) h g
              | false ↦ g
            ])

-- A reservation that is admitted adds its instant to each window that it counts in, and one that
-- is refused adds nothing.
pub reserve-Tracks :
    (cfg : Config) (c : SendCaps) (req : SendRequest) (now : ℕ) (s : Slot) (h : List ℕ)
    → Tracks (span s) now (window_of c s) h
    → Tracks (span s) now (window_of (reserve cfg c req now).caps s) (
        if not (is_some (reserve cfg c req now).refusal) && counts cfg (class req.type) req s
        then now ∷ h
        else h)
unfolding reserve
reserve-Tracks cfg c req now s h k = elim (Option-cases (check cfg c req now).1) [
  | inr (e, refused) ↦ rw (refused, reserve) (check-Tracks cfg req now s h c k)
  | inl admitted ↦
      rw (admitted, reserve)
        (sweep_if_large-Tracks _ now s _ (
          record_class-Tracks (class req.type) cfg _ req now s h
            (check-Tracks cfg req now s h c k)))
]
