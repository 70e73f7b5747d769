-- ===== src/Antiban/Window/Track.antt =====
-- What a pruned window knows of the instants that were ever recorded in it.
use whatsapp_mcp_pro.Base.{
  ◌∙◌, ◌⊎◌, ℕ, ◌+◌, ◌≤◌, ◌<◌, ◌≡◌, refl, List, [], ◌∷◌, ◌++◌, none, pos, arith, ltb, leb, ◌&&◌,
  length, count, count-append, All, All-map_of, All-append,
}
use whatsapp_mcp_pro.Antiban.Window.{prune_before, window_full}

-- Instants in append order.
abbrev pub Ascending : List ℕ → Type 0
Ascending [] = Unit
Ascending (t ∷ ts) = All (λ u. t ≤ u) ts × Ascending ts

-- How many instants still count against a window that ends at `now`.
abbrev pub recent : ℕ → ℕ → List ℕ → ℕ
recent window now = count (λ t. ltb now (t + window))

-- How many instants lie in [from, from + window).
abbrev pub within : ℕ → ℕ → List ℕ → ℕ
within window from = count (λ t. leb from t && ltb t (from + window))

-- A later look at a pruned window counts what it would have counted before, also through a
-- shorter window.
pub recent-prune_before :
    (window now w m : ℕ) (ts : List ℕ)
    → w ≤ window
    → now ≤ m
    → recent w m (prune_before window now ts) ≡ recent w m ts
unfolding prune_before
recent-prune_before window now w m [] hw hm = refl
recent-prune_before window now w m (t ∷ ts) hw hm =
    ground (arith, recent-prune_before window now w m ts hw hm)

All-recent :
    (window now t : ℕ) (ts : List ℕ)
    → now < t + window
    → All (λ u. t ≤ u) ts
    → length ts ≡ recent window now ts
All-recent window now t [] h b = refl
All-recent window now t (u ∷ us) h b = ground (arith, All-recent window now t us h b.1)

-- After pruning, the length of an ascending window is the count that the cap is about.
pub length-prune_before :
    (window now : ℕ) (ts : List ℕ)
    → Ascending ts
    → length (prune_before window now ts) ≡ recent window now ts
unfolding prune_before
length-prune_before window now [] a = refl
length-prune_before window now (t ∷ ts) a =
    ground (arith, length-prune_before window now ts a.1, All-recent window now t ts)

pub prune_before-Ascending :
    (window now : ℕ) (ts : List ℕ) → Ascending ts → Ascending (prune_before window now ts)
unfolding prune_before
prune_before-Ascending window now [] a = tt
prune_before-Ascending window now (t ∷ ts) a =
    ground (arith, prune_before-Ascending window now ts a.1)

Ascending-append :
    (now : ℕ) (ts : List ℕ) → Ascending ts → All (λ t. t ≤ now) ts → Ascending (ts ++ now ∷ [])
Ascending-append now [] a b = (tt, tt)
Ascending-append now (t ∷ ts) a b =
    (All-append (λ u. t ≤ u) ts (now ∷ []) a.0 (b.0, tt), Ascending-append now ts a.1 b.1)

All-prune_before :
    (P : ℕ → Type 0) (window now : ℕ) (ts : List ℕ) → All P ts → All P (prune_before window now ts)
unfolding prune_before
All-prune_before P window now [] h = tt
All-prune_before P window now (t ∷ ts) h = ground (arith, All-prune_before P window now ts h.1)

-- What a kept window `ts` owes to the full history `h` of its entries, as of the instant `last`.
pub record Tracks (window last : ℕ) (ts h : List ℕ) : Type 0 where
  pub ascending : Ascending ts
  pub past : All (λ t. t ≤ last) ts
  pub same : (w m : ℕ) → w ≤ window → last ≤ m → recent w m ts ≡ recent w m h

pub Tracks-empty : (window last : ℕ) → Tracks window last [] []
Tracks-empty window last = record { ascending = tt; past = tt; same = λ w m hw hm. refl }

pub Tracks-later :
    (window last now : ℕ) (ts h : List ℕ)
    → last ≤ now
    → Tracks window last ts h
    → Tracks window now ts h
Tracks-later window last now ts h le k = record {
  ascending = k.ascending;
  past = All-map_of (λ t. t ≤ last) (λ t. t ≤ now) ts (λ a b. omega arith) k.past;
  same = λ w m hw hm. k.same w m hw (omega arith);
}

pub Tracks-prune_before :
    (window now : ℕ) (ts h : List ℕ)
    → Tracks window now ts h
    → Tracks window now (prune_before window now ts) h
Tracks-prune_before window now ts h k = record {
  ascending = prune_before-Ascending window now ts k.ascending;
  past = All-prune_before (λ t. t ≤ now) window now ts k.past;
  same = λ w m hw hm. recent-prune_before window now w m ts hw hm ∙ k.same w m hw hm;
}

pub Tracks-append :
    (window now : ℕ) (ts h : List ℕ)
    → Tracks window now ts h
    → Tracks window now (ts ++ now ∷ []) (now ∷ h)
Tracks-append window now ts h k = record {
  ascending = Ascending-append now ts k.ascending k.past;
  past = All-append (λ t. t ≤ now) ts (now ∷ []) k.past (omega arith);
  same =
      λ w m hw hm. omega (arith, k.same w m hw hm, count-append (λ t. ltb m (t + w)) ts (now ∷ []));
}

-- At most `limit` entries of a history lie in any window of the given length.
abbrev pub Ceiling : ℕ → ℕ → List ℕ → Type 0
Ceiling window limit h = (from : ℕ) → within window from h ≤ limit

within-le-recent :
    (window from now : ℕ) (h : List ℕ)
    → from ≤ now
    → now < from + window
    → within window from h ≤ recent window now h
within-le-recent window from now [] a b = omega arith
within-le-recent window from now (t ∷ h) a b =
    ground (arith, within-le-recent window from now h a b)

-- An entry that is added only while fewer than `limit` are recent keeps the ceiling.
pub Ceiling-cons :
    (window limit now : ℕ) (h : List ℕ)
    → Ceiling window limit h
    → recent window now h < limit
    → Ceiling window limit (now ∷ h)
Ceiling-cons window limit now h c r from =
    ground (arith, c from, within-le-recent window from now h)

-- A window that is not full has room for one more.
pub window_full-none :
    (ts : List ℕ) (limit window now : ℕ)
    → window_full ts (pos limit) window now ≡ none
    → (limit ≡ 0) ⊎ (length ts < limit)
unfolding window_full
window_full-none ts limit window now h = ground arith
