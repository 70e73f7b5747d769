-- ===== src/Antiban/Window.antt =====
-- The sliding window of whatsapp-bridge/internal/antiban/caps.go: a list of instants, oldest first.
-- The cutoff `now.Add(-window)` is kept as its two parts, so that no subtraction is needed: an
-- entry is at or before the cutoff when entry + window ≤ now.
pub mod Track
use whatsapp_mcp_pro.Base.{
  ℕ, ◌+◌, ◌-◌, List, [], ◌∷◌, map, Option, none, some, ℤ, pos, negsuc, ltb, leb, ◌==◌, ◌||◌, max,
  if◌then◌else◌, length, get_or,
}
use whatsapp_mcp_pro.Antiban.Config.{second}

-- `pruneBefore`: the expired entries are a prefix.
unfoldable pub prune_before : ℕ → ℕ → List ℕ → List ℕ
prune_before window now [] = []
prune_before window now (t ∷ ts) =
    let rest = prune_before window now ts in if leb (t + window) now then rest else t ∷ ts

-- `windowFull`: the wait until one more entry fits, if the window is full. The code's difference
-- may be negative, and is then raised to a second, as a truncated one is.
unfoldable pub window_full : List ℕ → ℤ → ℕ → ℕ → Option ℕ
window_full ts (negsuc n) window now = none
window_full ts (pos limit) window now =
    if limit == 0 || ltb (length ts) limit
    then none
    else some (max second (get_or ts (length ts - limit) 0 + window - now))

-- `sort.Slice` on instants: by insertion.
unfoldable pub insert_sorted : ℕ → List ℕ → List ℕ
insert_sorted t [] = t ∷ []
insert_sorted t (u ∷ us) = if leb t u then t ∷ u ∷ us else u ∷ insert_sorted t us

unfoldable pub sort : List ℕ → List ℕ
sort [] = []
sort (t ∷ ts) = insert_sorted t (sort ts)

-- `normalizeTimes`: future entries are clamped to now, and the window is sorted.
unfoldable pub normalize_times : List ℕ → ℕ → List ℕ
unfolding sort insert_sorted
normalize_times ts now = sort (map (λ t. if ltb now t then now else t) ts)
