-- ===== src/Edits/Apply/Runs.antt =====
-- Edits of one stored message in any order: ApplyEdit of whatsapp-bridge/internal/database/
-- edits_calls.go, applied to edits that are new and allowed.
use whatsapp_mcp_pro.Base.{◌≡◌, ◌≢◌, ◌∙◌, refl, ap, sym, List, [], ◌∷◌, some, false, String, find}
use whatsapp_mcp_pro.Edits.Rows.{GoText, MessageRow, Store, is_message}
use whatsapp_mcp_pro.Edits.Apply.{Edit, edit_key, accept, apply_edit}
use whatsapp_mcp_pro.Edits.Apply.Row.{newest_wins, Ready, apply_edit-Ready}
use whatsapp_mcp_pro.Edits.Apply.Order.{newest_wins_swap, accept-Ready, accept-row}

-- `ApplyEdit` for one edit after the other.
unfoldable pub run : GoText → List Edit → Store → Store
run go [] s = s
run go (e ∷ es) s = run go es (apply_edit go e s).0

-- The newest text of all, and how many they are.
unfoldable pub newest_of : List Edit → MessageRow → MessageRow
newest_of [] r = r
newest_of (e ∷ es) r = newest_of es (newest_wins e r)

abbrev pub Unlike : GoText → Edit → List Edit → Type 0
Unlike go e [] = Unit
Unlike go e (f ∷ fs) = (edit_key go e ≢ edit_key go f) × Unlike go e fs

-- Every edit is ready, and no two have one key.
abbrev pub AllReady : GoText → String → String → Store → MessageRow → List Edit → Type 0
AllReady go id chat s r [] = Unit
AllReady go id chat s r (e ∷ es) =
    Ready go id chat s r e × (Unlike go e es × AllReady go id chat s r es)

-- The same edits in another order, where those of one instant keep theirs.
pub data Shuffled : List Edit → List Edit → Type 0 where
  nothing : Shuffled [] []
  keep : (e : Edit) {es fs : List Edit} → Shuffled es fs → Shuffled (e ∷ es) (e ∷ fs)
  swap : (a b : Edit) (es : List Edit) → a.at ≢ b.at → Shuffled (a ∷ b ∷ es) (b ∷ a ∷ es)
  trans : {es fs gs : List Edit} → Shuffled es fs → Shuffled fs gs → Shuffled es gs

newest_of-Shuffled :
    {es fs : List Edit} → Shuffled es fs → (r : MessageRow) → newest_of es r ≡ newest_of fs r
unfolding newest_of
newest_of-Shuffled nothing r = refl
newest_of-Shuffled (keep e sh) r = newest_of-Shuffled sh (newest_wins e r)
newest_of-Shuffled (swap a b es h) r = ap (newest_of es) (newest_wins_swap b a r (λ e. h (sym e)))
newest_of-Shuffled (trans sh ti) r = newest_of-Shuffled sh r ∙ newest_of-Shuffled ti r

module _ (go : GoText) where
  Unlike-Shuffled :
      {es fs : List Edit} → Shuffled es fs → (e : Edit) → Unlike go e es → Unlike go e fs
  Unlike-Shuffled nothing e u = u
  Unlike-Shuffled (keep f sh) e u = (u.0, Unlike-Shuffled sh e u.1)
  Unlike-Shuffled (swap a b es h) e u = (u.1.0, (u.0, u.1.1))
  Unlike-Shuffled (trans sh ti) e u = Unlike-Shuffled ti e (Unlike-Shuffled sh e u)

  module _ (id chat : String) where
    AllReady-Shuffled :
        {es fs : List Edit}
        → Shuffled es fs
        → (s : Store) (r : MessageRow) → AllReady go id chat s r es
        → AllReady go id chat s r fs
    AllReady-Shuffled nothing s r all = all
    AllReady-Shuffled (keep e sh) s r all =
        (all.0, (Unlike-Shuffled sh e all.1.0, AllReady-Shuffled sh s r all.1.1))
    AllReady-Shuffled (swap a b es h) s r all =
        (all.1.1.0, (((λ e. all.1.0.0 (sym e)), all.1.1.1.0), (all.0, (all.1.0.1, all.1.1.1.1))))
    AllReady-Shuffled (trans sh ti) s r all =
        AllReady-Shuffled ti s r (AllReady-Shuffled sh s r all)

    accept-AllReady :
        (s : Store) (r : MessageRow) (e : Edit) (fs : List Edit)
        → Ready go id chat s r e
        → Unlike go e fs
        → AllReady go id chat s r fs
        → AllReady go id chat (accept go e chat false r s).0 (newest_wins e r) fs
    accept-AllReady s r e [] ready u all = tt
    accept-AllReady s r e (f ∷ fs) ready u all = (
      accept-Ready go id chat s r e f ready u.0 all.0,
      (all.1.0, accept-AllReady s r e fs ready u.1 all.1.1),
    )

    -- Of edits that are new and allowed, of one stored message and with different keys, the newest
    -- text is the content afterwards, and every one is counted.
    pub run-newest :
        (es : List Edit) (s : Store) (r : MessageRow)
        → find (is_message id chat) s.messages ≡ some r
        → AllReady go id chat s r es
        → find (is_message id chat) (run go es s).messages ≡ some (newest_of es r)
    unfolding run newest_of
    run-newest [] s r row all = row
    run-newest (e ∷ es) s r row all =
        ap (λ (t : Store). find (is_message id chat) (run go es t).messages)
          (apply_edit-Ready go id chat s r e row all.0)
        ∙ (run-newest es (accept go e chat false r s).0 (newest_wins e r)
            (accept-row go id chat s r e row all.0)
            (accept-AllReady s r e es all.0 all.1.0 all.1.1))

    -- Edits of one stored message that are new, allowed and of different keys leave the same row
    -- in any order that keeps the order of edits of one instant.
    pub run-any_order :
        (es fs : List Edit) (s : Store) (r : MessageRow)
        → find (is_message id chat) s.messages ≡ some r
        → AllReady go id chat s r es
        → Shuffled es fs
        → find (is_message id chat) (run go fs s).messages
          ≡ find (is_message id chat) (run go es s).messages
    run-any_order es fs s r row all sh =
        run-newest fs s r row (AllReady-Shuffled sh s r all)
        ∙ ap some (sym (newest_of-Shuffled sh r))
        ∙ sym (run-newest es s r row all)
