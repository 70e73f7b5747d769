-- ===== src/Tests/Send.antt =====
-- Instances for whatsapp-bridge/internal/database/send_state.go and internal/api/send.go.
use whatsapp_mcp_pro.Base.{ℕ, ◌+◌, ◌≡◌, refl, List, [], ◌∷◌, some, true, false, String, arith, All}
use whatsapp_mcp_pro.Send.Idempotency.{
  in_flight, done, failed, IdempotencyRecord, get, update, purge, new_record, reclaim, owned, claim,
  claim_among, insert_or_ignore, reclaim_row, set_message_id, finished, finish,
}
use whatsapp_mcp_pro.Send.Idempotency.Statements.{
  Op, purges, inserts, finishes, apply, apply_all, wins, claiming,
}
use whatsapp_mcp_pro.Send.Idempotency.Exclusion.{
  no_faults, claim_exclusive, reclaim_overlap, superseded_finish,
}
use whatsapp_mcp_pro.Send.Handler.{Attempt, SendCall, after_dispatch, settle, run_idempotent_send}
use whatsapp_mcp_pro.Send.Handler.Once.{handle_all, Replayed, retries_send_once}

abbrev begun : ℕ
begun = 1000000

-- The statements of another request's claim of the key, and the end of a request with another key.
abbrev others : List Op
others =
    purges (begun + 1)
    ∷ inserts "k1" "send|49151" "hash" (begun + 1)
    ∷ finishes "k2" "send|49151" done "3EB0" 200 "{}" (begun + 2)
    ∷ []

abbrev first_record : IdempotencyRecord
first_record = record {
  key = "k1";
  scope = "send|49151";
  payload_hash = "hash";
  status = in_flight;
  message_id = "";
  http_status = 0;
  response = "";
  created_at = begun;
  updated_at = begun;
}

claim_exclusive_example :
    wins
      (claiming true "k1" "send|49151" "hash" (begun + 300))
      (apply_all (apply [] (claiming false "k1" "send|49151" "hash" begun)) others)
    ≡ false
unfolding wins apply insert_or_ignore get new_record
claim_exclusive_example =
    claim_exclusive false true "k1" "send|49151" "hash" "hash" begun (begun + 300) (begun + 300) []
      first_record others refl refl (omega arith) (omega arith) (omega arith, (tt, (refl, tt)))
      (omega arith)

-- Claimed again after ten minutes, and once more a second after the first owner's failure.
superseded_finish_example :
    ((claim no_faults "k1" "send|49151" "hash" (begun + 600) (first_record ∷ [])).1
      ≡ owned (reclaim "hash" (begun + 600) first_record))
    × ((claim no_faults "k1" "send|49151" "hash" (begun + 602) (
          finish "k1" "send|49151" failed "" 500 "{}"
            (begun + 601)
            (claim no_faults "k1" "send|49151" "hash" (begun + 600) (first_record ∷ [])).0)).1
        ≡ owned (
            reclaim "hash" (begun + 602) (
              finished failed "" 500 "{}"
                (begun + 601)
                (reclaim "hash" (begun + 600) first_record))))
superseded_finish_example =
    superseded_finish "k1" "send|49151" "hash" "" "{}" 500 (begun + 601) (begun + 600) (begun + 602)
      first_record refl refl refl refl refl refl

abbrev failed_record : IdempotencyRecord
failed_record = record first_record { status = failed; message_id = "3EB0" }

-- Claimed a minute before the row is a day old, and a minute after.
reclaim_overlap_example :
    ((claim no_faults "k1" "send|49151" "hash" (begun + 86340) (failed_record ∷ [])).1
      ≡ owned (reclaim "hash" (begun + 86340) failed_record))
    × ((claim no_faults "k1" "send|49151" "hash"
          (begun + 86460)
          (claim no_faults "k1" "send|49151" "hash" (begun + 86340) (failed_record ∷ [])).0).1
        ≡ owned (new_record "k1" "send|49151" "hash" (begun + 86460)))
reclaim_overlap_example =
    reclaim_overlap "k1" "send|49151" "hash" (begun + 86340) (begun + 86460) failed_record refl refl
      refl refl refl

abbrev call : SendCall
call = record {
  key = "k1";
  scope = "send|49151";
  hash = "hash";
  claimed_at = begun;
  finished_at = begun + 3;
  faults = no_faults;
  set_id_fails = false;
  finish_fails = false;
}

abbrev sending : String → Attempt
sending prior = record {
  dispatched = some "3EB0";
  outcome = record { status = 200; body = "{\"success\":true}"; message_id = "3EB0" };
}

abbrev mark_replay : String → String
mark_replay body = "replayed"

abbrev recorded : IdempotencyRecord
recorded = record first_record {
  status = done;
  message_id = "3EB0";
  http_status = 200;
  response = "{\"success\":true}";
  updated_at = begun + 3;
}

abbrev retry : SendCall
retry = record call { claimed_at = begun + 60; finished_at = begun + 60 }

retries_send_once_example :
    All (Replayed mark_replay sending recorded) (
      handle_all mark_replay sending
        (run_idempotent_send mark_replay sending call []).table
        (retry ∷ []))
    × (recorded.response ≡ "{\"success\":true}")
    × (recorded.http_status ≡ 200)
unfolding run_idempotent_send claim claim_among insert_or_ignore reclaim_row purge get update
    new_record settle after_dispatch set_message_id finish finished
retries_send_once_example =
    retries_send_once mark_replay sending call [] "" recorded (retry ∷ []) refl refl refl refl refl
      ((refl, refl, refl, omega arith), tt)
