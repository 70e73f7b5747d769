-- ===== src/Lib.antt =====
-- The parts of the WhatsApp bridge that decide what leaves the account and what its archive shows:
-- which sends go out and when, that a retried send goes out once, how often a phone is asked for media
-- or pinged, who may use the API, which webhooks hear of a message and which addresses they reach, what
-- an edit, a deletion or a vote does to the stored messages, and how long an answer about a group
-- stands.
-- Paths are under whatsapp-bridge/internal/.
--
-- A send request reaches api/send.go, whose runIdempotentSend claims its key in the table of
-- database/send_state.go and then calls the WhatsApp client. The client asks the interceptor of
-- antiban/antiban.go before it dispatches: the health monitor, the warm-up, the send caps, the
-- pacing delay, and the caps again. A download of media that the servers have purged asks the phone
-- that sent it, at once or by the queue of whatsapp/mediaretry_queue.go, and both record what they
-- ask in the tables of database/media_requests.go. In front of every handler stands the chain of
-- api/middleware.go. A message that arrives and a change of one go to the webhooks of
-- webhook/manager.go, which webhook/delivery.go sends and retries, to addresses that
-- webhook/validation.go lets through. The message itself, its edits, its deletion and the votes of a
-- poll are stored by database/messages.go, database/edits_calls.go and database/polls.go, whose checks
-- say who may change a message. Beside them, whatsapp/groupcache.go keeps what WhatsApp answers about
-- groups, whatsapp/phoneping.go watches when the phone was last online, and whatsapp/reachout.go
-- refuses first contacts while WhatsApp has locked them.
--
-- Antiban/Config        antiban/config.go: Config, LoadConfig, MessageType and its classes
-- Antiban/Window        antiban/caps.go: pruneBefore, windowFull, normalizeTimes
-- Antiban/Caps          antiban/caps.go: SendCaps, with Check, Reserve, the sweep and the state file
-- Antiban/Health        antiban/healthmonitor.go: HealthMonitor; a round of its ticker is `tick`
-- Antiban/WarmUp        antiban/warmup.go: WarmUp, with CanSend, RecordSend and loadState
-- Antiban/Pacing        antiban/ratelimiter.go: computeDelay and Wait
-- Antiban/Interceptor   antiban/antiban.go: BeforeSend, Precheck, AfterSend, AfterSendFailed
-- Send/Idempotency      database/send_state.go: the table idempotency_keys and its statements
-- Send/Handler          api/send.go: runIdempotentSend and writeReplay
-- MediaRetry/Requests   database/media_requests.go: the tables and their statements
-- MediaRetry/Queue      whatsapp/mediaretry_queue.go: the configuration and Tick
-- MediaRetry/Ask        whatsapp/mediaretry_queue.go: askPhoneForMedia, classifyMediaRetryAnswer
-- Api/RateLimit         api/middleware.go: the rate limiter, its janitor, the API key, the chain
-- Webhook/Triggers      webhook/manager.go: MatchesTriggers, ProcessMessage, DeliverEvent
-- Webhook/Delivery      webhook/delivery.go: DeliverWebhook and sendHTTPRequest
-- Webhook/Addresses     webhook/validation.go: ValidateWebhookURL; delivery.go: ssrfSafeDialContext
-- Edits/Rows            database/edits_calls.go: the tables, findMessageChat, setEditedContent
-- Edits/Authors         database/edits_calls.go: storedSenderJID, accountForms, isAuthor
-- Edits/Apply           database/edits_calls.go: ApplyEdit
-- Edits/Revoke          database/edits_calls.go: MarkDeleted
-- Edits/Messages        database/messages.go: StoreMessage; edits_calls.go: resolvePendingEdits
-- Edits/Forward         edits, revokes and deliveries in any order
-- Groups/Cache          whatsapp/groupcache.go: groupCache, a call being the steps around its fetch
-- Phone/Monitor         whatsapp/phoneping.go: PhoneMonitor; database/phone_status.go: its row
-- Phone/Runs            whatsapp/phoneping.go: handleEvent, and restarts of the bridge
-- Polls/Votes           database/polls.go and whatsapp/polls.go: options, votes and their tables
-- Reachout/Tracker      whatsapp/reachout.go: reachoutTracker; database/send_state.go: bridge_state
-- Base                  shared names, Boolean tests, lists, Go maps as association lists, integers
-- Tests                 runs at concrete inputs, and instances of the theorems
--
-- The state of a component is a record, and an operation a function from it to the next one. Locks
-- are not modelled: what one of them guards is one step, and theorems quantify over the sequences
-- of steps. The four statements of a claim are no transaction: what other requests do between them
-- is an argument of it. BeforeSend and Precheck repeat their first checks, as in the source, each in
-- a definition of its own. Instants are numbers that the caller reads from the clock: nanoseconds, but seconds in
-- the tables of sends and media requests, and milliseconds in those of the phone and of votes. A
-- statement that SQLite refuses is given by a flag and changes nothing; for edits and votes it is
-- left out, since it rolls their transaction back. Go integers that can be negative are integers;
-- none is taken to wrap around. The search of accountForms runs on fuel, as many rounds as there
-- are given JIDs and forms in the directory; each takes a form off the queue, and no form enters
-- twice.
--
-- Given as parameters: the Gaussian draw of computeDelay, the key of a day (todayKey), the send
-- itself with its answer, the JSON rewriting of writeReplay, whatsmeow's text for media that is
-- gone, Go's parsing of addresses and the resolver, what whatsmeow answers about groups and
-- decrypts, SHA-256, and Go's strings and regular expressions. Nothing is assumed of them but, for
-- polls, that the hash of an option is that of no other text that a vote names.
--
-- Not modelled: the WhatsApp client and its event handlers, the webhooks' payloads, calls, most
-- reads of the message store, the rest of the API's handlers, the texts of errors and logs, the
-- writing of files and the timers, and the programs in other languages that call the bridge over
-- HTTP.
pub mod Base
pub mod Antiban
pub mod Send
pub mod MediaRetry
pub mod Api
pub mod Webhook
pub mod Edits
pub mod Groups
pub mod Phone
pub mod Polls
pub mod Reachout
pub mod Tests
