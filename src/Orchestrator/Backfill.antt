-- ===== src/Orchestrator/Backfill.antt =====
-- backfill.py: the messages of the stream are handled once more, and the windows that are left open
-- are flushed. Arguments of the command line, connections and logs are left out.
mod Tests
use personal_intelligence.Base.{
  ℕ, suc, ◌+◌, ◌≤◌, ◌≡◌, refl, Bool, true, false, not, ◌&&◌, ◌||◌, Option, none, some, List, [],
  ◌∷◌, length, take, elem, is_empty, Text, text, text_eq, ℤ, pos, int_eq, ◌==◌, ltb, starts_with,
  has_part, Bool-cases, inl, inr, arith, if◌then◌else◌,
}
use personal_intelligence.Exec.{Error, Result, ok, err, Holds}
use personal_intelligence.Contracts.{TelegramMessageEvent, WindowMessagePayload}
use personal_intelligence.Orchestrator.Settings.{Settings}
use personal_intelligence.Orchestrator.Graph.{Externals}
use personal_intelligence.Orchestrator.State.{State}
use personal_intelligence.Orchestrator.Consumer.{
  stripped, load_window_messages, handle_message, flush_window,
}

pub record BackfillStats : Type 0 where
  pub scanned : ℕ
  pub skipped : ℕ
  pub handled : ℕ
  pub flushed : ℕ
  pub failed : ℕ

pub record Args : Type 0 where
  pub exclude_chat_id : List ℤ
  pub max_events : ℕ
  pub skip_obvious_test_data : Bool
  pub dry_run : Bool

-- An entry of the stream, with its decoding and the time of Redis at which it is handled.
pub record Replayed : Type 0 where
  pub payload : Result TelegramMessageEvent
  pub handled_at : ℕ

pub record Timed : Type 0 where
  pub event : TelegramMessageEvent
  pub handled_at : ℕ

abbrev pub is_demo_name : Option Text → Bool
is_demo_name none = false
is_demo_name (some name) = elem name (text "owner" ∷ text "partner" ∷ [])

unfoldable pub is_obvious_test_event : TelegramMessageEvent → Bool
is_obvious_test_event event =
    event.tg_chat_id == pos 990001
    || is_demo_name event.tg_sender_username
    || (starts_with (text "Message ") (stripped event.content)
        && has_part (text "normal project sync") (stripped event.content))

-- A payload that does not decode ends the backfill.
abbrev pub onto_events : ℕ → Result TelegramMessageEvent → Result (List Timed) → Result (List Timed)
onto_events at (err e) rest = err e
onto_events at (ok event) (err e) = err e
onto_events at (ok event) (ok events) = ok (record { event = event; handled_at = at } ∷ events)

unfoldable pub decode_all : List Replayed → Result (List Timed)
decode_all [] = ok []
decode_all (entry ∷ entries) = onto_events entry.handled_at entry.payload (decode_all entries)

unfoldable pub iter_events : ℕ → List Replayed → Result (List Timed)
unfolding decode_all
iter_events max_events entries =
    if ltb 0 max_events then decode_all (take max_events entries) else decode_all entries

-- `last_seen_by_chat`, a dict in the order of its keys
unfoldable pub remember :
    TelegramMessageEvent → List (ℤ × TelegramMessageEvent) → List (ℤ × TelegramMessageEvent)
remember event [] = (event.tg_chat_id, event) ∷ []
remember event (seen ∷ others) =
    let rest = remember event others in
    if seen.0 == event.tg_chat_id then (event.tg_chat_id, event) ∷ others else seen ∷ rest

-- Where the loop stands: the counts, the last events and the state of the service.
pub record Progress : Type 0 where
  pub stats : BackfillStats
  pub last_seen : List (ℤ × TelegramMessageEvent)
  pub state : State

abbrev pub no_stats : BackfillStats
no_stats = record { scanned = 0; skipped = 0; handled = 0; flushed = 0; failed = 0 }

abbrev pub started : State → Progress
started s = record { stats = no_stats; last_seen = []; state = s }

abbrev pub is_skipped : Args → TelegramMessageEvent → Bool
is_skipped args event =
    elem event.tg_chat_id args.exclude_chat_id
    || (args.skip_obvious_test_data && is_obvious_test_event event)

abbrev pub tally : Result (Unit {0}) → BackfillStats → BackfillStats
tally (ok done) stats = record stats { handled = suc stats.handled }
tally (err e) stats = record stats { failed = suc stats.failed }

module _ (settings : Settings) (x : Externals) (uuid : ℕ → Text) where
  abbrev pub replay : TelegramMessageEvent → ℕ → BackfillStats → State → BackfillStats × State
  replay event at stats s =
      let (result, after) = handle_message settings x uuid event (record s { clock = at }) in
      (tally result stats, after)

  unfoldable pub replay_event : Args → Timed → Progress → Progress
  replay_event args timed p =
      let stats = record p.stats { scanned = suc p.stats.scanned } in
      let seen = remember timed.event p.last_seen in
      let (tallied, after) = replay timed.event timed.handled_at stats p.state in
      if is_skipped args timed.event
      then record p { stats = record stats { skipped = suc stats.skipped } }
      else if args.dry_run
      then record p { stats = stats; last_seen = seen }
      else record { stats = tallied; last_seen = seen; state = after }

  unfoldable pub replay_all : Args → List Timed → Progress → Progress
  replay_all args [] p = p
  replay_all args (timed ∷ events) p = replay_all args events (replay_event args timed p)

  abbrev pub flush_tally : Result (Unit {0}) → BackfillStats → BackfillStats
  flush_tally (ok done) stats = record stats { flushed = suc stats.flushed }
  flush_tally (err e) stats = record stats { failed = suc stats.failed }

  abbrev pub flush_open : ℤ → TelegramMessageEvent → BackfillStats → State → BackfillStats × State
  flush_open chat last_event stats s =
      let (result, after) =
        flush_window x uuid chat last_event.event_id last_event.chat_type last_event.trace_id s in
      (flush_tally result stats, after)

  -- A window that cannot be read, or that is empty, is passed over.
  abbrev pub is_open : Result (List WindowMessagePayload) → Bool
  is_open (ok messages) = not (is_empty messages)
  is_open (err e) = false

  unfoldable pub flush_residual_windows :
      List (ℤ × TelegramMessageEvent) → BackfillStats → State → BackfillStats × State
  flush_residual_windows [] stats s = (stats, s)
  flush_residual_windows ((chat, last_event) ∷ others) stats s =
      let (flushed, after) = flush_open chat last_event stats s in
      if is_open (load_window_messages chat s).0
      then flush_residual_windows others flushed after
      else flush_residual_windows others stats s

  abbrev pub finish : Bool → Progress → BackfillStats × State
  finish dry_run p =
      if dry_run then (p.stats, p.state) else flush_residual_windows p.last_seen p.stats p.state

  abbrev pub run_events : Args → Result (List Timed) → State → Result (BackfillStats × State)
  run_events args (err e) s = err e
  run_events args (ok events) s = ok (finish args.dry_run (replay_all args events (started s)))

  unfoldable pub run_backfill : Args → List Replayed → State → Result (BackfillStats × State)
  run_backfill args entries s = run_events args (iter_events args.max_events entries) s
