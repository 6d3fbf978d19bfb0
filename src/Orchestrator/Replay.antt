-- ===== src/Orchestrator/Replay.antt =====
-- What a backfill counts, and what a dry run leaves alone.
use personal_intelligence.Base.{
  ℕ, suc, ◌+◌, ◌≤◌, ◌≡◌, refl, Bool, true, false, List, [], ◌∷◌, Text, ℤ, Bool-cases, inl, inr,
  arith,
}
use personal_intelligence.Exec.{Result, ok, err, Holds}
use personal_intelligence.Contracts.{TelegramMessageEvent}
use personal_intelligence.Orchestrator.Settings.{Settings}
use personal_intelligence.Orchestrator.Graph.{Externals}
use personal_intelligence.Orchestrator.State.{State}
use personal_intelligence.Orchestrator.Consumer.{handle_message, load_window_messages}
use personal_intelligence.Orchestrator.Backfill.{
  BackfillStats, Args, Replayed, Timed, Progress, started, is_skipped, tally, iter_events,
  replay_event, replay_all, flush_tally, is_open, flush_residual_windows, finish, run_events,
  run_backfill,
}

module _ (settings : Settings) (x : Externals) (uuid : ℕ → Text) (args : Args) where
  -- Nothing but the scanned and the skipped messages is counted, and the state is `s`.
  pub record IsIdle (s : State) (stats : BackfillStats) (after : State) : Type 0 where
    pub same_state : after ≡ s
    pub none_handled : stats.handled ≡ 0
    pub none_flushed : stats.flushed ≡ 0
    pub none_failed : stats.failed ≡ 0

  replay_event-IsIdle :
      (s : State) (timed : Timed) (p : Progress)
      → args.dry_run ≡ true
      → IsIdle s p.stats p.state
      → IsIdle s
          (replay_event settings x uuid args timed p).stats
          (replay_event settings x uuid args timed p).state
  unfolding replay_event
  replay_event-IsIdle s timed p dry h = elim (Bool-cases (is_skipped args timed.event)) [
    | inl skipped ↦ rw skipped (record {
      same_state = h.same_state;
      none_handled = h.none_handled;
      none_flushed = h.none_flushed;
      none_failed = h.none_failed;
    })
    | inr taken ↦
        rw (taken, dry)
          (record {
            same_state = h.same_state;
            none_handled = h.none_handled;
            none_flushed = h.none_flushed;
            none_failed = h.none_failed;
          })
  ]

  replay_all-IsIdle :
      (s : State) (events : List Timed) (p : Progress)
      → args.dry_run ≡ true
      → IsIdle s p.stats p.state
      → IsIdle s
          (replay_all settings x uuid args events p).stats
          (replay_all settings x uuid args events p).state
  unfolding replay_all
  replay_all-IsIdle s [] p dry h = h
  replay_all-IsIdle s (timed ∷ events) p dry h =
      replay_all-IsIdle s events _ dry (replay_event-IsIdle s timed p dry h)

  finish-IsIdle :
      (dry_run : Bool) (s : State) (p : Progress)
      → dry_run ≡ true
      → IsIdle s p.stats p.state
      → IsIdle s (finish settings x uuid dry_run p).0 (finish settings x uuid dry_run p).1
  finish-IsIdle true s p dry h = h
  finish-IsIdle false s p dry h = absurd cc

  run_events-IsIdle :
      (events : Result (List Timed)) (s : State)
      → args.dry_run ≡ true
      → Holds (λ r. IsIdle s r.0 r.1) (run_events settings x uuid args events s)
  run_events-IsIdle (err e) s dry = tt
  run_events-IsIdle (ok events) s dry = finish-IsIdle args.dry_run s _ dry (
      replay_all-IsIdle s events (started s) dry (record {
        same_state = refl;
        none_handled = refl;
        none_flushed = refl;
        none_failed = refl;
      }))

  -- A dry run that returns has left the state as it was, and has handled, flushed and failed nothing.
  pub run_backfill-IsIdle :
      (entries : List Replayed) (s : State)
      → args.dry_run ≡ true
      → Holds (λ r. IsIdle s r.0 r.1) (run_backfill settings x uuid args entries s)
  unfolding run_backfill
  run_backfill-IsIdle entries s dry = run_events-IsIdle (iter_events args.max_events entries) s dry

  -- Every scanned message is counted once more, as skipped, handled or failed.
  abbrev pub IsBalanced : BackfillStats → Type 0
  IsBalanced stats = stats.scanned ≤ stats.skipped + (stats.handled + stats.failed)

  tally-IsBalanced :
      (r : Result (Unit {0})) (stats : BackfillStats)
      → stats.scanned ≤ suc (stats.skipped + (stats.handled + stats.failed))
      → IsBalanced (tally r stats)
  tally-IsBalanced (ok done) stats h = omega (arith, h)
  tally-IsBalanced (err e) stats h = omega (arith, h)

  replay_event-IsBalanced :
      (timed : Timed) (p : Progress)
      → args.dry_run ≡ false
      → IsBalanced p.stats
      → IsBalanced (replay_event settings x uuid args timed p).stats
  unfolding replay_event
  replay_event-IsBalanced timed p wet h = elim (Bool-cases (is_skipped args timed.event)) [
    | inl skipped ↦ rw skipped (omega (arith, h))
    | inr taken ↦
        rw (taken, wet)
          (tally-IsBalanced
            (handle_message settings x uuid timed.event
              (record p.state { clock = timed.handled_at })).0
            (record p.stats { scanned = suc p.stats.scanned }) (omega (arith, h)))
  ]

  replay_all-IsBalanced :
      (events : List Timed) (p : Progress)
      → args.dry_run ≡ false
      → IsBalanced p.stats
      → IsBalanced (replay_all settings x uuid args events p).stats
  unfolding replay_all
  replay_all-IsBalanced [] p wet h = h
  replay_all-IsBalanced (timed ∷ events) p wet h =
      replay_all-IsBalanced events _ wet (replay_event-IsBalanced timed p wet h)

  flush_tally-IsBalanced :
      (r : Result (Unit {0})) (stats : BackfillStats)
      → IsBalanced stats
      → IsBalanced (flush_tally settings x uuid r stats)
  flush_tally-IsBalanced (ok done) stats h = omega (arith, h)
  flush_tally-IsBalanced (err e) stats h = omega (arith, h)

  flush_residual-IsBalanced :
      (seen : List (ℤ × TelegramMessageEvent)) (stats : BackfillStats) (s : State)
      → IsBalanced stats
      → IsBalanced (flush_residual_windows settings x uuid seen stats s).0
  unfolding flush_residual_windows
  flush_residual-IsBalanced [] stats s h = h
  flush_residual-IsBalanced ((chat, last_event) ∷ others) stats s h =
      elim (Bool-cases (is_open settings x uuid (load_window_messages chat s).0)) [
        | inl there ↦
            rw there (flush_residual-IsBalanced others _ _ (flush_tally-IsBalanced _ stats h))
        | inr closed ↦ rw closed (flush_residual-IsBalanced others stats s h)
      ]

  finish-IsBalanced :
      (dry_run : Bool) (p : Progress)
      → IsBalanced p.stats
      → IsBalanced (finish settings x uuid dry_run p).0
  finish-IsBalanced true p h = h
  finish-IsBalanced false p h = flush_residual-IsBalanced p.last_seen p.stats p.state h

  run_events-IsBalanced :
      (events : Result (List Timed)) (s : State)
      → args.dry_run ≡ false
      → Holds (λ r. IsBalanced r.0) (run_events settings x uuid args events s)
  run_events-IsBalanced (err e) s wet = tt
  run_events-IsBalanced (ok events) s wet =
      finish-IsBalanced args.dry_run (replay_all settings x uuid args events (started s))
        (replay_all-IsBalanced events (started s) wet (omega arith))

  -- A backfill that is not a dry run and returns has counted every scanned message as skipped, handled or
  -- failed.
  pub run_backfill-IsBalanced :
      (entries : List Replayed) (s : State)
      → args.dry_run ≡ false
      → Holds (λ r. IsBalanced r.0) (run_backfill settings x uuid args entries s)
  unfolding run_backfill
  run_backfill-IsBalanced entries s wet =
      run_events-IsBalanced (iter_events args.max_events entries) s wet
