-- ===== src/Orchestrator/Router/Grounding.antt =====
-- What the router returns cites the messages of the window, whatever the providers answer.
use personal_intelligence.Base.{
  ℕ, ◌≡◌, refl, Bool, true, false, Option, none, some, List, [], ◌∷◌, ◌++◌, map, take, zero, suc,
  elem, is_empty, Text, ℤ, int_eq, ==_refl, All, All-append, length, leb, Bool-cases, inl, inr,
  arith,
}
use personal_intelligence.Exec.{Result, ok, err, Holds}
use personal_intelligence.Contracts.{
  StructuredClaim, StructuredTask, AnalyticsSignal, StructuredAnalysisResult, WindowMessagePayload,
  MessageFeatureSet, SignalKind,
}
use personal_intelligence.Orchestrator.Features.{Patterns}
use personal_intelligence.Orchestrator.Router.Signals.{
  Payload, message_ids, make_signal, onto_result, collect, heuristic_signals,
}
use personal_intelligence.Orchestrator.Router.Heuristic.{
  hinted_task, tasks_onto, heuristic_claims, email_claim, phone_claim, link_claim, with_signals,
  heuristic_analysis,
}
use personal_intelligence.Orchestrator.Router.Sanitize.{
  in_window, safe_claims, safe_tasks, safe_signals, or_heuristic, with_safe, sanitize_result,
}
use personal_intelligence.Orchestrator.Router.Analyze.{
  analysis_of, translation_of, Client, Tools, fall_back, sanitize_decoded, parse_found,
  parse_analysis_payload, parse_answer, is_foreign, choose, translate, ask, ok_or, analyze,
}

module _ (valid : List ℤ) where
  abbrev pub AreIn : List ℤ → Type 0
  AreIn ids = All (λ id. elem id valid ≡ true) ids

  -- Some evidence, and all of it from the window
  abbrev pub IsCited : List ℤ → Type 0
  IsCited ids = (is_empty ids ≡ false) × AreIn ids

  abbrev pub AreCited : List StructuredClaim → Type 0
  AreCited claims = All (λ (c : StructuredClaim). IsCited c.evidence_message_ids) claims

  abbrev pub AreCitedTasks : List StructuredTask → Type 0
  AreCitedTasks tasks = All (λ (t : StructuredTask). IsCited t.evidence_message_ids) tasks

  abbrev pub AreFromWindow : List AnalyticsSignal → Type 0
  AreFromWindow signals = All (λ (s : AnalyticsSignal). AreIn s.evidence_message_ids) signals

  pub record IsGrounded (r : StructuredAnalysisResult) : Type 0 where
    pub claims_cited : AreCited r.claims
    pub tasks_cited : AreCitedTasks r.tasks
    pub signals_in : AreFromWindow r.analytics_signals

  in_window-AreIn : (ids : List ℤ) → AreIn (in_window valid ids)
  in_window-AreIn [] = tt
  in_window-AreIn (id ∷ ids) = elim (Bool-cases (elem id valid)) [
    | inl there ↦ rw there (there, in_window-AreIn ids)
    | inr away ↦ rw away (in_window-AreIn ids)
  ]

  safe_claims-AreCited : (claims : List StructuredClaim) → AreCited (safe_claims valid claims)
  unfolding safe_claims
  safe_claims-AreCited [] = tt
  safe_claims-AreCited (c ∷ claims) =
      elim (Bool-cases (is_empty (in_window valid c.evidence_message_ids))) [
        | inl nothing ↦ rw nothing (safe_claims-AreCited claims)
        | inr cited ↦
            rw cited ((cited, in_window-AreIn c.evidence_message_ids), safe_claims-AreCited claims)
      ]

  safe_tasks-AreCited : (tasks : List StructuredTask) → AreCitedTasks (safe_tasks valid tasks)
  unfolding safe_tasks
  safe_tasks-AreCited [] = tt
  safe_tasks-AreCited (t ∷ tasks) =
      elim (Bool-cases (is_empty (in_window valid t.evidence_message_ids))) [
        | inl nothing ↦ rw nothing (safe_tasks-AreCited tasks)
        | inr cited ↦
            rw cited ((cited, in_window-AreIn t.evidence_message_ids), safe_tasks-AreCited tasks)
      ]

  safe_signals-AreFromWindow :
      (signals : List AnalyticsSignal) → AreFromWindow (safe_signals valid signals)
  unfolding safe_signals
  safe_signals-AreFromWindow [] = tt
  safe_signals-AreFromWindow (s ∷ signals) =
      (in_window-AreIn s.evidence_message_ids, safe_signals-AreFromWindow signals)

  make_signal-Holds :
      (kind : SignalKind) (score : ℕ) (summary : Text) (evidence : List ℤ) (payload : Text)
      → AreIn evidence
      → Holds
          (λ (s : AnalyticsSignal). AreIn s.evidence_message_ids)
          (make_signal kind score summary evidence payload)
  unfolding make_signal
  make_signal-Holds kind score summary evidence payload h = elim (Bool-cases (leb score 1000)) [
    | inl low ↦ rw low h
    | inr high ↦ rw high tt
  ]

  onto_result-Holds :
      (r : Result AnalyticsSignal) (rest : Result (List AnalyticsSignal))
      → Holds (λ (s : AnalyticsSignal). AreIn s.evidence_message_ids) r
      → Holds AreFromWindow rest
      → Holds AreFromWindow (onto_result r rest)
  onto_result-Holds (err e) rest h t = tt
  onto_result-Holds (ok a) (err e) h t = tt
  onto_result-Holds (ok a) (ok signals) h t = (h, t)

  hinted-AreCited :
      (has_hint : Text → Bool) (ms : List WindowMessagePayload) (tasks : List StructuredTask)
      → AreIn (message_ids ms)
      → AreCitedTasks tasks
      → AreCitedTasks (tasks_onto has_hint ms tasks)
  unfolding tasks_onto
  hinted-AreCited has_hint [] tasks h done = done
  hinted-AreCited has_hint (m ∷ ms) tasks h done =
      let added =
        All-append (λ (t : StructuredTask). IsCited t.evidence_message_ids) tasks
          (hinted_task m ∷ []) done ((refl, (h.0, tt)), tt) in
      elim (Bool-cases (has_hint m.content)) [
        | inr plain ↦ rw plain (hinted-AreCited has_hint ms tasks h.1 done)
        | inl hinted ↦ rw hinted (elim (Bool-cases (leb 3 (length (tasks ++ hinted_task m ∷ [])))) [
          | inl full ↦ rw full added
          | inr more ↦ rw more (hinted-AreCited has_hint ms (tasks ++ hinted_task m ∷ []) h.1 added)
        ])
      ]

  made-AreCited :
      {A : Type 0} (make : A → StructuredClaim) (items : List A)
      → ((a : A) → IsCited (make a).evidence_message_ids)
      → AreCited (map make items)
  made-AreCited make [] each = tt
  made-AreCited make (a ∷ items) each = (each a, made-AreCited make items each)

  heuristic_claims-AreCited :
      (evidence : ℤ) (features : MessageFeatureSet)
      → elem evidence valid ≡ true
      → AreCited (heuristic_claims evidence features)
  unfolding heuristic_claims
  heuristic_claims-AreCited evidence features h =
      All-append (λ (c : StructuredClaim). IsCited c.evidence_message_ids)
        (map (email_claim evidence) features.emails) _
        (made-AreCited (email_claim evidence) features.emails (λ email. (refl, (h, tt))))
        (All-append (λ (c : StructuredClaim). IsCited c.evidence_message_ids)
          (map (phone_claim evidence) features.phones) _
          (made-AreCited (phone_claim evidence) features.phones (λ phone. (refl, (h, tt))))
          (made-AreCited (link_claim evidence) (take 3 features.links) (λ link. (refl, (h, tt)))))

AreIn-cons : (a : ℤ) (valid ids : List ℤ) → AreIn valid ids → AreIn (a ∷ valid) ids
AreIn-cons a valid [] h = tt
AreIn-cons a valid (id ∷ ids) h = (ground arith, AreIn-cons a valid ids h.1)

AreIn-self : (ids : List ℤ) → AreIn ids ids
AreIn-self [] = tt
AreIn-self (id ∷ ids) = (rw (==_refl id) refl, AreIn-cons id ids ids (AreIn-self ids))

AreIn-take :
    (n : ℕ) (ms : List WindowMessagePayload) (valid : List ℤ)
    → AreIn valid (message_ids ms)
    → AreIn valid (message_ids (take n ms))
AreIn-take zero ms valid h = tt
AreIn-take (suc n) [] valid h = tt
AreIn-take (suc n) (m ∷ ms) valid h = (h.0, AreIn-take n ms valid h.1)

module _ (p : Patterns) (as_json : Payload → Text) (messages : List WindowMessagePayload)
    (features : MessageFeatureSet) where
  heuristic_signals-AreFromWindow :
      Holds (AreFromWindow (message_ids messages)) (heuristic_signals p as_json messages features)
  unfolding heuristic_signals collect
  heuristic_signals-AreFromWindow =
      let valid = message_ids messages in
      let cited = AreIn-take 3 messages valid (AreIn-self valid) in
      let step = onto_result-Holds valid in
      step _ _ (make_signal-Holds valid _ _ _ _ _ cited) (
        step _ _ (make_signal-Holds valid _ _ _ _ _ cited) (
          step _ _ (make_signal-Holds valid _ _ _ _ _ cited) (
            step _ _ (make_signal-Holds valid _ _ _ _ _ cited) (
              step _ _ (make_signal-Holds valid _ _ _ _ _ cited)
                (step _ _ (make_signal-Holds valid _ _ _ _ _ cited) tt)))))

  or_heuristic-AreFromWindow :
      (signals : List AnalyticsSignal)
      → AreFromWindow (message_ids messages) signals
      → Holds
          (AreFromWindow (message_ids messages))
          (or_heuristic p as_json messages features signals)
  or_heuristic-AreFromWindow [] h = heuristic_signals-AreFromWindow
  or_heuristic-AreFromWindow (s ∷ signals) h = h

  with_safe-IsGrounded :
      (r : StructuredAnalysisResult) (signals : Result (List AnalyticsSignal))
      → Holds (AreFromWindow (message_ids messages)) signals
      → Holds
          (IsGrounded (message_ids messages))
          (with_safe p as_json (message_ids messages) r signals)
  with_safe-IsGrounded r (err e) h = tt
  with_safe-IsGrounded r (ok signals) h = record {
    claims_cited = safe_claims-AreCited (message_ids messages) r.claims;
    tasks_cited = safe_tasks-AreCited (message_ids messages) r.tasks;
    signals_in = h;
  }

  sanitize_result-IsGrounded :
      (r : StructuredAnalysisResult)
      → Holds (IsGrounded (message_ids messages)) (sanitize_result p as_json messages features r)
  unfolding sanitize_result
  sanitize_result-IsGrounded r = with_safe-IsGrounded r _ (
      or_heuristic-AreFromWindow (safe_signals (message_ids messages) r.analytics_signals)
        (safe_signals-AreFromWindow (message_ids messages) r.analytics_signals))

module _ (tools : Tools) (window_id : Text) (first : WindowMessagePayload)
    (rest : List WindowMessagePayload) (features : MessageFeatureSet) where
  abbrev IsSafe : Result StructuredAnalysisResult → Type 0
  IsSafe r = Holds (IsGrounded (message_ids (first ∷ rest))) r

  with_signals-IsGrounded :
      (signals : Result (List AnalyticsSignal))
      → Holds (AreFromWindow (message_ids (first ∷ rest))) signals
      → IsSafe (
          with_signals tools.patterns tools.as_json tools.has_task_hint window_id
            (first ∷ rest)
            features
            signals)
  with_signals-IsGrounded (err e) h = tt
  with_signals-IsGrounded (ok signals) h =
      let valid = message_ids (first ∷ rest) in
      record {
        claims_cited =
            heuristic_claims-AreCited valid first.tg_message_id features (AreIn-self valid).0;
        tasks_cited =
            hinted-AreCited valid tools.has_task_hint (first ∷ rest) [] (AreIn-self valid) tt;
        signals_in = h;
      }

  fall_back-IsGrounded : IsSafe (fall_back tools window_id (first ∷ rest) features)
  unfolding heuristic_analysis
  fall_back-IsGrounded =
      with_signals-IsGrounded
        (heuristic_signals tools.patterns tools.as_json (first ∷ rest) features)
        (heuristic_signals-AreFromWindow tools.patterns tools.as_json (first ∷ rest) features)

  sanitize_decoded-IsGrounded :
      (r : Result StructuredAnalysisResult)
      → IsSafe (sanitize_decoded tools window_id (first ∷ rest) features r)
  sanitize_decoded-IsGrounded (err e) = tt
  sanitize_decoded-IsGrounded (ok r) =
      sanitize_result-IsGrounded tools.patterns tools.as_json (first ∷ rest) features _

  parse_found-IsGrounded :
      (found : Option Text) → IsSafe (parse_found tools window_id (first ∷ rest) features found)
  parse_found-IsGrounded none = fall_back-IsGrounded
  parse_found-IsGrounded (some json) = sanitize_decoded-IsGrounded (tools.decode json)

  parse_answer-IsGrounded :
      (answer : Result Text) → IsSafe (parse_answer tools window_id (first ∷ rest) features answer)
  unfolding parse_analysis_payload
  parse_answer-IsGrounded (err e) = tt
  parse_answer-IsGrounded (ok raw) = parse_found-IsGrounded (tools.find_json raw)

  choose-IsGrounded :
      (r : StructuredAnalysisResult) (translated : Result StructuredAnalysisResult)
      → IsSafe (ok r)
      → IsSafe translated
      → IsSafe (choose tools window_id (first ∷ rest) features r translated)
  choose-IsGrounded r (err e) h t = tt
  choose-IsGrounded r (ok r') h t =
      elim (Bool-cases (is_foreign tools window_id (first ∷ rest) features r')) [
        | inl foreign ↦ rw foreign h
        | inr russian ↦ rw russian t
      ]

  module _ {Context : Type 0} (context : Context) where
    translate-IsGrounded :
        (client : Client Context) (r : Result StructuredAnalysisResult)
        → IsSafe r
        → IsSafe (translate tools window_id (first ∷ rest) features context client r)
    translate-IsGrounded client (err e) h = tt
    translate-IsGrounded client (ok r) h =
        elim (Bool-cases (is_foreign tools window_id (first ∷ rest) features r)) [
          | inr russian ↦ rw russian h
          | inl foreign ↦ rw foreign (
              choose-IsGrounded r _ h
                (parse_answer-IsGrounded (client.complete_text (translation_of r))))
        ]

    ok_or-IsGrounded :
        (r next : Result StructuredAnalysisResult)
        → IsSafe r
        → IsSafe next
        → IsSafe (ok_or tools window_id (first ∷ rest) features context r next)
    ok_or-IsGrounded (ok r) next h n = h
    ok_or-IsGrounded (err e) next h n = n

    -- What the router returns for a window that is not empty is grounded in it, whatever the providers
    -- answer and whether they raise: each claim and each task cites a message, and all that claims, tasks
    -- and signals cite are messages of the window.
    pub analyze-IsGrounded :
        (clients : List (Client Context))
        → Holds
            (IsGrounded (message_ids (first ∷ rest)))
            (analyze tools window_id (first ∷ rest) features context clients)
    unfolding analyze ask
    analyze-IsGrounded [] = fall_back-IsGrounded
    analyze-IsGrounded (client ∷ clients) = elim (Bool-cases client.is_available) [
      | inr away ↦ rw away (analyze-IsGrounded clients)
      | inl there ↦ rw there (
          ok_or-IsGrounded _ _
            (translate-IsGrounded client _ (
              parse_answer-IsGrounded
                (client.complete_text (analysis_of window_id (first ∷ rest) features context))))
            (analyze-IsGrounded clients))
    ]
