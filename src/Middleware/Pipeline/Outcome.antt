-- ===== src/Middleware/Pipeline/Outcome.antt =====
-- What `run_before_turn` returns, told from the results of the middlewares alone.
use privibe.Prelude.{
  or-false, String, ◌≡◌, ◌∙◌, refl, Bool, true, false, ◌||◌, Option, none, some, List, [], ◌∷◌,
  ◌++◌, map, append-nil, append_assoc,
}
use mathlib.Core.Option.{get_or}
use privibe.Middleware.{MiddlewareResult, Context, Outside}
use privibe.Middleware.Pipeline.{
  Middleware, Verdict, note, halt, skip, verdict, merged, before_turn, run_from, run_before_turn,
}
use privibe.Prelude.{ap, inl, inr, Bool-cases, ◌&&◌, truthy, or_empty, if◌then◌else◌}
use privibe.Middleware.{MiddlewareAction}
use privibe.Middleware.Pipeline.{join_paragraphs}
use privibe.Middleware.{Reason}

-- The actions that stop the turn or ask for a compaction.
abbrev pub ends_turn : MiddlewareAction → Bool
ends_turn MiddlewareAction.stop = true
ends_turn MiddlewareAction.compact = true
ends_turn MiddlewareAction.inject_message = false
ends_turn MiddlewareAction.continue = false

-- The action that brings a message.
abbrev pub injects : MiddlewareAction → Bool
injects MiddlewareAction.inject_message = true
injects MiddlewareAction.stop = false
injects MiddlewareAction.compact = false
injects MiddlewareAction.continue = false

module _ {Float : Type 0} where
  -- In terms of the verdicts, as the loop goes: the first result that halts.
  first_halt : List (MiddlewareResult Float) → Option (MiddlewareResult Float)
  first_halt [] = none
  first_halt (r ∷ rs) = elim (verdict r) [ halt ↦ some r | _ ↦ first_halt rs ]

  noted : List (MiddlewareResult Float) → List String
  noted [] = []
  noted (r ∷ rs) = elim (verdict r) [ note text ↦ text ∷ noted rs | _ ↦ noted rs ]

  suspended : List (MiddlewareResult Float) → Bool
  suspended [] = false
  suspended (r ∷ rs) = elim (verdict r) [
    | note text ↦ r.suspend_tools || suspended rs
    | _ ↦ suspended rs
  ]

  abbrev outcome_from : List String → Bool → List (MiddlewareResult Float) → MiddlewareResult Float
  outcome_from texts suspend rs =
      get_or (first_halt rs) (merged (texts ++ noted rs) (suspend || suspended rs))

  -- In terms of the results alone: those that bring a message that is not empty.
  abbrev pub brings : MiddlewareResult Float → Bool
  brings r = injects r.action && truthy r.message

  abbrev pub first_ending : List (MiddlewareResult Float) → Option (MiddlewareResult Float)
  first_ending [] = none
  first_ending (r ∷ rs) = let rest = first_ending rs in if ends_turn r.action then some r else rest

  abbrev pub messages_of : List (MiddlewareResult Float) → List String
  messages_of [] = []
  messages_of (r ∷ rs) =
      let rest = messages_of rs in if brings r then or_empty r.message ∷ rest else rest

  abbrev pub any_suspends : List (MiddlewareResult Float) → Bool
  any_suspends [] = false
  any_suspends (r ∷ rs) = (brings r && r.suspend_tools) || any_suspends rs

  abbrev pub all_in_one : List String → Bool → MiddlewareResult Float
  all_in_one [] suspend = record {
    action = MiddlewareAction.continue;
    message = none;
    reason = none;
    suspend_tools = false;
  }
  all_in_one (t ∷ ts) suspend = record {
    action = MiddlewareAction.inject_message;
    message = some (join_paragraphs (t ∷ ts));
    reason = none;
    suspend_tools = suspend;
  }

  -- The first ending result if there is one; else all the messages in one, with the tools suspended
  -- if one of those that brought a message suspends them.
  abbrev pub outcome : List (MiddlewareResult Float) → MiddlewareResult Float
  outcome rs = get_or (first_ending rs) (all_in_one (messages_of rs) (any_suspends rs))

  abbrev Agree : List (MiddlewareResult Float) → Type 0
  Agree rs =
      (first_halt rs ≡ first_ending rs)
      × (noted rs ≡ messages_of rs)
      × (suspended rs ≡ any_suspends rs)

  -- The verdict on a result says just that.
  Agree-cons :
      (a : MiddlewareAction) (message : Option String) (reason : Option (Reason Float))
      (suspend : Bool) (rs : List (MiddlewareResult Float))
      → Agree rs
      → Agree
          (record { action = a; message = message; reason = reason; suspend_tools = suspend } ∷ rs)
  unfolding first_halt noted suspended verdict
  Agree-cons MiddlewareAction.stop message reason suspend rs (halts, notes, suspends) =
      (refl, notes, suspends)
  Agree-cons MiddlewareAction.compact message reason suspend rs (halts, notes, suspends) =
      (refl, notes, suspends)
  Agree-cons MiddlewareAction.continue message reason suspend rs h = h
  Agree-cons MiddlewareAction.inject_message message reason suspend rs (halts, notes, suspends) =
      elim (Bool-cases (truthy message)) [
        | inl full ↦
            rw (full, first_halt, noted, suspended, verdict)
              (halts, ap (or_empty message ∷◌) notes, ap (suspend ||◌) suspends)
        | inr empty ↦ rw (empty, first_halt, noted, suspended, verdict) (halts, notes, suspends)
      ]

  all-Agree : (rs : List (MiddlewareResult Float)) → Agree rs
  unfolding first_halt noted suspended
  all-Agree [] = (refl, refl, refl)
  all-Agree (r ∷ rs) = Agree-cons r.action r.message r.reason r.suspend_tools rs (all-Agree rs)

  merged-all_in_one :
      (texts : List String) (suspend : Bool) → merged texts suspend ≡ all_in_one texts suspend
  unfolding merged
  merged-all_in_one [] suspend = refl
  merged-all_in_one (t ∷ ts) suspend = refl

  outcome_from-outcome :
      (rs : List (MiddlewareResult Float)) → outcome_from [] false rs ≡ outcome rs
  outcome_from-outcome rs =
      let (halts, notes, suspends) = all-Agree rs in
      rw (halts, notes, suspends, merged-all_in_one) refl

or_assoc : (a b c : Bool) → ((a || b) || c) ≡ (a || (b || c))
or_assoc true b c = refl
or_assoc false b c = refl

module _ {Float : Type 0} where
  regroup :
      (texts : List String) (text : String) (a b : Bool) (rs : List (MiddlewareResult Float))
      → outcome_from (texts ++ text ∷ []) (a || b) rs
        ≡ get_or (first_halt rs) (merged (texts ++ text ∷ noted rs) (a || (b || suspended rs)))
  regroup texts text a b rs = rw (append_assoc texts (text ∷ []), or_assoc a)

module _ (o : Outside) (ctx : Context o.Float) where
  pub results : List (Middleware o.Float) → List (MiddlewareResult o.Float)
  results = map (λ mw. (before_turn o ctx mw).0)

  run_from-outcome :
      (texts : List String) (suspend : Bool) (mws : List (Middleware o.Float))
      → (run_from o ctx texts suspend mws).0 ≡ outcome_from texts suspend (results mws)
  unfolding run_from first_halt noted suspended results
  run_from-outcome texts suspend [] = rw (append-nil, or-false)
  run_from-outcome texts suspend (mw ∷ mws) =
      on_verdict (verdict (before_turn o ctx mw).0) refl (run_from-outcome texts suspend mws)
        (λ text.
          run_from-outcome (texts ++ text ∷ []) (suspend || (before_turn o ctx mw).0.suspend_tools)
            mws)
    where
      on_verdict :
          (v : Verdict)
          → verdict (before_turn o ctx mw).0 ≡ v
          → (run_from o ctx texts suspend mws).0 ≡ outcome_from texts suspend (results mws)
          → ((text : String)
              → (run_from o ctx
                  (texts ++ text ∷ [])
                  (suspend || (before_turn o ctx mw).0.suspend_tools)
                  mws).0
                ≡ outcome_from
                    (texts ++ text ∷ [])
                    (suspend || (before_turn o ctx mw).0.suspend_tools)
                    (results mws))
          → (run_from o ctx texts suspend (mw ∷ mws)).0
            ≡ outcome_from texts suspend (results (mw ∷ mws))
      on_verdict halt e skipped noted_text = rw (e, run_from, first_halt)
      on_verdict skip e skipped noted_text = rw (e, run_from, first_halt, noted, suspended) skipped
      on_verdict (note text) e skipped noted_text =
          rw (e, run_from, first_halt, noted, suspended)
            (noted_text text
              ∙ regroup texts text suspend (before_turn o ctx mw).0.suspend_tools (results mws))

  -- A middleware that stops the turn or asks for a compaction decides the result, whatever messages
  -- were gathered before it; if none does, the result injects all the messages that are not empty at once,
  -- joined as paragraphs, and suspends the tools if one of them came with that, and without a message it is
  -- to go on.
  pub run_before_turn-outcome :
      (mws : List (Middleware o.Float)) → (run_before_turn o ctx mws).0 ≡ outcome (results mws)
  unfolding run_before_turn
  run_before_turn-outcome mws = run_from-outcome [] false mws ∙ outcome_from-outcome (results mws)
