-- ===== src/Decision/Trace/Winner.antt =====
-- What the traces of `Trace` say of its plan.
use vortara.Base.{
  String, Bool, true, false, List, [], ◌∷◌, ◌++◌, length, ◌≤◌, ◌||◌, ◌&&◌, not, append-nil, ◌≡◌,
  refl, ◌∙◌, arith, if◌then◌else◌, Bool-cases, inl, inr,
}
use vortara.Config.{RuleConfig, DecisionsConfig}
use vortara.Decision.{Input, Plan, Checker, fired_before, apply_rule, empty_plan}
use vortara.Decision.FirstMatch.{triggered-with_default}
use vortara.Decision.Trace.{RuleTrace, new_trace, matched_trace, trace_loop, finish_trace, trace}
use vortara.Errors.{Result, ok, err, Result-cases}
use vortara.Runtime.{Runtime}

-- The rules that the traces mark as winners.
abbrev pub winners : List RuleTrace → List String
winners [] = []
winners (t ∷ ts) = let rest = winners ts in if t.winner then t.rule ∷ rest else rest

winners-append : (ts us : List RuleTrace) → winners (ts ++ us) ≡ winners ts ++ winners us
winners-append [] us = refl
winners-append (t ∷ ts) us = elim (Bool-cases t.winner) [
  | inl w ↦ rw w (rw (winners-append ts us))
  | inr w ↦ rw w (winners-append ts us)
]

-- The loop's state: the winners so far are the triggered rules, and there is one at most.
record Marks (won : Bool) (plan : Plan) (traces : List RuleTrace) : Type 0 where
  marked : winners traces ≡ plan.triggered_rules
  none_yet : won ≡ false → plan.triggered_rules ≡ []
  single : length plan.triggered_rules ≤ 1

Marks-passed :
    {won : Bool} {plan : Plan} {traces : List RuleTrace} (t : RuleTrace)
    → t.winner ≡ false
    → Marks won plan traces
    → Marks won plan (traces ++ t ∷ [])
Marks-passed {won} {plan} {traces} t w m = record {
  marked = winners-append traces (t ∷ []) ∙ rw w (append-nil _ ∙ m.marked);
  none_yet = m.none_yet;
  single = m.single;
}

module _ (now : String) (r : RuleConfig) where
  Marks-matched :
      {won : Bool} {plan : Plan} {traces : List RuleTrace} (b : Bool) (reason : String)
      → Marks won plan traces
      → Marks
          (won || b)
          (if b && not won then apply_rule now r reason plan else plan)
          (traces ++ matched_trace r (b, reason) won ∷ [])
  unfolding matched_trace apply_rule new_trace
  Marks-matched {won} {plan} {traces} false reason m =
      let same = Marks-passed {traces = traces} (matched_trace r (false, reason) won) refl m in
      record { marked = same.marked; none_yet = λ e. m.none_yet (ground arith); single = m.single }
  Marks-matched {won = true} {plan} {traces} true reason m =
      let same = Marks-passed {traces = traces} (matched_trace r (true, reason) true) refl m in
      record { marked = same.marked; none_yet = λ e. absurd (ground arith); single = m.single }
  Marks-matched {won = false} {plan} {traces} true reason m = record {
    marked = winners-append traces _ ∙ rw m.marked refl;
    none_yet = λ e. absurd (ground arith);
    single = rw (m.none_yet refl) (omega arith);
  }

module _ (rt : Runtime) (now : String) (inp : Input) (checker : Checker) where
  abbrev Marked : Plan × List RuleTrace × Result (Unit {0}) → Type 0
  Marked t = (winners t.1 ≡ t.0.triggered_rules) × (length t.0.triggered_rules ≤ 1)

  trace_loop-Marked :
      (rules : List RuleConfig) {won : Bool} {plan : Plan} {traces : List RuleTrace}
      → Marks won plan traces
      → Marked (trace_loop rt now inp checker rules won plan traces)
  unfolding trace_loop
  trace_loop-Marked [] m = (m.marked, m.single)
  trace_loop-Marked (r ∷ rules) {won} {plan} {traces} m =
      elim (Result-cases (fired_before checker r)) [
        | inl (e, p) ↦ rw (p, trace_loop) (m.marked, m.single)
        | inr (true, p) ↦ rw (p, trace_loop) (trace_loop-Marked rules (Marks-passed _ refl m))
        | inr (false, p) ↦ rw (p, trace_loop) (trace_loop-Marked rules (Marks-matched now r _ _ m))
      ]

  -- The traces mark as winners exactly the rules that the plan triggers, whether or not a look-up
  -- fails, and there is one at most.
  pub trace-winners :
      (cfg : DecisionsConfig)
      → let (plan, traces, _) = trace rt now cfg inp checker in
        (winners traces ≡ plan.triggered_rules) × (length plan.triggered_rules ≤ 1)
  unfolding trace
  trace-winners cfg = finished (trace_loop rt now inp checker cfg.rules false empty_plan []) (
      trace_loop-Marked cfg.rules {won = false} {plan = empty_plan} {traces = []}
        (record { marked = refl; none_yet = λ e. refl; single = omega arith }))
    where
      finished :
          (t : Plan × List RuleTrace × Result (Unit {0})) → Marked t → Marked (finish_trace cfg t)
      finished (p, ts, ok u) h = rw triggered-with_default h
      finished (p, ts, err e) h = h
