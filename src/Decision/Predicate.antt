-- ===== src/Decision/Predicate.antt =====
-- The predicates that a `when` may say, with their meaning, and their encoding as a WhenConfig with
-- exactly one field set.
use vortara.Base.{String, Bool, true, false, not, ◌&&◌, ◌||◌, List, [], ◌∷◌, none, some, ◌≡◌, refl}
use vortara.Config.{TransitionedConfig, WhenConfig, Whens, when, no_subs, sub, nil_when, at}
use vortara.Decision.{
  Input, Verdict, eval_when, any_loop, all_loop, any_step, all_step, all_verdict,
}
use vortara.Diff.{transitioned, only_contains}
use vortara.Runtime.{Runtime}

-- A list of predicates has a first member, as the empty list is not encoded; and a list of fields.
mutual
  pub data Predicate : Type 0 where
    first_seen fingerprint_changed : Predicate
    transition : TransitionedConfig → Predicate
    only_changed : String → List String → Predicate
    any_of all_of : Predicate → Predicates → Predicate
    negation : Predicate → Predicate

  pub data Predicates : Type 0 where
    nil : Predicates
    cons : Predicate → Predicates → Predicates

unfoldable mutual
  pub encode : Predicate → WhenConfig
  encode first_seen = when true false none [] no_subs no_subs nil_when
  encode fingerprint_changed = when false true none [] no_subs no_subs nil_when
  encode (transition t) = when false false (some t) [] no_subs no_subs nil_when
  encode (only_changed f fs) = when false false none (f ∷ fs) no_subs no_subs nil_when
  encode (any_of p ps) =
      when false false none [] (sub (at (encode p)) (encode_all ps)) no_subs nil_when
  encode (all_of p ps) =
      when false false none [] no_subs (sub (at (encode p)) (encode_all ps)) nil_when
  encode (negation p) = when false false none [] no_subs no_subs (at (encode p))

  pub encode_all : Predicates → Whens
  encode_all nil = no_subs
  encode_all (cons p ps) = sub (at (encode p)) (encode_all ps)

unfoldable mutual
  -- The meaning, with the connectives of Boolean logic.
  pub holds : Runtime → Input → Predicate → Bool
  holds rt inp first_seen = inp.is_first_seen
  holds rt inp fingerprint_changed = inp.fingerprint_changed
  holds rt inp (transition t) = transitioned rt inp.diff t.field t.from t.to
  holds rt inp (only_changed f fs) = only_contains inp.diff (f ∷ fs)
  holds rt inp (any_of p ps) = holds rt inp p || some_hold rt inp ps
  holds rt inp (all_of p ps) = holds rt inp p && all_hold rt inp ps
  holds rt inp (negation p) = not (holds rt inp p)

  pub some_hold : Runtime → Input → Predicates → Bool
  some_hold rt inp nil = false
  some_hold rt inp (cons p ps) = holds rt inp p || some_hold rt inp ps

  pub all_hold : Runtime → Input → Predicates → Bool
  all_hold rt inp nil = true
  all_hold rt inp (cons p ps) = holds rt inp p && all_hold rt inp ps

any_step-or : (v rest : Verdict) → (any_step (some v) rest).0 ≡ v.0 || rest.0
any_step-or (true, r) rest = refl
any_step-or (false, r) rest = refl

all_step-and :
    (v : Verdict) (rest : Bool × String × List String) → (all_step (some v) rest).0 ≡ v.0 && rest.0
all_step-and (true, r) (b, s, rest) = refl
all_step-and (false, r) rest = refl

all_verdict-first : (t : Bool × String × List String) → (all_verdict t).0 ≡ t.0
all_verdict-first (true, r, t) = refl
all_verdict-first (false, r, t) = refl

mutual
  unfolding eval_when encode holds

  eval_when-holds :
      (rt : Runtime) (inp : Input) (p : Predicate)
      → (eval_when rt inp (encode p)).0 ≡ holds rt inp p
  eval_when-holds rt inp first_seen = refl
  eval_when-holds rt inp fingerprint_changed = refl
  eval_when-holds rt inp (transition t) = refl
  eval_when-holds rt inp (only_changed f fs) = refl
  eval_when-holds rt inp (any_of p ps) =
      rw (any_step-or, eval_when-holds rt inp p, any_loop-holds rt inp ps)
  eval_when-holds rt inp (all_of p ps) =
      rw (all_verdict-first, all_step-and, eval_when-holds rt inp p, all_loop-holds rt inp ps)
  eval_when-holds rt inp (negation p) = rw (eval_when-holds rt inp p)

  any_loop-holds :
      (rt : Runtime) (inp : Input) (ps : Predicates)
      → (any_loop rt inp (encode_all ps)).0 ≡ some_hold rt inp ps
  any_loop-holds rt inp nil = refl
  any_loop-holds rt inp (cons p ps) =
      rw (any_step-or, eval_when-holds rt inp p, any_loop-holds rt inp ps)

  all_loop-holds :
      (rt : Runtime) (inp : Input) (ps : Predicates)
      → (all_loop rt inp (encode_all ps)).0 ≡ all_hold rt inp ps
  all_loop-holds rt inp nil = refl
  all_loop-holds rt inp (cons p ps) =
      rw (all_step-and, eval_when-holds rt inp p, all_loop-holds rt inp ps)

-- `evalWhen` decides a well-formed predicate, one with a single field set and no empty list, by its
-- meaning in Boolean logic.
pub eval_when-encode :
    (rt : Runtime) (inp : Input) (p : Predicate) → (eval_when rt inp (encode p)).0 ≡ holds rt inp p
eval_when-encode = eval_when-holds
