-- ===== src/State/Observe.antt =====
-- What a run reads back from a store: the states of entities and the rules that have fired. The laws
-- say that the other operations leave both alone; each store is to fill them.
use vortara.Base.{ℕ, String, ◌≡◌, refl, ◌∙◌}
use vortara.State.{StateStore, DecisionEvent, RunStats}

-- Two states of a store hold the same entity states and rule firings.
pub record SameEntities {S : Type 0} (store : StateStore S) (s t : S) : Type 0 where
  pub states : (n d k : String) → store.get_entity_state s n d k ≡ store.get_entity_state t n d k
  pub firings : (n d k r : String) → store.has_rule_fired s n d k r ≡ store.has_rule_fired t n d k r

module _ {S : Type 0} {store : StateStore S} where
  pub SameEntities-refl : (s : S) → SameEntities store s s
  SameEntities-refl s = record { states = λ n d k. refl; firings = λ n d k r. refl }

  pub SameEntities-trans :
      {s t u : S} → SameEntities store s t → SameEntities store t u → SameEntities store s u
  SameEntities-trans a b = record {
    states = λ n d k. a.states n d k ∙ b.states n d k;
    firings = λ n d k r. a.firings n d k r ∙ b.firings n d k r;
  }

module _ {S : Type 0} {store : StateStore S} where
  pub SameEntities-eq : {s t u : S} → s ≡ t → SameEntities store t u → SameEntities store s u
  SameEntities-eq e h = rw e h

pub record StoreLaws {S : Type 0} (store : StateStore S) : Type 0 where
  pub record_decision :
      (s : S) (ev : DecisionEvent) → SameEntities store (store.record_decision s ev).0 s
  pub start_run :
      (now : ℕ) (s : S) (n mode : String) → SameEntities store (store.start_run now s n mode).0 s
  pub finish_run :
      (now : ℕ) (s : S) (id : ℕ) (stats : RunStats)
      → SameEntities store (store.finish_run now s id stats).0 s
  pub mark_delivered :
      (s : S) (r n d : String) → SameEntities store (store.mark_delivered s r n d).0 s
  pub begin_batch : (s : S) → SameEntities store (store.begin_batch s).0 s
  pub commit_batch : (s : S) → SameEntities store (store.commit_batch s).0 s
  pub rollback_batch : (s : S) → SameEntities store (store.rollback_batch s).0 s
  pub lock_run :
      (now : ℕ) (s : S) (n o : String) (ttl : ℕ)
      → SameEntities store (store.lock_run now s n o ttl).0 s
  pub unlock_run : (s : S) (n : String) → SameEntities store (store.unlock_run s n).0 s
