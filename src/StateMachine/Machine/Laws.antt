-- ===== src/StateMachine/Machine/Laws.antt =====
-- About the queue of events of local-modules/@bayou/state-machine/StateMachine.js.
use bayou.Prelude.{
  ◌≡◌, ◌≢◌, refl, Bool, true, Option, none, some, List, [], ◌∷◌, ◌++◌, String, string_eq, ok,
  if◌then◌else◌, arith, subst, Option-cases, inl, inr,
}
use bayou.PromiseUtil.Condition.{set_value}
use bayou.PromiseUtil.Condition.Laws.{IsValid, set_value-IsValid, set_value-value}
use bayou.StateMachine.Machine.{Event, Machine, Validation, enqueue_or_push}

-- While the queue has an event, or the machine has aborted, the servicer is not left to wait.
abbrev pub IsAwake : {A : Type 0} → Option (List (Event A)) → Bool → Type 0
IsAwake (some []) b = Unit
IsAwake _ b = b ≡ true

abbrev pub IsServed : {A : Type 0} → Machine A → Type 0
IsServed m = IsAwake m.event_queue m.any_event_pending.value × IsValid m.any_event_pending

IsAwake-true : {A : Type 0} (q : Option (List (Event A))) {b : Bool} → b ≡ true → IsAwake q b
IsAwake-true (some []) e = tt
IsAwake-true (some (_ ∷ _)) e = e
IsAwake-true none e = e

module _ {A : Type 0} (validator : String → A → Validation A) where
  abbrev pub queued : Bool → String → A → List (Event A) → Machine A → Machine A
  queued enqueue name args q m =
      let event : Event A = record { name = name; args = args } in
      record m {
        event_queue = some (if enqueue then q ++ event ∷ [] else event ∷ q);
        any_event_pending = set_value true m.any_event_pending;
      }

  pub enqueue_ok :
      (enqueue : Bool) (name : String) (args : A) (m : Machine A) {n : Machine A}
      → enqueue_or_push validator enqueue name args m ≡ ok n
      → (q : List (Event A)) × (queued enqueue name args q m ≡ n)
  unfolding enqueue_or_push
  enqueue_ok enqueue name args m {n} e = elim (Option-cases m.event_queue) [
    | inl p ↦ absurd (ground arith)
    | inr (q, p) ↦ (q, ground arith)
  ]

  pub no_queue :
      (enqueue : Bool) (name : String) (args : A) (m o : Machine A)
      → m.event_queue ≡ none
      → enqueue_or_push validator enqueue name args m ≢ ok o
  unfolding enqueue_or_push
  no_queue enqueue name args m o e = ground arith

  pub enqueue-IsServed :
      (enqueue : Bool) (name : String) (args : A) (m : Machine A) {n : Machine A}
      → IsServed m
      → enqueue_or_push validator enqueue name args m ≡ ok n
      → IsServed n × (n.any_event_pending ≡ set_value true m.any_event_pending)
  enqueue-IsServed enqueue name args m (a, v) e =
      let (q, p) = enqueue_ok enqueue name args m e in
      let w = λ (n : Machine A).
        IsServed n × (n.any_event_pending ≡ set_value true m.any_event_pending) in
      subst w p (
        (
          IsAwake-true (queued enqueue name args q m).event_queue
              (set_value-value true m.any_event_pending),
          set_value-IsValid true m.any_event_pending v,
        ),
        refl,
      )
