-- ===== src/StateMachine/Machine.antt =====
-- local-modules/@bayou/state-machine/StateMachine.js, but for the table. What validators and
-- handlers do is a parameter; a handler's run is given by the machine that it leaves.
pub mod Laws
pub mod States
pub mod Servicer
use bayou.Prelude.{
  ℕ, ◌+◌, ◌≡◌, Bool, true, false, Option, none, some, List, [], ◌∷◌, ◌++◌, String, string_eq,
  Result, ok, err, Failure, bad_use, ◌>>=◌, ◌==◌, if◌then◌else◌,
}
use bayou.JsMap
use bayou.JsMap.{JsMap}
use bayou.PromiseUtil.Condition
use bayou.PromiseUtil.Condition.{Condition, Wait, now, later}
use bayou.StateMachine.Table.{Handler, Table, handler_of}

pub record Event (A : Type 0) : Type 0 where
  pub name : String
  pub args : A

pub record Machine (A : Type 0) : Type 0 where
  -- `null` until the constructor enters the first state.
  pub state_name : Option String
  -- `null` once the machine has aborted.
  pub event_queue : Option (List (Event A))
  pub any_event_pending : Condition
  pub state_conditions : JsMap String Condition
  pub event_count : ℕ
  -- The conditions that were dropped from `_stateConditions`, after their `onOff()`, the latest first.
  pub dropped : List Condition

-- What a validator does: nothing, new arguments, another value, or an exception.
pub data Validation (A : Type 0) : Type 0 where
  valid : Validation A
  replaced : A → Validation A
  not_array : Validation A
  throws : Failure → Validation A

-- The machine that a handler leaves, and the arguments for `error` if it throws.
pub data Outcome (A : Type 0) : Type 0 where
  done : Machine A → Outcome A
  threw : Machine A → A → Outcome A

-- What a round of the loop of `_dispatchOne()` comes to.
pub data Round (A : Type 0) : Type 0 where
  stopped : Round A
  waits : Machine A → Wait → Round A
  dispatched : Result (Machine A) → Round A

module _ {A : Type 0} (validator : String → A → Validation A) where
  -- `validArgs`, and the check of it.
  unfoldable pub check_args : String → A → Result A
  check_args name args = elim (validator name args) [
    | valid ↦ ok args
    | replaced new ↦ ok new
    | not_array ↦ err bad_use
    | throws e ↦ err e
  ]

  -- `enqueueOrPush()`, which makes the event of `args`, and not of what the validator gives.
  unfoldable pub enqueue_or_push : Bool → String → A → Machine A → Result (Machine A)
  unfolding check_args
  enqueue_or_push enqueue name args m = do
    valid_args ← check_args name args
    elim m.event_queue [
      | none ↦ err bad_use
      | some q ↦
          let event : Event A = record { name = name; args = args } in
          ok (record m {
            event_queue = some (if enqueue then q ++ event ∷ [] else event ∷ q);
            any_event_pending = Condition.set_value true m.any_event_pending;
          })
    ]

module _ {A : Type 0} where
  -- The method `s_<name>()`.
  unfoldable pub enter_state : String → Machine A → Machine A
  enter_state name m =
      if elim m.state_name [ some s ↦ s == name | none ↦ false ]
      then m
      else elim (JsMap.get name m.state_conditions) [
        | none ↦ record m { state_name = some name }
        | some c ↦ record m {
          state_name = some name;
          state_conditions = JsMap.delete name m.state_conditions;
          dropped = Condition.on_off c ∷ m.dropped;
        }
      ]

  -- The method `when_<name>()`.
  unfoldable pub when_state : String → Machine A → Machine A × Wait
  when_state name m =
      if elim m.state_name [ some s ↦ s == name | none ↦ false ]
      then (m, now)
      else let c : Condition = elim (JsMap.get name m.state_conditions) [
        | some c ↦ c
        | none ↦ Condition.make false
      ] in
        (
          record m {
            state_conditions = JsMap.set name (Condition.when_x true c).0 m.state_conditions;
          },
          (Condition.when_x true c).1,
        )

  -- A machine before its constructor enters the first state, and after.
  abbrev pub blank : Machine A
  blank = record {
    state_name = none;
    event_queue = some [];
    any_event_pending = Condition.make false;
    state_conditions = [];
    event_count = 0;
    dropped = [];
  }

  abbrev pub count_event : Machine A → Machine A
  count_event m = record m { event_count = m.event_count + 1 }

  unfoldable pub make : String → Machine A
  unfolding enter_state
  make initial_state = enter_state initial_state blank

module _ {A H : Type 0} (validator : String → A → Validation A) (handlers : Table H)
    (run : Handler H → A → Machine A → Outcome A) (type_error : A) where
  -- The call of the handler. The field of a missing entry throws.
  unfoldable pub call_handler : Event A → Machine A → Outcome A
  call_handler event m = elim m.state_name [
    | none ↦ threw m type_error
    | some s ↦ elim (handler_of s event.name handlers) [
      | none ↦ threw m type_error
      | some h ↦ run h event.args m
    ]
  ]

  -- `_dispatchEvent()`
  unfoldable pub dispatch_event : Event A → Machine A → Result (Machine A)
  unfolding call_handler enqueue_or_push
  dispatch_event event m = elim (call_handler event m) [
    | done n ↦ ok (count_event n)
    | threw n e ↦
        if event.name == "error"
        then ok (record n {
          event_queue = none;
          any_event_pending = Condition.set_value true n.any_event_pending;
        })
        else (enqueue_or_push validator true "error" e n >>= λ o. ok (count_event o))
  ]

  unfoldable pub dispatch_one : Machine A → Round A
  unfolding dispatch_event
  dispatch_one m = elim m.event_queue [
    | none ↦ stopped
    | some [] ↦
        let pending = Condition.when_x true (Condition.set_value false m.any_event_pending) in
        waits (record m { any_event_pending = pending.0 }) pending.1
    | some (event ∷ rest) ↦ dispatched (dispatch_event event (record m { event_queue = some rest }))
  ]
