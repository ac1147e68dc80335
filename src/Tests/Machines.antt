-- ===== src/Tests/Machines.antt =====
-- local-modules/@bayou/{state-machine/StateMachine,promise-util/Condition,promise-util/Mutex}.js at
-- concrete machines. Handlers are numbers: handler 1 throws, and the others leave the machine.
use bayou.Prelude.{
  ℕ, ◌≤◌, ◌≡◌, ◌≢◌, refl, Bool, true, false, none, some, List, [], ◌∷◌, length, ok, String, ◌==◌,
  string_eq, nat_eq, if◌then◌else◌,
}
use bayou.JsMap
use bayou.JsMap.{JsMap}
use bayou.PromiseUtil.Condition
use bayou.PromiseUtil.Condition.{Condition, Wait, now, later}
use bayou.PromiseUtil.Condition.Laws.{IsValid, operations-IsValid}
use bayou.PromiseUtil.Mutex.{
  Mutex, unlocked, lock, unlock, resume, Reach, here, next, locks, unlocks,
}
use bayou.PromiseUtil.Mutex.Exclusion.{
  Orderly, stays, then_locks, then_unlocks, then_resumes, one_holder, intruder_holds,
}
use bayou.StateMachine.Table
use bayou.StateMachine.Table.{
  Handler, direct, through, Method, Table, handler_of, make_handler_map, collect, state_names,
  fill_states, fill_row, fill_events,
}
use bayou.StateMachine.Table.Laws.{chosen, make_handler_map-eq}
use bayou.StateMachine.Machine.{
  Event, Machine, Validation, valid, replaced, Outcome, done, threw, stopped, waits, dispatched,
  blank, enqueue_or_push, check_args, enter_state, when_state, call_handler, dispatch_event,
  dispatch_one,
}
use bayou.StateMachine.Machine.Laws.{IsServed}
use bayou.StateMachine.Machine.States.{enter-when, condition_of}
use bayou.StateMachine.Machine.Servicer.{
  dispatch_event-IsServed, waits-enqueue, error-stopped, machine_of,
}

abbrev events : List String
events = "error" ∷ "go" ∷ "stop" ∷ []

abbrev methods : List (Method ℕ)
methods =
    record { state = "any"; event = "any"; body = 0 }
    ∷ record { state = "any"; event = "error"; body = 1 }
    ∷ record { state = "idle"; event = "go"; body = 2 }
    ∷ record { state = "busy"; event = "any"; body = 3 }
    ∷ []

abbrev busy_row : Table.Row ℕ
busy_row =
    ("error", through "error" (direct 3))
    ∷ ("go", through "go" (direct 3))
    ∷ ("stop", through "stop" (direct 3))
    ∷ []

abbrev idle_row : Table.Row ℕ
idle_row = ("go", direct 2) ∷ ("error", direct 1) ∷ ("stop", through "stop" (direct 0)) ∷ []

abbrev table : Table ℕ
table = ("idle", idle_row) ∷ ("busy", busy_row) ∷ []

make_handler_map-eq_example :
    (t : Table ℕ) × (make_handler_map events methods ≡ ok t)
    × (handler_of "busy" "error" t ≡ chosen "busy" "error" methods)
make_handler_map-eq_example =
    make_handler_map-eq events methods "busy" "error" refl refl refl refl refl refl

-- The table of these methods.
table_made : make_handler_map events methods ≡ ok table
unfolding make_handler_map collect state_names fill_states fill_row fill_events JsMap.get JsMap.set
    JsMap.delete
table_made = refl

abbrev accepts : String → ℕ → Validation ℕ
accepts name args = valid

abbrev replaces : String → ℕ → Validation ℕ
replaces name args = replaced 0

abbrev run : Handler ℕ → ℕ → Machine ℕ → Outcome ℕ
run (direct h) args m = if h == 1 then threw m args else done m
run (through e h) args m = run h args m

abbrev off : Condition
off = record { value = false; became_false = none; became_true = none; next = 0; resolved = [] }

abbrev on : Condition
on = record { value = true; became_false = none; became_true = none; next = 0; resolved = [] }

abbrev error_event : Event ℕ
error_event = record { name = "error"; args = 7 }

abbrev idle : Machine ℕ
idle = record blank { state_name = some "idle" }

-- An idle machine with an error to handle.
abbrev failing : Machine ℕ
failing = record idle { event_queue = some (error_event ∷ []); any_event_pending = on }

run_keeps : (h : Handler ℕ) (a : ℕ) (m : Machine ℕ) → IsServed m → IsServed (machine_of (run h a m))
run_keeps (direct h) a m s = kept (h == 1)
  where
    kept : (b : Bool) → IsServed (machine_of (if b then threw m a else done m))
    kept true = s
    kept false = s
run_keeps (through e h) a m s = run_keeps h a m s

idle-IsServed : IsServed idle
idle-IsServed = (tt, (refl, tt, tt))

abbrev go_event : Event ℕ
go_event = record { name = "go"; args = 1 }

dispatched_go :
    dispatch_event accepts table run 0 go_event idle ≡ ok (record idle { event_count = 1 })
unfolding dispatch_event call_handler handler_of JsMap.get
dispatched_go = refl

dispatch_event-IsServed_example : IsServed (record idle { event_count = 1 })
dispatch_event-IsServed_example =
    dispatch_event-IsServed accepts table run 0 run_keeps go_event idle idle-IsServed dispatched_go

abbrev waiting : Machine ℕ
waiting = record idle { any_event_pending = record off { became_true = some 0; next = 1 } }

idle_waits : dispatch_one accepts table run 0 idle ≡ waits waiting (later 0)
unfolding dispatch_one Condition.set_value Condition.when_x
idle_waits = refl

abbrev woken : Machine ℕ
woken = record idle {
  event_queue = some (record { name = "go"; args = 5 } ∷ []);
  any_event_pending = record on { next = 1; resolved = 0 ∷ [] };
}

waiting-woken : enqueue_or_push accepts true "go" 5 waiting ≡ ok woken
unfolding enqueue_or_push check_args Condition.set_value
waiting-woken = refl

waits-enqueue_example :
    (idle.event_queue ≡ some [])
    × ((p : ℕ) × (later 0 ≡ later p)
        × (woken.any_event_pending.resolved ≡ p ∷ waiting.any_event_pending.resolved))
waits-enqueue_example =
    waits-enqueue accepts table run 0 idle true "go" 5 idle-IsServed idle_waits waiting-woken

error_thrown :
    call_handler accepts table run 0 error_event (record failing { event_queue = some [] })
    ≡ threw (record failing { event_queue = some [] }) 7
unfolding call_handler handler_of JsMap.get
error_thrown = refl

error-stopped_example :
    (n : Machine ℕ) × (dispatch_one accepts table run 0 failing ≡ dispatched (ok n))
    × (dispatch_one accepts table run 0 n ≡ stopped)
    × ((enqueue : Bool) (name : String) (args : ℕ) (o : Machine ℕ)
        → enqueue_or_push accepts enqueue name args n ≢ ok o)
error-stopped_example =
    error-stopped accepts table run 0 failing error_event []
      (record failing { event_queue = some [] }) 7 refl refl error_thrown

waited-IsValid : IsValid (condition_of "busy" idle)
unfolding JsMap.get
waited-IsValid = (refl, tt, tt)

waited_off : (condition_of "busy" idle).value ≡ false
unfolding JsMap.get
waited_off = refl

enter-when_example :
    (p : ℕ) × (c : Condition) × ((when_state "busy" idle).1 ≡ later p)
    × ((enter_state "busy" (when_state "busy" idle).0).dropped ≡ c ∷ [])
    × (c.resolved ≡ p ∷ (condition_of "busy" idle).resolved)
    × ((enter_state "busy" (when_state "busy" idle).0).state_name ≡ some "busy")
    × ((when_state "busy" (enter_state "busy" (when_state "busy" idle).0)).1 ≡ now)
enter-when_example = enter-when "busy" idle refl refl waited-IsValid waited_off

off-IsValid : IsValid off
off-IsValid = (refl, tt, tt)

operations-IsValid_example :
    IsValid (Condition.make true)
    × IsValid (Condition.set_value true off)
    × IsValid (Condition.on_off off)
    × IsValid (Condition.when_x true off).0
operations-IsValid_example = operations-IsValid true off off-IsValid

-- Two calls, the first of which holds the lock, and then its unlock.
abbrev locked_once : Mutex
locked_once = record unlocked { locked_by = some 0; holders = 0 ∷ []; next_key = 1 }

abbrev locked_twice : Mutex
locked_twice = record locked_once { waiters = 1 ∷ []; next_key = 2 }

abbrev handed : Mutex
handed = record {
  locked_by = none;
  waiters = 1 ∷ [];
  released = 1 ∷ [];
  holders = [];
  next_key = 2;
}

one_locked : lock unlocked ≡ locked_once
unfolding lock
one_locked = refl

two_locked : lock locked_once ≡ locked_twice
unfolding lock
two_locked = refl

unlocked_first : unlock 0 locked_twice ≡ ok handed
unfolding unlock
unlocked_first = refl

Reach-twice : Reach unlocked locked_twice
Reach-twice = rw⁻¹ two_locked (rw⁻¹ one_locked (next (next here locks) locks))

Reach-handed : Reach unlocked handed
Reach-handed = next Reach-twice (unlocks 0 refl unlocked_first)

Orderly-twice : Orderly unlocked locked_twice
Orderly-twice = rw⁻¹ two_locked (then_locks (rw⁻¹ one_locked (then_locks stays refl)) refl)

Orderly-resumed : Orderly unlocked (resume 1 handed)
Orderly-resumed = then_resumes (then_unlocks Orderly-twice 0 refl unlocked_first) 1 refl

one_holder_example : length (resume 1 handed).holders ≤ 1
one_holder_example = one_holder Orderly-resumed

intruder_holds_example :
    (n : Mutex) × Reach unlocked n × (n.holders ≡ 1 ∷ 2 ∷ []) × (n.locked_by ≡ some 1)
intruder_holds_example = intruder_holds 1 handed Reach-handed refl refl
