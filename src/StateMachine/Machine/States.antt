-- ===== src/StateMachine/Machine/States.antt =====
-- About the promises for states of local-modules/@bayou/state-machine/StateMachine.js.
use bayou.Prelude.{ℕ, ◌≡◌, true, false, none, some, ◌∷◌, String, string_eq, ◌==◌, arith, ◌∙◌}
use bayou.JsMap
use bayou.JsMap.{JsMap, get-set, get-delete}
use bayou.PromiseUtil.Condition
use bayou.PromiseUtil.Condition.{Condition, Wait, now, later, set_value, on_off, when_x}
use bayou.PromiseUtil.Condition.Laws.{IsValid, on_off-when_x}
use bayou.StateMachine.Machine.{Machine, enter_state, when_state}

module _ {A : Type 0} where
  -- The condition that waits for a state.
  abbrev pub condition_of : String → Machine A → Condition
  condition_of name m = elim (JsMap.get name m.state_conditions) [
    | some c ↦ c
    | none ↦ Condition.make false
  ]

  when_ok :
      (name : String) (m : Machine A) {s : String}
      → m.state_name ≡ some s
      → (s == name) ≡ false
      → ((when_state name m).1 ≡ (when_x true (condition_of name m)).1)
        × (JsMap.get name (when_state name m).0.state_conditions
            ≡ some (when_x true (condition_of name m)).0)
        × ((when_state name m).0.state_name ≡ m.state_name)
        × ((when_state name m).0.dropped ≡ m.dropped)
  unfolding when_state
  when_ok name m e n = ground (
    arith,
    get-set name name (when_x true (condition_of name m)).0 m.state_conditions,
    string_eq.beq_iff name name,
  )

  enter_ok :
      (name : String) (m : Machine A) {s : String} {c : Condition}
      → m.state_name ≡ some s
      → (s == name) ≡ false
      → JsMap.get name m.state_conditions ≡ some c
      → ((enter_state name m).state_name ≡ some name)
        × ((enter_state name m).dropped ≡ on_off c ∷ m.dropped)
  unfolding enter_state
  enter_ok name m e n g = ground arith

  when_now :
      (name : String) (m : Machine A) → m.state_name ≡ some name → (when_state name m).1 ≡ now
  unfolding when_state
  when_now name m e = ground (arith, string_eq.beq_iff name name)

  -- In another state, with a valid condition for the given state that is off, waiting for that
  -- state gives a promise, which entering the state resolves, and who waits after that has it at
  -- once.
  pub enter-when :
      (name : String) (m : Machine A) {s : String}
      → m.state_name ≡ some s
      → (s == name) ≡ false
      → IsValid (condition_of name m)
      → (condition_of name m).value ≡ false
      → (p : ℕ) × (c : Condition) × ((when_state name m).1 ≡ later p)
        × ((enter_state name (when_state name m).0).dropped ≡ c ∷ m.dropped)
        × (c.resolved ≡ p ∷ (condition_of name m).resolved)
        × ((enter_state name (when_state name m).0).state_name ≡ some name)
        × ((when_state name (enter_state name (when_state name m).0)).1 ≡ now)
  enter-when name m e n v f =
      let (a, b, c, d) = when_ok name m e n in
      let (x, y) = enter_ok name (when_state name m).0 (c ∙ e) n b in
      let (p, g, h) = on_off-when_x (condition_of name m) v f in
      (p, on_off (when_x true (condition_of name m)).0, a ∙ g, rw d at y, h, x, when_now name _ x)
