-- ===== src/StateMachine/Table.antt =====
-- local-modules/@bayou/state-machine/StateMachine.js, `_makeHandlerMap()`. The methods that it
-- finds on the instance are a list of state name, event name and function. The plain objects of the
-- code are maps here: no state or event has the name of what an object inherits, as `toString`.
pub mod Laws
use bayou.Prelude.{
  ◌≡◌, Bool, true, false, not, ◌&&◌, Option, none, some, List, [], ◌∷◌, String, string_eq, Result,
  ok, err, bad_use, type_error, ◌>>=◌, ◌==◌, if◌then◌else◌,
}
use bayou.JsMap
use bayou.JsMap.{JsMap}

-- A method, or a function that calls one with the event's name before the arguments.
pub data Handler (H : Type 0) : Type 0 where
  direct : H → Handler H
  through : String → Handler H → Handler H

abbrev pub Row : Type 0 → Type 0
Row H = JsMap String (Handler H)

abbrev pub Table : Type 0 → Type 0
Table H = JsMap String (Row H)

-- A method `_handle_<state>_<event>`.
pub record Method (H : Type 0) : Type 0 where
  pub state : String
  pub event : String
  pub body : H

abbrev pub is_in : String → List String → Bool
is_in e [] = false
is_in e (x ∷ xs) = if x == e then true else is_in e xs

module _ {H : Type 0} where
  abbrev pub row_of : String → Table H → Row H
  row_of s t = elim (JsMap.get s t) [ some row ↦ row | none ↦ [] ]

  -- The first loop: `result`.
  unfoldable pub collect : List String → List (Method H) → Table H → Result (Table H)
  collect events [] t = ok t
  collect events (m ∷ ms) t =
      if not (m.event == "any") && not (is_in m.event events)
      then err bad_use
      else collect events ms
          (JsMap.set m.state (JsMap.set m.event (direct m.body) (row_of m.state t)) t)

  -- The first loop: `stateNameMap`.
  unfoldable pub state_names : List (Method H) → JsMap String (Unit {0}) → JsMap String (Unit {0})
  state_names [] names = names
  state_names (m ∷ ms) names =
      state_names ms (if m.state == "any" then names else JsMap.set m.state tt names)

  -- The inner loop, for a state with the `any` handler `any_handler`.
  unfoldable pub fill_events : Row H → Option (Handler H) → List String → Row H → Row H
  fill_events any_row any_handler [] row = row
  fill_events any_row any_handler (e ∷ es) row =
      fill_events any_row any_handler es (elim (JsMap.get e row) [
        | some _ ↦ row
        | none ↦ elim any_handler [
          | some h ↦ JsMap.set e (through e h) row
          | none ↦ elim (JsMap.get e any_row) [ some h ↦ JsMap.set e h row | none ↦ row ]
        ]
      ])

  unfoldable pub fill_row : Row H → List String → Row H → Row H
  unfolding fill_events
  fill_row any_row events row =
      JsMap.delete "any" (fill_events any_row (JsMap.get "any" row) events row)

  -- The outer loop over `states`, each of which has a row.
  unfoldable pub fill_states : Row H → List String → JsMap String (Unit {0}) → Table H → Table H
  unfolding fill_row
  fill_states any_row events [] t = t
  fill_states any_row events ((s, _) ∷ names) t =
      fill_states any_row events names (JsMap.set s (fill_row any_row events (row_of s t)) t)

  -- The turn of `any` comes first. In it `result.any` is the row that is filled, which lacks each
  -- event that is looked for there: no row, in its place, gives the same.
  unfoldable pub make_handler_map : List String → List (Method H) → Result (Table H)
  unfolding collect state_names fill_states
  make_handler_map events methods = do
    t ← collect events methods []
    elim (JsMap.get "any" t) [
      | none ↦ err type_error
      | some row ↦
          let any_row = fill_row [] events row in
          ok (
            JsMap.delete "any"
              (fill_states any_row events (state_names methods []) (JsMap.set "any" any_row t)))
    ]

  -- `this._handlers[stateName][eventName]`
  unfoldable pub handler_of : String → String → Table H → Option (Handler H)
  handler_of s e t = elim (JsMap.get s t) [ some row ↦ JsMap.get e row | none ↦ none ]
