-- ===== src/StateMachine/Table/Laws.antt =====
-- About the table of handlers of local-modules/@bayou/state-machine/StateMachine.js.
use bayou.Prelude.{
  ◌≡◌, refl, ◌∙◌, Bool, true, false, not, ◌&&◌, ◌||◌, Option, none, some, List, [], ◌∷◌, String,
  string_eq, ok, ◌==◌, if◌then◌else◌, arith, Option-cases, Bool-cases, inl, inr,
}
use bayou.JsMap
use bayou.JsMap.{JsMap, get-set, get-delete, Unique, set-Unique}
use bayou.JsMap.Distinct.{has-get}
use bayou.StateMachine.Table.{
  Handler, direct, through, Row, Table, Method, is_in, row_of, collect, state_names, fill_events,
  fill_row, fill_states, make_handler_map, handler_of,
}

module _ {H : Type 0} where
  -- The method for a state and an event: the last one of that name.
  abbrev pub method : String → String → List (Method H) → Option H
  method s e [] = none
  method s e (m ∷ ms) = elim (method s e ms) [
    | some h ↦ some h
    | none ↦ if m.state == s && m.event == e then some m.body else none
  ]

  abbrev pub or_else : Option (Handler H) → Option (Handler H) → Option (Handler H)
  or_else (some h) o = some h
  or_else none o = o

  abbrev pub plain : Option H → Option (Handler H)
  plain (some h) = some (direct h)
  plain none = none

  abbrev pub named : String → Option H → Option (Handler H)
  named e (some h) = some (through e (direct h))
  named e none = none

  -- The method for the state and the event, else the state's for any event, else the event's for
  -- any state, else the one for any event in any state.
  abbrev pub chosen : String → String → List (Method H) → Option (Handler H)
  chosen s e ms = or_else (plain (method s e ms)) (
      or_else (named e (method s "any" ms))
        (or_else (plain (method "any" e ms)) (named e (method "any" "any" ms))))

  collect-cell :
      (events : List String) (ms : List (Method H)) (t : Table H) {u : Table H} (s e : String)
      → collect events ms t ≡ ok u
      → JsMap.get e (row_of s u) ≡ or_else (plain (method s e ms)) (JsMap.get e (row_of s t))
  unfolding collect
  collect-cell events [] t s e h = ground arith
  collect-cell events (m ∷ ms) t {u} s e h =
      elim (Bool-cases (not (m.event == "any") && not (is_in m.event events))) [
        | inl p ↦ absurd (ground arith)
        | inr p ↦
            let row : Row H = JsMap.set m.event (direct m.body) (row_of m.state t) in
            collect-cell events ms (JsMap.set m.state row t) {u = u} s e (ground arith)
            ∙ ground (
              arith,
              get-set m.state s row t,
              get-set m.event e (direct m.body) (row_of m.state t),
              string_eq.beq_iff m.state s,
              string_eq.beq_iff m.event e,
            )
      ]

  abbrev fallback : Row H → Option (Handler H) → String → Option (Handler H)
  fallback any_row (some h) k = some (through k h)
  fallback any_row none k = JsMap.get k any_row

  fill_events-get :
      (any_row : Row H) (any_handler : Option (Handler H)) (es : List String) (row : Row H)
      (k : String)
      → JsMap.get k (fill_events any_row any_handler es row)
        ≡ or_else (JsMap.get k row) (if is_in k es then fallback any_row any_handler k else none)
  unfolding fill_events
  fill_events-get any_row any_handler [] row k = ground arith
  fill_events-get any_row (some h) (e ∷ es) row k = elim (Option-cases (JsMap.get e row)) [
    | inr (x, q) ↦
        rw q (fill_events-get any_row (some h) es row k ∙ ground (arith, string_eq.beq_iff e k))
    | inl q ↦ rw q (
        fill_events-get any_row (some h) es (JsMap.set e (through e h) row) k
        ∙ ground (arith, get-set e k (through e h) row, string_eq.beq_iff e k))
  ]
  fill_events-get any_row none (e ∷ es) row k = elim (Option-cases (JsMap.get e row)) [
    | inr (x, q) ↦
        rw q (fill_events-get any_row none es row k ∙ ground (arith, string_eq.beq_iff e k))
    | inl q ↦ elim (Option-cases (JsMap.get e any_row)) [
      | inl p ↦
          rw (q, p) (fill_events-get any_row none es row k ∙ ground (arith, string_eq.beq_iff e k))
      | inr (h, p) ↦
          rw (q, p)
            (fill_events-get any_row none es (JsMap.set e h row) k
              ∙ ground (arith, get-set e k h row, string_eq.beq_iff e k))
    ]
  ]

  fill_row-get :
      (any_row : Row H) (events : List String) (row : Row H) (e : String)
      → is_in e events ≡ true
      → (e == "any") ≡ false
      → JsMap.get e (fill_row any_row events row)
        ≡ or_else (JsMap.get e row) (fallback any_row (JsMap.get "any" row) e)
  unfolding fill_row
  fill_row-get any_row events row e i b =
      get-delete "any" e (fill_events any_row (JsMap.get "any" row) events row)
      ∙ ground (
        arith,
        fill_events-get any_row (JsMap.get "any" row) events row e,
        string_eq.beq_iff "any" e,
        string_eq.beq_iff e "any",
      )

  fill_states-get :
      (any_row : Row H) (events : List String) (names : JsMap String (Unit {0})) (t : Table H)
      (s : String)
      → Unique names
      → JsMap.get s (fill_states any_row events names t) ≡ (elim (JsMap.get s names) [
        | some _ ↦ some (fill_row any_row events (row_of s t))
        | none ↦ JsMap.get s t
      ])
  unfolding fill_states JsMap.get
  fill_states-get any_row events [] t s u = refl
  fill_states-get any_row events ((j, _) ∷ names) t s (f, u) =
      fill_states-get any_row events names (JsMap.set j (fill_row any_row events (row_of j t)) t) s
        u
      ∙ ground
          (arith, get-set j s (fill_row any_row events (row_of j t)) t, string_eq.beq_iff j s, f)

  state_names-Unique :
      (ms : List (Method H)) (names : JsMap String (Unit {0}))
      → Unique names
      → Unique (state_names ms names)
  unfolding state_names
  state_names-Unique [] names u = u
  state_names-Unique (m ∷ ms) names u = elim (Bool-cases (m.state == "any")) [
    | inl p ↦ rw p (state_names-Unique ms names u)
    | inr p ↦
        rw p (state_names-Unique ms (JsMap.set m.state tt names) (set-Unique m.state tt names u))
  ]

  -- The states that some method names, without `any`.
  abbrev pub names_state : String → List (Method H) → Bool
  names_state s [] = false
  names_state s (m ∷ ms) = if m.state == s then true else names_state s ms

  state_names-get :
      (s : String) (ms : List (Method H)) (names : JsMap String (Unit {0}))
      → (s == "any") ≡ false
      → JsMap.get s (state_names ms names)
        ≡ (if names_state s ms then some tt else JsMap.get s names)
  unfolding state_names
  state_names-get s [] names n = refl
  state_names-get s (m ∷ ms) names n = elim (Bool-cases (m.state == "any")) [
    | inl p ↦ rw p (
        state_names-get s ms names n
        ∙ ground (
          arith,
          string_eq.beq_iff m.state s,
          string_eq.beq_iff m.state "any",
          string_eq.beq_iff s "any",
        ))
    | inr p ↦ rw p (
        state_names-get s ms (JsMap.set m.state tt names) n
        ∙ ground (arith, get-set m.state s tt names))
  ]

  handler_of_row :
      (s e : String) (t : Table H) {row : Row H}
      → JsMap.get s t ≡ some row
      → handler_of s e t ≡ JsMap.get e row
  unfolding handler_of
  handler_of_row s e t h = rw (handler_of, h)

  -- The table after the loops, at a state and an event.
  filled :
      (events : List String) (ms : List (Method H)) (t : Table H) (any_row : Row H) (s e : String)
      → names_state s ms ≡ true
      → is_in e events ≡ true
      → (s == "any") ≡ false
      → (e == "any") ≡ false
      → handler_of s e (
          JsMap.delete "any"
            (fill_states any_row events (state_names ms []) (JsMap.set "any" any_row t)))
        ≡ or_else (JsMap.get e (row_of s t)) (fallback any_row (JsMap.get "any" (row_of s t)) e)
  filled events ms t any_row s e n i a b =
      let u : Table H =
        fill_states any_row events (state_names ms []) (JsMap.set "any" any_row t) in
      let p : JsMap.get s (JsMap.delete "any" u) ≡ some (fill_row any_row events (row_of s t)) =
        get-delete "any" s u
        ∙ ground (
          arith,
          fill_states-get any_row events (state_names ms []) (JsMap.set "any" any_row t) s
              (state_names-Unique ms [] tt),
          state_names-get s ms [] a,
          get-set "any" s any_row t,
          string_eq.beq_iff "any" s,
          string_eq.beq_iff s "any",
        ) in
      handler_of_row s e (JsMap.delete "any" u) p ∙ fill_row-get any_row events (row_of s t) e i b

  row_empty : (s : String) → row_of {H = H} s [] ≡ []
  unfolding JsMap.get
  row_empty s = refl

  get-none : (k : String) → JsMap.get {V = Handler H} k [] ≡ none
  unfolding JsMap.get
  get-none k = refl

  final :
      (events : List String) (ms : List (Method H)) (u : Table H) (row : Row H) (s e : String)
      → collect events ms [] ≡ ok u
      → JsMap.get "any" u ≡ some row
      → is_in e events ≡ true
      → (e == "any") ≡ false
      → or_else
          (JsMap.get e (row_of s u))
          (fallback (fill_row [] events row) (JsMap.get "any" (row_of s u)) e)
        ≡ chosen s e ms
  final events ms u row s e q p i b =
      let c = λ (x y : String). collect-cell events ms [] {u = u} x y q in
      ground (
        arith,
        c s e,
        c s "any",
        c "any" e,
        c "any" "any",
        fill_row-get [] events row e i b,
        p,
        get-none e,
        get-none "any",
        row_empty s,
        row_empty "any",
      )

  -- Each method is for `any` event or for one with a validator.
  abbrev pub all_known : List String → List (Method H) → Bool
  all_known events [] = true
  all_known events (m ∷ ms) =
      if m.event == "any" || is_in m.event events then all_known events ms else false

  abbrev row_added : Method H → Table H → Table H
  row_added m t = JsMap.set m.state (JsMap.set m.event (direct m.body) (row_of m.state t)) t

  -- The loop goes on to its end, and no row is lost.
  collect_total :
      (events : List String) (ms : List (Method H)) (t : Table H) (s : String)
      → all_known events ms ≡ true
      → (u : Table H) × (collect events ms t ≡ ok u)
        × (JsMap.has s u ≡ (names_state s ms || JsMap.has s t))
  unfolding collect
  collect_total events [] t s h = (t, refl, refl)
  collect_total events (m ∷ ms) t s h =
      let (u, p, q) = collect_total events ms (row_added m t) s (ground arith) in
      (
        u,
        ground (arith, p),
        q
            ∙ ground (
              arith,
              has-get s t,
              has-get s (row_added m t),
              get-set m.state s (JsMap.set m.event (direct m.body) (row_of m.state t)) t,
            ),
      )

  abbrev made : List String → List (Method H) → Table H → Row H → Table H
  made events ms u row =
      let any_row = fill_row [] events row in
      JsMap.delete "any"
        (fill_states any_row events (state_names ms []) (JsMap.set "any" any_row u))

  make-made :
      (events : List String) (ms : List (Method H)) (u : Table H) (row : Row H)
      → collect events ms [] ≡ ok u
      → JsMap.get "any" u ≡ some row
      → make_handler_map events ms ≡ ok (made events ms u row)
  unfolding make_handler_map
  make-made events ms u row q p = ground arith

  -- If each method is for `any` event or a known one, and one is for `any` state, the table is
  -- made. It has for each state that a method names, `any` aside, and each known event but `any`,
  -- the method for both, else the state's for any event, else the event's for any state, else the
  -- one for any event in any state.
  pub make_handler_map-eq :
      (events : List String) (ms : List (Method H)) (s e : String)
      → all_known events ms ≡ true
      → names_state "any" ms ≡ true
      → names_state s ms ≡ true
      → is_in e events ≡ true
      → (s == "any") ≡ false
      → (e == "any") ≡ false
      → (t : Table H) × (make_handler_map events ms ≡ ok t) × (handler_of s e t ≡ chosen s e ms)
  make_handler_map-eq events ms s e k d n i a b =
      let (u, q, r) = collect_total events ms [] "any" k in
      elim (Option-cases (JsMap.get "any" u)) [
        | inl p ↦ absurd (ground (arith, has-get "any" u, r, d))
        | inr (row, p) ↦ (
          made events ms u row,
          make-made events ms u row q p,
          filled events ms u (fill_row [] events row) s e n i a b
              ∙ final events ms u row s e q p i b,
        )
      ]
