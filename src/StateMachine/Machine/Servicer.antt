-- ===== src/StateMachine/Machine/Servicer.antt =====
-- About the servicer of the queue of local-modules/@bayou/state-machine/StateMachine.js.
use bayou.Prelude.{
  ℕ, ◌≡◌, ◌≢◌, refl, Bool, true, false, Option, none, some, List, [], ◌∷◌, String, string_eq,
  Result, ok, err, ◌>>=◌, ◌==◌, arith, subst, ap, sym, ◌∙◌, Bool-cases, inl, inr,
}
use bayou.PromiseUtil.Condition.{Wait, later, set_value, when_x}
use bayou.PromiseUtil.Condition.Laws.{
  set_value-IsValid, set_value-value, wait_later, when_x-resolved,
}
use bayou.StateMachine.Table.{Handler, Table, handler_of}
use bayou.StateMachine.Machine.{
  Event, Machine, Validation, Outcome, done, threw, count_event, enqueue_or_push, call_handler,
  dispatch_event, dispatch_one, stopped, waits, dispatched,
}
use bayou.StateMachine.Machine.Laws.{IsServed, enqueue_ok, enqueue-IsServed, no_queue}

module _ {A : Type 0} where
  -- The machine that a handler leaves.
  abbrev pub machine_of : Outcome A → Machine A
  machine_of (done n) = n
  machine_of (threw n e) = n

module _ {A H : Type 0} (validator : String → A → Validation A) (handlers : Table H)
    (run : Handler H → A → Machine A → Outcome A) (type_error : A) where
  waits_ok :
      (m : Machine A) {n : Machine A} {w : Wait}
      → dispatch_one validator handlers run type_error m ≡ waits n w
      → (m.event_queue ≡ some [])
        × (n.any_event_pending ≡ (when_x true (set_value false m.any_event_pending)).0)
        × ((when_x true (set_value false m.any_event_pending)).1 ≡ w)
  unfolding dispatch_one
  waits_ok m {n} {w} e = go m.event_queue refl
    where
      go :
          (q : Option (List (Event A)))
          → m.event_queue ≡ q
          → (m.event_queue ≡ some [])
            × (n.any_event_pending ≡ (when_x true (set_value false m.any_event_pending)).0)
            × ((when_x true (set_value false m.any_event_pending)).1 ≡ w)
      go none f = absurd (ground arith)
      go (some []) f = (f, ground arith, ground arith)
      go (some (x ∷ q)) f = absurd (ground arith)

  -- When the servicer of a machine with the invariant waits, no event is queued, and it waits for a
  -- promise that the next call that queues an event resolves.
  pub waits-enqueue :
      (m : Machine A) {n : Machine A} {w : Wait} (enqueue : Bool) (name : String) (args : A)
      {o : Machine A}
      → IsServed m
      → dispatch_one validator handlers run type_error m ≡ waits n w
      → enqueue_or_push validator enqueue name args n ≡ ok o
      → (m.event_queue ≡ some [])
        × ((p : ℕ) × (w ≡ later p)
            × (o.any_event_pending.resolved ≡ p ∷ n.any_event_pending.resolved))
  waits-enqueue m {n} {w} enqueue name args {o} (a, v) e k =
      let (q, f, g) = waits_ok m e in
      let c = set_value false m.any_event_pending in
      let (p, h, r) =
        wait_later true c (set_value-IsValid false m.any_event_pending v)
          (set_value-value false m.any_event_pending) in
      let (l, z) = enqueue_ok validator enqueue name args n k in
      (
        q,
        (
          p,
          sym g ∙ h,
          ground (
            arith,
            f,
            r,
            when_x-resolved true c,
            ap (λ (o : Machine A). o.any_event_pending.resolved) z,
          ),
        ),
      )

  abbrev pub call : Event A → Machine A → Outcome A
  call event m = call_handler validator handlers run type_error event m

  abbrev aborted : Machine A → Machine A
  aborted m = record m {
    event_queue = none;
    any_event_pending = set_value true m.any_event_pending;
  }

  dispatch_done :
      (event : Event A) (m k : Machine A)
      → call event m ≡ done k
      → dispatch_event validator handlers run type_error event m ≡ ok (count_event k)
  unfolding dispatch_event
  dispatch_done event m k e = ground arith

  dispatch_error :
      (event : Event A) (m k : Machine A) (x : A)
      → call event m ≡ threw k x
      → (event.name == "error") ≡ true
      → dispatch_event validator handlers run type_error event m ≡ ok (aborted k)
  unfolding dispatch_event
  dispatch_error event m k x e n = ground arith

  dispatch_threw :
      (event : Event A) (m k : Machine A) (x : A)
      → call event m ≡ threw k x
      → (event.name == "error") ≡ false
      → dispatch_event validator handlers run type_error event m
        ≡ (enqueue_or_push validator true "error" x k >>= λ o. ok (count_event o))
  unfolding dispatch_event
  dispatch_threw event m k x e n = ground arith

  counted :
      (x : A) (k : Machine A) {n : Machine A}
      → IsServed k
      → (enqueue_or_push validator true "error" x k >>= λ o. ok (count_event o)) ≡ ok n
      → IsServed n
  counted x k {n} s e = go (enqueue_or_push validator true "error" x k) refl
    where
      go : (r : Result (Machine A)) → enqueue_or_push validator true "error" x k ≡ r → IsServed n
      go (err y) f = absurd (ground arith)
      go (ok o) f =
          let same : count_event o ≡ n = ground arith in
          subst IsServed same (enqueue-IsServed validator true "error" x k s f).0

  call-IsServed :
      ((h : Handler H) (a : A) (m : Machine A) → IsServed m → IsServed (machine_of (run h a m)))
      → (event : Event A) (m : Machine A) → IsServed m
      → IsServed (machine_of (call event m))
  unfolding call_handler
  call-IsServed keeps event m s = go m.state_name
    where
      go :
          (o : Option String)
          → IsServed (
              machine_of (elim o [
                | none ↦ threw m type_error
                | some s ↦ elim (handler_of s event.name handlers) [
                  | none ↦ threw m type_error
                  | some h ↦ run h event.args m
                ]
              ]))
      go none = s
      go (some t) = went (handler_of t event.name handlers)
        where
          went :
              (h : Option (Handler H))
              → IsServed
                  (machine_of (elim h [ none ↦ threw m type_error | some h ↦ run h event.args m ]))
          went none = s
          went (some h) = keeps h event.args m s

  -- If the handlers keep the invariant that a machine with a queued event, or an aborted one, has
  -- its condition on, a dispatch that does not throw keeps it too.
  pub dispatch_event-IsServed :
      ((h : Handler H) (a : A) (m : Machine A) → IsServed m → IsServed (machine_of (run h a m)))
      → (event : Event A) (m : Machine A) {n : Machine A} → IsServed m
      → dispatch_event validator handlers run type_error event m ≡ ok n
      → IsServed n
  dispatch_event-IsServed keeps event m {n} s e =
      go (call event m) refl (call-IsServed keeps event m s)
    where
      go : (o : Outcome A) → call event m ≡ o → IsServed (machine_of o) → IsServed n
      go (done k) f t =
          let same : count_event k ≡ n = ground (arith, dispatch_done event m k f) in
          subst IsServed same t
      go (threw k x) f (a, v) = elim (Bool-cases (event.name == "error")) [
        | inl p ↦
            let same : aborted k ≡ n = ground (arith, dispatch_error event m k x f p) in
            subst IsServed same (
              set_value-value true k.any_event_pending,
              set_value-IsValid true k.any_event_pending v,
            )
        | inr p ↦ counted x k (a, v) (sym (dispatch_threw event m k x f p) ∙ e)
      ]

  -- When the handler of the first event, an `error`, throws, the machine aborts: its servicer stops
  -- at the next round, and no further call queues an event.
  pub error-stopped :
      (m : Machine A) (event : Event A) (rest : List (Event A)) (k : Machine A) (x : A)
      → m.event_queue ≡ some (event ∷ rest)
      → (event.name == "error") ≡ true
      → call event (record m { event_queue = some rest }) ≡ threw k x
      → (n : Machine A) × (dispatch_one validator handlers run type_error m ≡ dispatched (ok n))
        × (dispatch_one validator handlers run type_error n ≡ stopped)
        × ((enqueue : Bool) (name : String) (args : A) (o : Machine A)
            → enqueue_or_push validator enqueue name args n ≢ ok o)
  unfolding dispatch_one
  error-stopped m event rest k x q p e = (
    aborted k,
    ground (arith, dispatch_error event (record m { event_queue = some rest }) k x e p),
    refl,
    λ enqueue name args o f. no_queue validator enqueue name args (aborted k) o refl f,
  )
