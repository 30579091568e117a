-- ===== src/Worker/Alarms.antt =====
-- No timer of the list is forgotten: its interval is running, or its event is on the way.
use new_cpp.Prelude.{
  ℕ, ◌≡◌, refl, sym, ◌∙◌, Bool, true, false, ◌||◌, Option, none, some, List, [], ◌∷◌, ◌++◌, arith,
  ◌==◌, ◌⊎◌, inl, inr, Bool-cases, Option-cases, ap, subst,
}
use new_cpp.Timer.{Timer, no_thread, sleeping, start, stop, time_out}
use new_cpp.Worker.{
  Worker, Event, timer_callback, timer_start, timer_stop, message, has_thread, get_timer,
  update_timer, send_event, request_stop, handle, IsFresh, Own, see_stop, go_on, take_event,
  ask_stop, own, send, expire, restart, remove, add, add_timer, remove_timer, Steps, here, next,
  testing, new, start_worker,
}
use new_cpp.Worker.Table.{
  IsTable, get_timer-id, get_timer-update, update_timer-IsTable, get_timer-remove,
  remove_timer-IsTable, add_timer-new,
}
use new_cpp.Worker.Handling.{after, handle-after, handle-queue}

-- The queue holds the callback event of an identifier.
abbrev pub has_callback : ℕ → List Event → Bool
has_callback id [] = false
has_callback id (timer_callback i ∷ q) = (i == id) || has_callback id q
has_callback id (timer_start t ∷ q) = has_callback id q
has_callback id (timer_stop i ∷ q) = has_callback id q
has_callback id (message m ∷ q) = has_callback id q

abbrev pub AllFresh : List Event → Type 0
AllFresh [] = Unit {0}
AllFresh (e ∷ q) = IsFresh e × AllFresh q

-- A timer that runs: either its thread sleeps, or its event is in the queue.
abbrev pub IsArmed : List Event → Timer → Type 0
IsArmed q t = (t.is_running ≡ true) × ((t.thread ≡ sleeping) ⊎ (has_callback t.timer_id q ≡ true))

-- The list holds each identifier once, all timers in it are armed, and timers in the queue are new.
pub record Inv (w : Worker) : Type 0 where
  pub threaded : has_thread w.phase ≡ true
  pub table : IsTable w.timer_list
  pub fresh : AllFresh w.queue
  pub armed : (id : ℕ) (t : Timer) → get_timer id w.timer_list ≡ some t → IsArmed w.queue t

has_callback-append :
    (id : ℕ) (q r : List Event)
    → has_callback id (q ++ r) ≡ (has_callback id q || has_callback id r)
has_callback-append id [] r = refl
has_callback-append id (timer_callback i ∷ q) r = ground (arith, has_callback-append id q r)
has_callback-append id (timer_start t ∷ q) r = has_callback-append id q r
has_callback-append id (timer_stop i ∷ q) r = has_callback-append id q r
has_callback-append id (message m ∷ q) r = has_callback-append id q r

AllFresh-snoc : (e : Event) (q : List Event) → IsFresh e → AllFresh q → AllFresh (q ++ e ∷ [])
AllFresh-snoc e [] f h = (f, tt)
AllFresh-snoc e (x ∷ q) f h = (h.0, AllFresh-snoc e q f h.1)

IsArmed-append : (q r : List Event) (t : Timer) → IsArmed q t → IsArmed (q ++ r) t
IsArmed-append q r t h = ground (arith, has_callback-append t.timer_id q r)

start-fresh :
    (t : Timer)
    → t.is_running ≡ false
    → t.thread ≡ no_thread
    → ((start t).is_running ≡ true) × ((start t).thread ≡ sleeping)
unfolding start
start-fresh t a b = ground arith

restart-armed :
    (t : Timer) → ((start (stop t)).is_running ≡ true) × ((start (stop t)).thread ≡ sleeping)
unfolding start stop
restart-armed t = ground arith

-- What one event leaves in the table is armed by the rest of the queue.
after-IsArmed :
    (e : Event) (q : List Event) (j : ℕ) (old : Option Timer) (t : Timer)
    → IsFresh e
    → ((s : Timer) → old ≡ some s → IsArmed (e ∷ q) s × (s.timer_id ≡ j))
    → after e j old ≡ some t
    → IsArmed q t
after-IsArmed (timer_callback id) q j none t f h e = ground arith
after-IsArmed (timer_callback id) q j (some s) t f h e = ground (arith, h s, restart-armed s)
after-IsArmed (timer_start u) q j none t f h e = ground (arith, start-fresh u)
after-IsArmed (timer_start u) q j (some s) t f h e = ground (arith, start-fresh u, h s)
after-IsArmed (timer_stop id) q j none t f h e = ground arith
after-IsArmed (timer_stop id) q j (some s) t f h e = ground (arith, h s)
after-IsArmed (message m) q j none t f h e = ground arith
after-IsArmed (message m) q j (some s) t f h e = ground (arith, h s)

take_event-Inv :
    (w : Worker) (e : Event) (q : List Event)
    → w.queue ≡ e ∷ q
    → Inv w
    → Inv (record (handle e (record w { queue = q })) { phase = testing })
take_event-Inv w e q f v =
    let w' = record w { queue = q } in
    let same = handle-queue e w' in
    let fresh : AllFresh (e ∷ q) = rw f at v.fresh in
    record {
      threaded = refl;
      table = (handle-after e 0 w' v.table).1;
      fresh = rw same fresh.1;
      armed = λ id t g. rw same (
          after-IsArmed e q id (get_timer id w.timer_list) t fresh.0
            (λ s g'. (rw f at (v.armed id s g'), get_timer-id id w.timer_list s g'))
            (sym (handle-after e id w' v.table).0 ∙ g));
    }

send-Inv : (w : Worker) (e : Event) → IsFresh e → Inv w → Inv (send_event e w)
unfolding send_event
send-Inv w e f v = rw v.threaded (record {
  threaded = v.threaded;
  table = v.table;
  fresh = AllFresh-snoc e w.queue f v.fresh;
  armed = λ id t g. IsArmed-append w.queue (e ∷ []) t (v.armed id t g);
})

restart-Inv : (w : Worker) → Inv w → Inv (start_worker w).0
unfolding start_worker
restart-Inv w v =
    rw v.threaded
      (record { threaded = v.threaded; table = v.table; fresh = v.fresh; armed = v.armed })

-- The same worker with another list of timers, all of them armed.
listed-Inv :
    (w : Worker) (ts : List Timer)
    → Inv w
    → IsTable ts
    → ((id : ℕ) (t : Timer) → get_timer id ts ≡ some t → IsArmed w.queue t)
    → Inv (record w { timer_list = ts })
listed-Inv w ts v table armed = record {
  threaded = v.threaded;
  table = table;
  fresh = v.fresh;
  armed = armed;
}

remove-Inv :
    (w : Worker) (id : ℕ) → Inv w → Inv (record w { timer_list = remove_timer id w.timer_list })
remove-Inv w id v =
    listed-Inv w (remove_timer id w.timer_list) v (remove_timer-IsTable id w.timer_list v.table)
      (λ j t e. v.armed j t (ground (arith, get_timer-remove id j w.timer_list v.table)))

add-Inv :
    (w : Worker) (t : Timer)
    → t.is_running ≡ true
    → t.thread ≡ sleeping
    → Inv w
    → Inv (record w { timer_list = (add_timer t w.timer_list).0 })
unfolding add_timer
add-Inv w t r s v = elim (Bool-cases (t.timer_id == 0)) [
  | inl zero_id ↦ rw zero_id (listed-Inv w w.timer_list v v.table v.armed)
  | inr other ↦ elim (Option-cases (get_timer t.timer_id w.timer_list)) [
    | inl free ↦
        let (ts, added, table, look) =
          add_timer-new t w.timer_list v.table free (ground (arith, other)) in
        let same : (add_timer t w.timer_list).0 ≡ ts = ap (λ p. p.0) added in
        subst (λ l. Inv (record w { timer_list = l })) (sym same)
          (listed-Inv w ts v table (λ j u e. elim (Bool-cases (t.timer_id == j)) [
            | inl same_id ↦
                let it : some t ≡ some u = sym (look j ∙ rw same_id) ∙ e in
                let is : t ≡ u = cc in subst (IsArmed w.queue) is (r, inl s)
            | inr other_id ↦ v.armed j u (sym (look j ∙ rw other_id) ∙ e)
          ]))
    | inr (u, taken) ↦ rw (other, taken) (listed-Inv w w.timer_list v v.table v.armed)
  ]
]

time_out-id : (t : Timer) → (time_out t).timer_id ≡ t.timer_id
unfolding time_out
time_out-id t = refl

time_out-running : (t : Timer) → (time_out t).is_running ≡ t.is_running
unfolding time_out
time_out-running t = refl

timed_out-IsArmed :
    (q : List Event) (t s : Timer)
    → time_out t ≡ s
    → t.is_running ≡ true
    → IsArmed (q ++ timer_callback t.timer_id ∷ []) s
timed_out-IsArmed q t s e r = ground (
  arith,
  time_out-id t,
  time_out-running t,
  has_callback-append s.timer_id q (timer_callback t.timer_id ∷ []),
)

expire-Inv :
    (w : Worker) (t : Timer)
    → get_timer t.timer_id w.timer_list ≡ some t
    → Inv w
    → Inv (
        send_event
          (timer_callback t.timer_id)
          (record w { timer_list = update_timer t.timer_id time_out w.timer_list }))
unfolding send_event
expire-Inv w t g v = rw v.threaded (record {
  threaded = v.threaded;
  table = update_timer-IsTable t.timer_id time_out w.timer_list time_out-id v.table;
  fresh = AllFresh-snoc (timer_callback t.timer_id) w.queue tt v.fresh;
  armed = λ id s e. elim (Bool-cases (t.timer_id == id)) [
    | inl same ↦
        let law = get_timer-update t.timer_id id time_out w.timer_list time_out-id in
        timed_out-IsArmed w.queue t s (ground (arith, law)) (v.armed t.timer_id t g).0
    | inr other ↦ IsArmed-append w.queue _ s (
        v.armed id s
          (ground (arith, get_timer-update t.timer_id id time_out w.timer_list time_out-id)))
  ];
})

Own-Inv : {w w' : Worker} → Own w w' → Inv w → Inv w'
unfolding request_stop
Own-Inv (see_stop w p s) v = record {
  threaded = refl;
  table = v.table;
  fresh = v.fresh;
  armed = v.armed;
}
Own-Inv (go_on w p s) v = record {
  threaded = refl;
  table = v.table;
  fresh = v.fresh;
  armed = v.armed;
}
Own-Inv (take_event w e q p f) v = take_event-Inv w e q f v
Own-Inv (ask_stop w) v = record {
  threaded = v.threaded;
  table = v.table;
  fresh = v.fresh;
  armed = v.armed;
}

-- Let a worker have a thread, each identifier stand once in its list of timers, every timer in the
-- list run, with its thread asleep or its callback event in the queue, and the timers in the queue
-- be new. All of this still holds, until `Stop` or `StopWithJoin` is called, whatever steps the
-- worker's thread and the threads of its timers make, and whatever calls of `SendEvent` with timers
-- that are new, `Start`, `RequestStop`, `RemoveTimer`, and of `AddTimer` with timers that are running,
-- its clients make, in any order. So no timer of the list is forgotten.
pub Steps-Inv : {w w' : Worker} → Inv w → Steps w w' → Inv w'
Steps-Inv v here = v
Steps-Inv v (next run (own o)) = Own-Inv o (Steps-Inv v run)
Steps-Inv v (next run (send w e f)) = send-Inv w e f (Steps-Inv v run)
Steps-Inv v (next run (restart w)) = restart-Inv w (Steps-Inv v run)
Steps-Inv v (next run (remove w id)) = remove-Inv w id (Steps-Inv v run)
Steps-Inv v (next run (add w t r s)) = add-Inv w t r s (Steps-Inv v run)
Steps-Inv v (next run (expire w t g s)) = expire-Inv w t g (Steps-Inv v run)

pub start_worker-Inv : Inv (start_worker new).0
unfolding start_worker new get_timer
start_worker-Inv = record { threaded = refl; table = tt; fresh = tt; armed = λ id t e. cc }
