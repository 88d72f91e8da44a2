-- ===== src/Discovery/Laws.antt =====
-- common/AittDiscovery.cc: when the object runs and is subscribed.
use aitt.Base.{
  ℕ, suc, All, ◌-◌, ◌==◌, ◌≡◌, ◌≢◌, refl, sym, Bool, true, false, List, [], ◌∷◌, ◌++◌, none,
  Bool-cases, inl, inr, arith, number_key, text_key, subst, if◌then◌else◌,
}
use aitt.Types.{Result, ok, err, discovery_topic_base}
use aitt.Discovery.{
  Discovery, Call, start, connection_changed, restart, stop, StopEnd, stopped, all_topics,
}

-- Does the status of the connection say that the client is connected?
pub data Event : Type 0 where
  starts : (willed connected : Bool) → Event
  changes : (connected : Bool) → (handle : Result ℕ) → Event
  restarts : (removed : Bool) → (handle : Result ℕ) → Event
  stops : StopEnd → Event

unfoldable pub run : Event → Discovery → Discovery
unfolding start connection_changed restart stop
run (starts w c) d = (start w c d).0
run (changes c h) d = connection_changed c h d
run (restarts r h) d = (restart r h d).0
run (stops e) d = (stop e d).0

unfoldable pub run_all : List Event → Discovery → Discovery
unfolding run
run_all [] d = d
run_all (e ∷ es) d = run_all es (run e d)

abbrev pub GivesHandle : Result ℕ → Type 0
GivesHandle (ok h) = h ≢ 0
GivesHandle (err e) = ⊥

-- The calls of `discovery_mq` return, and a subscription has an address.
abbrev pub Succeeds : Event → Type 0
Succeeds (starts w c) = Unit {0}
Succeeds (changes c h) = GivesHandle h
Succeeds (restarts r h) = (r ≡ true) × GivesHandle h
Succeeds (stops e) = e ≡ stopped

-- The subscriptions that are there after the calls, of n before them.
unfoldable pub subscriptions : ℕ → List Call → ℕ
subscriptions n [] = n
subscriptions n (Call.subscribes t ∷ cs) = subscriptions (suc n) cs
subscriptions n (Call.unsubscribes h ∷ cs) =
    if h == 0 then subscriptions n cs else subscriptions (n - 1) cs
subscriptions n (c ∷ cs) = subscriptions n cs

subscriptions-append :
    (n : ℕ) (cs ds : List Call) → subscriptions n (cs ++ ds) ≡ subscriptions (subscriptions n cs) ds
unfolding subscriptions
subscriptions-append n [] ds = refl
subscriptions-append n (Call.subscribes t ∷ cs) ds = subscriptions-append (suc n) cs ds
subscriptions-append n (Call.unsubscribes h ∷ cs) ds =
    ground (arith, subscriptions-append n cs ds, subscriptions-append (n - 1) cs ds)
subscriptions-append n (Call.will t ∷ cs) ds = subscriptions-append n cs ds
subscriptions-append n (Call.connection_callback b ∷ cs) ds = subscriptions-append n cs ds
subscriptions-append n (Call.connects ∷ cs) ds = subscriptions-append n cs ds
subscriptions-append n (Call.disconnects ∷ cs) ds = subscriptions-append n cs ds
subscriptions-append n (Call.publishes t p q r ∷ cs) ds = subscriptions-append n cs ds

-- One subscription while there is a handle, and none while there is not.
unfoldable pub IsSubscribed : Discovery → Type 0
IsSubscribed d = subscriptions 0 d.calls ≡ (if d.callback_handle == 0 then 0 else 1)

started-IsSubscribed :
    (w c : Bool) (d : Discovery) → IsSubscribed d → IsSubscribed (run (starts w c) d)
unfolding run IsSubscribed subscriptions start
started-IsSubscribed w c d i =
    let willing = Call.will (discovery_topic_base ++ d.id) ∷ [] in
    let a = subscriptions-append 0 d.calls willing in
    let b =
      subscriptions-append 0 (d.calls ++ willing)
        (Call.connection_callback true ∷ Call.connects ∷ []) in
    elim (Bool-cases (d.callback_handle == 0)) [ inl e ↦ ground arith | inr e ↦ ground arith ]

changed-IsSubscribed :
    (c : Bool) (h : ℕ) (d : Discovery)
    → h ≢ 0
    → IsSubscribed d
    → IsSubscribed (run (changes c (ok h)) d)
unfolding run IsSubscribed subscriptions connection_changed
changed-IsSubscribed false h d n i = i
changed-IsSubscribed true h d n i =
    let a = subscriptions-append 0 d.calls (Call.subscribes all_topics ∷ []) in
    elim (Bool-cases (d.callback_handle == 0)) [ inl e ↦ ground arith | inr e ↦ ground arith ]

restarted-IsSubscribed :
    (h : ℕ) (d : Discovery) → h ≢ 0 → IsSubscribed d → IsSubscribed (run (restarts true (ok h)) d)
unfolding run IsSubscribed subscriptions restart
restarted-IsSubscribed h d n i =
    let a = subscriptions-append 0 d.calls (Call.unsubscribes d.callback_handle ∷ []) in
    let b =
      subscriptions-append 0 (d.calls ++ Call.unsubscribes d.callback_handle ∷ [])
        (Call.subscribes all_topics ∷ []) in
    elim (Bool-cases (d.callback_handle == 0)) [ inl e ↦ ground arith | inr e ↦ ground arith ]

stopped-IsSubscribed : (d : Discovery) → IsSubscribed d → IsSubscribed (run (stops stopped) d)
unfolding run IsSubscribed subscriptions stop
stopped-IsSubscribed d i =
    let t = discovery_topic_base ++ d.id in
    let c1 = d.calls ++ Call.connection_callback false ∷ [] in
    let c2 = c1 ++ Call.unsubscribes d.callback_handle ∷ [] in
    let c3 = c2 ++ Call.publishes t none 2 true ∷ [] in
    let c4 = c3 ++ Call.publishes t none 0 true ∷ [] in
    let a1 = subscriptions-append 0 d.calls (Call.connection_callback false ∷ []) in
    let a2 = subscriptions-append 0 c1 (Call.unsubscribes d.callback_handle ∷ []) in
    let a3 = subscriptions-append 0 c2 (Call.publishes t none 2 true ∷ []) in
    let a4 = subscriptions-append 0 c3 (Call.publishes t none 0 true ∷ []) in
    let a5 = subscriptions-append 0 c4 (Call.disconnects ∷ []) in
    elim (Bool-cases (d.callback_handle == 0)) [ inl e ↦ ground arith | inr e ↦ ground arith ]

run-IsSubscribed :
    (e : Event) (d : Discovery) → Succeeds e → IsSubscribed d → IsSubscribed (run e d)
run-IsSubscribed (starts w c) d s i = started-IsSubscribed w c d i
run-IsSubscribed (changes c (ok h)) d s i = changed-IsSubscribed c h d s i
run-IsSubscribed (changes c (err x)) d s i = absurd s
run-IsSubscribed (restarts r (ok h)) d s i =
    subst (λ b. IsSubscribed (run (restarts b (ok h)) d)) (sym s.0)
      (restarted-IsSubscribed h d s.1 i)
run-IsSubscribed (restarts r (err x)) d s i = absurd s.1
run-IsSubscribed (stops e) d s i =
    subst (λ x. IsSubscribed (run (stops x) d)) (sym s) (stopped-IsSubscribed d i)

-- Whatever the object is asked, and however its connection comes and goes: as long as the calls of
-- `discovery_mq` succeed, it has exactly one subscription while it holds a handle, and none
-- while it does not.
pub run_all-IsSubscribed :
    (es : List Event) (d : Discovery)
    → All Succeeds es
    → IsSubscribed d
    → IsSubscribed (run_all es d)
unfolding run_all
run_all-IsSubscribed [] d s i = i
run_all-IsSubscribed (e ∷ es) d s i =
    run_all-IsSubscribed es (run e d) s.1 (run-IsSubscribed e d s.0 i)
