-- ===== src/Mqtt/Subscribers/Find.antt =====
-- src/MosquittoMQ.cc: `std::find` over the subscribers, and what `Unsubscribe` does with it.
use aitt.Base.{ℕ, ◌≡◌, refl, ◌≢◌, List, [], ◌∷◌, ◌++◌, none, some, length, All, arith}
use aitt.Mqtt.Subscribers.{SubscribeData, find}

-- No subscriber of the list has the address.
abbrev pub NotIn : ℕ → List SubscribeData → Type 0
NotIn a = All (λ s. s.addr ≢ a)

pub find-middle :
    (done : List SubscribeData) (s : SubscribeData) (rest : List SubscribeData)
    → NotIn s.addr done
    → find s.addr (done ++ s ∷ rest) ≡ some (length done, s)
unfolding find
find-middle [] s rest h = ground arith
find-middle (d ∷ done) s rest h = ground (arith, find-middle done s rest)

pub find-eq-none : (a : ℕ) (ss : List SubscribeData) → NotIn a ss → find a ss ≡ none
unfolding find
find-eq-none a [] h = refl
find-eq-none a (s ∷ ss) h = ground (arith, find-eq-none a ss)

pub NotIn-append :
    (a : ℕ) (xs ys : List SubscribeData) → NotIn a xs → NotIn a ys → NotIn a (xs ++ ys)
NotIn-append a [] ys h k = k
NotIn-append a (x ∷ xs) ys h k = (h.0, NotIn-append a xs ys h.1 k)
