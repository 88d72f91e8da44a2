-- ===== src/Impl/Laws.antt =====
-- src/AITTImpl.cc: the list of the subscriptions, through `Subscribe`, `Unsubscribe` and
-- `UnsubscribeAll`.
use aitt.Base.{
  ◌⊎◌, inl, inr, Option-cases, Bool, true, false, if◌then◌else◌, ℕ, ◌≡◌, ◌≢◌, ◌∙◌, refl, ap, List,
  [], ◌∷◌, ◌++◌, some, Text, All, arith,
}
use aitt.Types.{Error, AittProtocol, unknown, mqtt, tcp, tcp_secure, Result, ok, err}
use aitt.Flex.{Flexbuffers}
use aitt.MqDiscovery.{MqDiscovery}
use aitt.Impl.{
  Transport, SubscribeInfo, Client, find_info, erase_info, subscribe_mq, subscribe_by, subscribe,
  release, unsubscribe, release_all, unsubscribe_all,
}

pub find_info-append :
    (i : SubscribeInfo) (is : List SubscribeInfo)
    → All (λ j. j.addr ≢ i.addr) is
    → (find_info i.addr (is ++ i ∷ []) ≡ some i) × (erase_info i.addr (is ++ i ∷ []) ≡ is)
unfolding find_info erase_info
find_info-append i [] n = ground arith
find_info-append i (j ∷ is) n = ground (arith, find_info-append i is n.1, n.0)

module _ {M T : Type 0} (flex : Flexbuffers) (published : MqDiscovery → Bool)
    (mqtt_ops : Transport M) (tcp_ops : Transport T) where
  abbrev list_of : Client M T × Result ℕ → List SubscribeInfo
  list_of r = r.0.subscribed_list

  ok_same : {x y : ℕ} → (let r : Result ℕ = ok x in r ≡ ok y) → x ≡ y
  ok_same h = ground arith

  ok_or_err_unit : {e : Error} → ok (tt {0}) ≢ err e
  ok_or_err_unit h = ground arith

  ok_or_err : {x : ℕ} {e : Error} → ok x ≢ err e
  ok_or_err h = ground arith

  abbrev cases_of : (r : Result ℕ) → ((x : ℕ) × (r ≡ ok x)) ⊎ ((e : Error) × (r ≡ err e))
  cases_of (ok x) = inl (x, refl)
  cases_of (err e) = inr (e, refl)

  subscribe_by-list :
      (p : AittProtocol) (topic : Text) (c : Client M T)
      → (subscribe_by flex published mqtt_ops tcp_ops p topic c).0.subscribed_list
        ≡ c.subscribed_list
  unfolding subscribe_by subscribe_mq
  subscribe_by-list mqtt topic c = elim (cases_of (mqtt_ops.subscribe topic c.mq).1) [
    | inl (h, e) ↦ ground arith
    | inr (x, e) ↦ ground arith
  ]
  subscribe_by-list tcp topic c = refl
  subscribe_by-list tcp_secure topic c = refl
  subscribe_by-list unknown topic c = refl

  released-list :
      (p : AittProtocol) (a h : ℕ) (c : Client M T)
      → let i : SubscribeInfo = record { addr = a; protocol = p; handle = h } in
        (release flex published mqtt_ops tcp_ops i c).0.subscribed_list ≡ c.subscribed_list
  unfolding release
  released-list mqtt a h c = elim (cases_of (mqtt_ops.unsubscribe h c.mq).1) [
    | inl (u, e) ↦ ground arith
    | inr (x, e) ↦ ground arith
  ]
  released-list tcp a h c = refl
  released-list tcp_secure a h c = refl
  released-list unknown a h c = refl

  release-list :
      (i : SubscribeInfo) (c : Client M T)
      → (release flex published mqtt_ops tcp_ops i c).0.subscribed_list ≡ c.subscribed_list
  release-list i c = released-list i.protocol i.addr i.handle c

  -- Whatever the id, when `Unsubscribe` throws, the list of the subscriptions is what it was: an
  -- entry whose transport throws stays, although the transport may have let it go.
  pub unsubscribe_throws-list :
      (a : ℕ) (c : Client M T) (x : Error)
      → (unsubscribe flex published mqtt_ops tcp_ops a c).1 ≡ err x
      → (unsubscribe flex published mqtt_ops tcp_ops a c).0.subscribed_list ≡ c.subscribed_list
  unfolding unsubscribe
  unsubscribe_throws-list a c x e = elim (Option-cases (find_info a c.subscribed_list)) [
    | inl f ↦ ground arith
    | inr (i, f) ↦
        let l = release-list i c in
        elim (cases_of (release flex published mqtt_ops tcp_ops i c).1) [
          | inl (u, q) ↦ ground arith
          | inr (y, q) ↦ ground arith
        ]
  ]

  -- `Unsubscribe` of the last entry of the list.
  unsubscribe-last :
      (i : SubscribeInfo) (is : List SubscribeInfo) (c : Client M T) (u : ℕ)
      → c.subscribed_list ≡ is ++ i ∷ []
      → All (λ j. j.addr ≢ i.addr) is
      → (unsubscribe flex published mqtt_ops tcp_ops i.addr c).1 ≡ ok u
      → (unsubscribe flex published mqtt_ops tcp_ops i.addr c).0.subscribed_list ≡ is
  unfolding unsubscribe
  unsubscribe-last i is c v e n h =
      let f = find_info-append i is n in
      let f0 : find_info i.addr c.subscribed_list ≡ some i = ground (arith, f.0) in
      let l = release-list i c in
      let back : erase_info i.addr (release flex published mqtt_ops tcp_ops i c).0.subscribed_list
          ≡ is =
        ap (erase_info i.addr) (l ∙ e) ∙ f.1 in
      elim (cases_of (release flex published mqtt_ops tcp_ops i c).1) [
        | inl (u, q) ↦ ground arith
        | inr (x, q) ↦ ground arith
      ]

  subscribe-appends :
      (p : AittProtocol) (a : ℕ) (topic : Text) (c : Client M T) (y : ℕ)
      → (subscribe flex published mqtt_ops tcp_ops p a topic c).1 ≡ ok y
      → (h : ℕ) × (y ≡ a)
        × ((subscribe flex published mqtt_ops tcp_ops p a topic c).0.subscribed_list
            ≡ c.subscribed_list ++ record { addr = a; protocol = p; handle = h } ∷ [])
  unfolding subscribe
  subscribe-appends p a topic c y e =
      let l = subscribe_by-list p topic c in
      elim (cases_of (subscribe_by flex published mqtt_ops tcp_ops p topic c).1) [
        | inl (h, q) ↦ (h, ground arith, ground arith)
        | inr (x, q) ↦ absurd (ground arith)
      ]

  -- An id that was not in use: when `Subscribe` returns, it returns that id, and when `Unsubscribe`
  -- of the id then returns, the list of the subscriptions is what it was before.
  pub unsubscribe-subscribe_list :
      (p : AittProtocol) (a : ℕ) (topic : Text) (c : Client M T) (y u : ℕ)
      → All (λ j. j.addr ≢ a) c.subscribed_list
      → (subscribe flex published mqtt_ops tcp_ops p a topic c).1 ≡ ok y
      → (unsubscribe flex published mqtt_ops tcp_ops a
          (subscribe flex published mqtt_ops tcp_ops p a topic c).0).1
        ≡ ok u
      → (y ≡ a)
        × ((unsubscribe flex published mqtt_ops tcp_ops a
              (subscribe flex published mqtt_ops tcp_ops p a topic c).0).0.subscribed_list
            ≡ c.subscribed_list)
  unsubscribe-subscribe_list p a topic c y u n e k =
      let (h, same, l) = subscribe-appends p a topic c y e in
      (
        same,
        unsubscribe-last (record { addr = a; protocol = p; handle = h }) c.subscribed_list
            (subscribe flex published mqtt_ops tcp_ops p a topic c).0 u l n k,
      )

  abbrev pub is_ok : Result (Unit {0}) → Bool
  is_ok (ok u) = true
  is_ok (err x) = false

  release_all-list :
      (is : List SubscribeInfo) (c : Client M T)
      → (release_all flex published mqtt_ops tcp_ops is c).0.subscribed_list ≡ (
          if is_ok (release_all flex published mqtt_ops tcp_ops is c).1
          then []
          else c.subscribed_list)
  unfolding release_all
  release_all-list [] c = refl
  release_all-list (i ∷ is) c =
      let l = release-list i c in
      let ih = release_all-list is (release flex published mqtt_ops tcp_ops i c).0 in
      elim (cases_of (release flex published mqtt_ops tcp_ops i c).1) [
        | inl (u, q) ↦ ground arith
        | inr (x, q) ↦ ground arith
      ]

  -- `UnsubscribeAll` empties the list when it returns; when a transport throws, the list still has
  -- all its entries, those that were released before included.
  pub unsubscribe_all-list :
      (c : Client M T)
      → (unsubscribe_all flex published mqtt_ops tcp_ops c).0.subscribed_list ≡ (
          if is_ok (unsubscribe_all flex published mqtt_ops tcp_ops c).1
          then []
          else c.subscribed_list)
  unfolding unsubscribe_all
  unsubscribe_all-list c = release_all-list c.subscribed_list c
