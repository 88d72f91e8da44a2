-- ===== src/CApi.antt =====
-- src/aitt_c.cc: the C interface of a client: what each function checks before it calls the client,
-- and the flag `connected` of the handle. A null pointer is `none`.
pub mod Session
use aitt.Base.{
  ℕ, Bool, true, false, List, [], ◌∷◌, ◌++◌, Option, none, some, if◌then◌else◌, not, ◌||◌, Text,
}

-- AITT_ERROR_NONE, AITT_ERROR_INVALID_PARAMETER, AITT_ERROR_SYSTEM and AITT_ERROR_NOT_READY
pub data Code : Type 0 where
  success invalid_parameter system not_ready : Code

-- The calls of the client. A protocol is a set of bits, and a callback or a handle is its address.
pub data ClientCall : Type 0 where
  connects : Text → ClientCall
  disconnects : ClientCall
  publishes : (topic : Text) → (msg : Text) → (protocols : ℕ) → (qos : ℕ) → ClientCall
  asks :
      (topic : Text) → (msg : Text) → (protocols : ℕ) → (cb : ℕ) → (correlation : Text) → ClientCall
  subscribes : (topic : Text) → (cb : ℕ) → (protocol : ℕ) → ClientCall
  unsubscribes : ℕ → ClientCall

-- `aitt_handle`; `has_client` tells whether its `aitt` is set. `calls` records the calls of it.
pub record Handle : Type 0 where
  pub has_client : Bool
  pub connected : Bool
  pub custom_broker : Bool
  pub calls : List ClientCall

-- A call of the client, which returns or throws.
abbrev pub reach : (returns : Bool) → ClientCall → Handle → Handle × Code
reach returns c h =
    let h' = record h { calls = h.calls ++ c ∷ [] } in
    if returns then (h', success) else (h', system)

-- The guards that most functions share.
abbrev pub ready : Handle → (Handle → Handle × Code) → Handle × Code
ready h f =
    if not h.has_client
    then (h, invalid_parameter)
    else if not h.connected
    then (h, not_ready)
    else f h

-- `if (p == nullptr) return AITT_ERROR_INVALID_PARAMETER`
abbrev pub given {ℓ} : {A : Type ℓ} → Option A → Handle → (A → Handle × Code) → Handle × Code
given none h f = (h, invalid_parameter)
given (some x) h f = f x

-- AITT_TYPE_MQTT and AITT_QOS_AT_MOST_ONCE
abbrev pub mqtt_type : ℕ
mqtt_type = 1

-- `valid_ip` is `inet_pton`; `returns` tells whether the client returns.
unfoldable pub connect_full :
    (valid_ip : Text → Bool) → (returns : Bool) → Option Text → Handle → Handle × Code
connect_full valid_ip returns host h = given host h (λ t.
    if h.custom_broker || valid_ip t
    then (let r = reach returns (connects t) h in
        if returns then (record (r.0) { connected = true }, success) else r)
    else (h, invalid_parameter))

unfoldable pub disconnect : (returns : Bool) → Handle → Handle × Code
disconnect returns h = ready h (reach returns disconnects)

-- The protocols and the quality of service are not handed on.
unfoldable pub publish_full :
    (returns : Bool) → Option Text → Option Text → ℕ → ℕ → Handle → Handle × Code
publish_full returns topic msg protocols qos h =
    ready h
      (λ h. given topic h (λ t. given msg h (λ m. reach returns (publishes t m mqtt_type 0) h)))

-- A correlation that is null makes the construction of its string throw.
unfoldable pub publish_with_reply :
    (returns : Bool)
    → Option Text
    → Option Text
    → ℕ
    → ℕ
    → Option Text
    → Option ℕ
    → Handle
    → Handle × Code
publish_with_reply returns topic msg protocols qos correlation cb h = ready h (λ h.
    given topic h (λ t. given msg h (λ m. given cb h (λ f. elim correlation [
      | none ↦ (h, system)
      | some c ↦ reach returns (asks t m protocols f c) h
    ]))))

unfoldable pub subscribe_full :
    (returns : Bool) → Option Text → Option ℕ → ℕ → ℕ → Option ℕ → Handle → Handle × Code
subscribe_full returns topic cb protocol qos sub_handle h = ready h (λ h.
    given topic h
      (λ t. given cb h (λ f. given sub_handle h (λ s. reach returns (subscribes t f protocol) h))))

unfoldable pub unsubscribe : (returns : Bool) → Option ℕ → Handle → Handle × Code
unsubscribe returns sub_handle h =
    ready h (λ h. given sub_handle h (λ s. reach returns (unsubscribes s) h))
