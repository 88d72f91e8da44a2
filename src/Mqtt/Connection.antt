-- ===== src/Mqtt/Connection.antt =====
-- src/MosquittoMQ.cc: the connection to the broker. The library mosquitto is not in the repository:
-- its calls are recorded, and its answers are given by a record.
pub mod Laws
use aitt.Base.{ℕ, ◌==◌, Bool, true, false, List, [], ◌∷◌, if◌then◌else◌, not, ◌&&◌, Text, is_empty}
use aitt.Types.{Result, ok, err, mqtt_err}

pub data Call : Type 0 where
  lib_init lib_cleanup destroy protocol_option loop_start loop_stop : Call
  message_callback_set connect_callback_set disconnect_callback_set : Call
  new_client : (id : Text) → (clean_session : Bool) → Call
  username_pw_set : (username : Text) → (password : Text) → Call
  connects : (host : Text) → (port : ℕ) → (keep_alive : ℕ) → Call
  will_set : (topic : Text) → (msg : Text) → (qos : ℕ) → (retain : Bool) → Call
  disconnects will_clear : Call

-- The answers after the calls before, the newest first. `returns` gives 0 for MOSQ_ERR_SUCCESS, and
-- `gives` the pointer of `mosquitto_new`, 0 for nullptr.
pub record Mosquitto : Type 0 where
  pub returns : List Call → Call → ℕ
  pub gives : List Call → ℕ

-- `AITT_CONNECTED`, `AITT_DISCONNECTED` and `AITT_CONNECT_FAILED`
pub data Status : Type 0 where
  connected disconnected connect_failed : Status

-- `connect_cb` is set or not; `told` lists what it was called with. Both lists have the newest first.
pub record Connection : Type 0 where
  pub handle : ℕ
  pub keep_alive : ℕ
  pub connect_cb : Bool
  pub calls : List Call
  pub told : List Status

abbrev pub called : Call → Connection → Connection
called call c = record c { calls = call ∷ c.calls }

abbrev pub unmade : Connection
unmade = record { handle = 0; keep_alive = 60; connect_cb = false; calls = []; told = [] }

module _ (lib : Mosquitto) where
  abbrev pub returned : Call → Connection → Bool
  returned call c = lib.returns c.calls call == 0

  -- What the constructor does at its end when one of its calls has failed.
  abbrev torn : Connection → Connection × Result (Unit {0})
  torn c = (called lib_cleanup (called destroy c), err mqtt_err)

  -- The constructor.
  unfoldable pub new_connection :
      (id : Text) → (clean_session : Bool) → Connection × Result (Unit {0})
  new_connection id clean_session =
      let c1 = called lib_init unmade in
      let c2 = record (called (new_client id clean_session) c1) { handle = lib.gives c1.calls } in
      let c3 = called protocol_option c2 in
      let c4 =
        called disconnect_callback_set
          (called connect_callback_set (called message_callback_set c3)) in
      if not (returned lib_init unmade)
      then torn c1
      else if c2.handle == 0
      then torn c2
      else if not (returned protocol_option c2)
      then torn c3
      else (c4, ok tt)

  unfoldable pub connect :
      (host : Text)
      → (port : ℕ) → (username password : Text) → Connection
      → Connection × Result (Unit {0})
  connect host port username password c =
      let c1 = if is_empty username then c else called (username_pw_set username password) c in
      let c2 = called (connects host port c.keep_alive) c1 in
      let c3 = called loop_start c2 in
      if not (is_empty username) && not (returned (username_pw_set username password) c)
      then (c1, err mqtt_err)
      else if not (returned (connects host port c.keep_alive) c1)
      then (c2, err mqtt_err)
      else if not (returned loop_start c2)
      then (c3, err mqtt_err)
      else (c3, ok tt)

  unfoldable pub set_will_info :
      Text → Text → (qos : ℕ) → (retain : Bool) → Connection → Connection × Result (Unit {0})
  set_will_info topic msg qos retain c =
      let will = will_set topic msg qos retain in
      (called will c, if returned will c then ok tt else err mqtt_err)

  unfoldable pub disconnect : Connection → Connection
  disconnect c =
      let c1 = called disconnects c in
      called loop_stop (if returned disconnects c then called will_clear c1 else c1)

-- The destructor; the subscribers are deleted with it.
unfoldable pub delete_connection : Connection → Connection
delete_connection c = called lib_cleanup (called destroy (record c { connect_cb = false }))

unfoldable pub set_connection_callback : Bool → Connection → Connection
set_connection_callback set c = record c { connect_cb = set }

-- `code` is CONNACK_ACCEPTED, 0, or another one.
unfoldable pub connect_callback : (code : ℕ) → Connection → Connection
connect_callback code c =
    if c.connect_cb
    then record c { told = (if code == 0 then connected else connect_failed) ∷ c.told }
    else c

unfoldable pub disconnect_callback : Connection → Connection
disconnect_callback c = if c.connect_cb then record c { told = disconnected ∷ c.told } else c
