-- ===== src/Impl/Connecting.antt =====
-- src/AITTImpl.cc: how a client connects and disconnects: the discovery and the broker together.
use aitt.Base.{
  ℕ, ◌==◌, ◌≡◌, Bool, true, false, [], if◌then◌else◌, not, Text, ℤ, pos, negsuc, refl, arith,
  Bool-cases, inl, inr, ◌&&◌, ◌||◌, ◌+◌,
}
use aitt.Types.{Result, ok, err, mqtt_err}
use aitt.Discovery
use aitt.Discovery.{
  Discovery, StopEnd, stays_subscribed, stays_announced, stays_announced_twice, stays_connected,
  stopped,
}
use aitt.Mqtt.Connection
use aitt.Mqtt.Connection.{Mosquitto, Connection, disconnects, loop_stop, will_clear}
use aitt.Mqtt.Connection.Laws.{loops, is_ok, connect-loops}
use aitt.Modules.{Modules, destroy_stream_all}

-- What connects: the discovery, the connection to the broker, the streams, and the broker that was
-- named.
pub record Link : Type 0 where
  pub discovery : Discovery
  pub connection : Connection
  pub modules : Modules
  pub broker_ip : Text
  pub broker_port : ℤ

-- `willed` and `connected` tell what the `MQ` of the discovery does, and `end` how far `Stop` gets.
module _ (lib : Mosquitto) (willed connected : Bool) (end : StopEnd) where
  -- The handler of an exception: `Stop` may throw another one.
  unfoldable pub give_up : Discovery → Connection → Link → Link
  give_up d c l = record l {
    connection = Connection.disconnect lib c;
    discovery = (Discovery.stop end d).0;
  }

  unfoldable pub connect_client :
      (host : Text) → (port : ℕ) → (username password : Text) → Link → Link × Result (Unit {0})
  unfolding give_up
  connect_client host port username password l =
      let (d, r) = Discovery.start willed connected l.discovery in
      let (c, q) = Connection.connect lib host port username password l.connection in
      elim r [
        | err e ↦ (give_up d l.connection l, err mqtt_err)
        | ok u ↦ elim q [
          | err e ↦ (give_up d c l, err mqtt_err)
          | ok v ↦ (
            record l { discovery = d; connection = c; broker_ip = host; broker_port = pos port },
            ok tt,
          )
        ]
      ]

  -- `released` is what `UnsubscribeAll` does: an exception leaves everything as it is.
  unfoldable pub disconnect_client :
      (released : Result (Unit {0})) → Link → Link × Result (Unit {0})
  disconnect_client (err e) l = (l, err e)
  disconnect_client (ok u) l =
      let (d, r) = Discovery.stop end l.discovery in
      let l' = record l {
        modules = destroy_stream_all l.modules;
        broker_ip = [];
        broker_port = negsuc 0;
        discovery = d;
      } in
      elim r [
        | err e ↦ (l', err e)
        | ok v ↦ (record l' { connection = Connection.disconnect lib l.connection }, ok tt)
      ]

module _ (lib : Mosquitto) where
  disconnect-loops :
      (c : Connection) → loops lib c.calls ≡ 0 → loops lib (Connection.disconnect lib c).calls ≡ 0
  unfolding Connection.disconnect loops
  disconnect-loops c h = elim (Bool-cases (Connection.returned lib disconnects c)) [
    | inl e ↦ rw e (ground arith)
    | inr e ↦ rw e (ground arith)
  ]

  -- What a `Connect` leaves behind that has given `r`: one thread of the library or none, and in that
  -- case a discovery that does not run and has no subscription.
  pub IsSettled : Link → Result (Unit {0}) → Type 0
  IsSettled l r =
      (loops lib l.connection.calls ≡ (if is_ok r then 1 else 0))
      × (((not (is_ok r) && l.discovery.is_running) ≡ false)
          × ((is_ok r || (l.discovery.callback_handle == 0)) ≡ true))

  gave_up :
      (willed connected : Bool) (d : Discovery) (c : Connection) (l : Link)
      → loops lib c.calls ≡ 0
      → IsSettled (give_up lib willed connected stopped d c l) (err mqtt_err)
  unfolding give_up Discovery.stop IsSettled
  gave_up willed connected d c l h = (disconnect-loops c h, (refl, refl))

  -- A client whose connection runs no thread yet: after a `Connect` that returns, one thread of the
  -- library runs; after one that throws, none does, and the discovery is neither running nor
  -- subscribed, when `Stop` gets to its end.
  pub connect_client-loops :
      (willed connected : Bool) (host : Text) (port : ℕ) (username password : Text) (l : Link)
      → loops lib l.connection.calls ≡ 0
      → let (l', r) = connect_client lib willed connected stopped host port username password l in
        IsSettled l' r
  unfolding connect_client IsSettled
  connect_client-loops willed connected host port username password l h =
      settled (Discovery.start willed connected l.discovery)
        (Connection.connect lib host port username password l.connection)
        (connect-loops lib host username password port l.connection)
    where
      settled :
          (s : Discovery × Result (Unit {0})) (c : Connection × Result (Unit {0}))
          → loops lib c.0.calls ≡ (if is_ok c.1 then 1 else 0) + loops lib l.connection.calls
          → let (l', r) : Link × Result (Unit {0}) = elim s.1 [
            | err e ↦ (give_up lib willed connected stopped s.0 l.connection l, err mqtt_err)
            | ok u ↦ elim c.1 [
              | err e ↦ (give_up lib willed connected stopped s.0 c.0 l, err mqtt_err)
              | ok v ↦ (
                record l {
                  discovery = s.0;
                  connection = c.0;
                  broker_ip = host;
                  broker_port = pos port;
                },
                ok tt,
              )
            ]
          ] in
            IsSettled l' r
      settled (d, err e) c g = gave_up willed connected d l.connection l h
      settled (d, ok u) (c, err e) g = gave_up willed connected d c l (omega (arith, g, h))
      settled (d, ok u) (c, ok v) g = (omega (arith, g, h), (refl, refl))
