-- ===== src/Mqtt/Connection/Laws.antt =====
-- src/MosquittoMQ.cc: what the constructor and `Connect` leave behind when they throw.
use aitt.Base.{
  ℕ, suc, ◌+◌, ◌-◌, ◌==◌, ◌≡◌, refl, Bool, true, false, List, [], ◌∷◌, if◌then◌else◌, ◌&&◌, Text,
  is_empty, Bool-cases, inl, inr, arith,
}
use aitt.Types.{Result, ok, err}
use aitt.Mqtt.Connection.{
  Call, destroy, new_client, lib_init, lib_cleanup, loop_start, loop_stop, username_pw_set,
  connects, protocol_option, Mosquitto, Connection, called, returned, unmade, new_connection,
  connect, delete_connection,
}

-- How often the library was initialised and not cleaned up again.
unfoldable pub held : List Call → ℕ
held [] = 0
held (lib_init ∷ cs) = suc (held cs)
held (lib_cleanup ∷ cs) = held cs - 1
held (_ ∷ cs) = held cs

-- How many handles the library has given, other than nullptr, that were not destroyed again.
unfoldable pub alive : Mosquitto → List Call → ℕ
alive lib [] = 0
alive lib (new_client id clean_session ∷ cs) =
    let rest = alive lib cs in if lib.gives cs == 0 then rest else suc rest
alive lib (destroy ∷ cs) = alive lib cs - 1
alive lib (_ ∷ cs) = alive lib cs

-- How many threads of the library run: those that were started, less those that were stopped.
unfoldable pub loops : Mosquitto → List Call → ℕ
loops lib [] = 0
loops lib (loop_start ∷ cs) =
    let rest = loops lib cs in if lib.returns cs loop_start == 0 then suc rest else rest
loops lib (loop_stop ∷ cs) =
    let rest = loops lib cs in if lib.returns cs loop_stop == 0 then rest - 1 else rest
loops lib (_ ∷ cs) = loops lib cs

abbrev pub is_ok : Result (Unit {0}) → Bool
is_ok (ok u) = true
is_ok (err e) = false

module _ (lib : Mosquitto) where
  -- A constructor that throws has given the library back, and destroyed the handle that it may have
  -- had; one that returns has a handle that is not destroyed and holds the library once, and the
  -- destructor destroys the one and gives back the other.
  pub new_connection-held :
      (id : Text) (clean_session : Bool)
      → let (c, r) = new_connection lib id clean_session in
        (held c.calls ≡ (if is_ok r then 1 else 0))
        × ((alive lib c.calls ≡ (if is_ok r then 1 else 0))
            × ((held (delete_connection c).calls ≡ 0)
                × ((alive lib (delete_connection c).calls ≡ 0)
                    × ((is_ok r && (c.handle == 0)) ≡ false))))
  unfolding new_connection delete_connection held alive
  new_connection-held id clean_session =
      let c1 = called lib_init unmade in
      let handle = lib.gives c1.calls in
      let c2 = record (called (new_client id clean_session) c1) { handle = handle } in
      elim (Bool-cases (returned lib lib_init unmade)) [
        | inr e ↦ rw e (refl, (refl, (refl, (refl, refl))))
        | inl e ↦ elim (Bool-cases (handle == 0)) [
          | inl f ↦ rw (e, f) (refl, (ground arith, (refl, (ground arith, refl))))
          | inr f ↦ elim (Bool-cases (returned lib protocol_option c2)) [
            | inr g ↦ rw (e, f, g) (refl, (ground arith, (refl, (ground arith, refl))))
            | inl g ↦ rw (e, f, g) (refl, (ground arith, (refl, (ground arith, f))))
          ]
        ]
      ]

  loops-start :
      (b : Bool) (c : Connection)
      → returned lib loop_start c ≡ b
      → loops lib (called loop_start c).calls ≡ (if b then 1 else 0) + loops lib c.calls
  unfolding loops
  loops-start true c h = rw h (omega arith)
  loops-start false c h = rw h (omega arith)

  -- One thread of the library more runs after `Connect` exactly when it returns: one that throws, at
  -- whatever it throws, has started none.
  pub connect-loops :
      (host username password : Text) (port : ℕ) (c : Connection)
      → let (c', r) = connect lib host port username password c in
        loops lib c'.calls ≡ (if is_ok r then 1 else 0) + loops lib c.calls
  unfolding connect loops
  connect-loops host username password port c =
      let credentials = username_pw_set username password in
      let c1 = if is_empty username then c else called credentials c in
      let c2 = called (connects host port c.keep_alive) c1 in
      elim (Bool-cases (is_empty username)) [
        | inl e ↦ elim (Bool-cases (returned lib (connects host port c.keep_alive) c)) [
          | inr g ↦ rw (e, g) (omega arith)
          | inl g ↦
              elim (Bool-cases
                (returned lib loop_start (called (connects host port c.keep_alive) c))) [
                  | inl h ↦
                      rw (e, g, h) (loops-start true (called (connects host port c.keep_alive) c) h)
                  | inr h ↦
                      rw (e, g, h)
                        (loops-start false (called (connects host port c.keep_alive) c) h)
                ]
        ]
        | inr e ↦ elim (Bool-cases (returned lib credentials c)) [
          | inr f ↦ rw (e, f) (omega arith)
          | inl f ↦
              elim (Bool-cases
                (returned lib (connects host port c.keep_alive) (called credentials c))) [
                  | inr g ↦ rw (e, f, g) (omega arith)
                  | inl g ↦
                      elim (Bool-cases (
                        returned lib loop_start
                          (called (connects host port c.keep_alive) (called credentials c)))) [
                            | inl h ↦
                                rw (e, f, g, h)
                                  (loops-start true
                                    (called (connects host port c.keep_alive)
                                      (called credentials c))
                                    h)
                            | inr h ↦
                                rw (e, f, g, h)
                                  (loops-start false
                                    (called (connects host port c.keep_alive)
                                      (called credentials c))
                                    h)
                          ]
                ]
        ]
      ]
