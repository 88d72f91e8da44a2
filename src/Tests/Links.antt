-- ===== src/Tests/Links.antt =====
-- The theorems on src/MosquittoMQ.cc, src/ModuleManager.cc and src/AITTImpl.cc, how a client
-- connects, at concrete answers of the libraries.
use aitt.Base.{
  ℕ, ◌+◌, ◌==◌, ◌≡◌, ◌&&◌, refl, true, false, List, [], ◌∷◌, none, some, codes, if◌then◌else◌,
  negsuc, number_key,
}
use aitt.Modules.{
  Loading, stream_type_webrtc, stream_type_rtsp, stream_type_other, new_modules, destroy_stream_all,
  no_modules,
}
use aitt.Modules.Streams.{Use, creates, destroys, used_all, count, used_all-deleted}
use aitt.Mqtt.Connection.{
  Mosquitto, Connection, Call, connects, unmade, new_connection, delete_connection,
}
use aitt.Mqtt.Connection.Laws.{held, alive, loops, is_ok, new_connection-held}
use aitt.Discovery.{Discovery, stopped}
use aitt.Impl.Connecting.{Link, IsSettled, connect_client, connect_client-loops}

-- The broker does not answer on the port 1.
unfoldable answer : Call → ℕ
answer (connects host port keep_alive) = if port == 1 then 14 else 0
answer _ = 0

abbrev lib : Mosquitto
lib = record { returns = λ before call. answer call; gives = λ before. 9 }

new_connection-held_example :
    let (c, r) = new_connection lib (codes "a") true in
    (held c.calls ≡ (if is_ok r then 1 else 0))
    × ((alive lib c.calls ≡ (if is_ok r then 1 else 0))
        × ((held (delete_connection c).calls ≡ 0)
            × ((alive lib (delete_connection c).calls ≡ 0)
                × ((is_ok r && (c.handle == 0)) ≡ false))))
new_connection-held_example = new_connection-held lib (codes "a") true

abbrev made : Connection
made = record unmade { handle = 9 }

abbrev library : ℕ → Loading
library a = record { opened = true; found = true; made = some a }

abbrev absent : Loading
absent = record { opened = false; found = false; made = none }

abbrev uses : List Use
uses =
    creates (library 3) stream_type_webrtc
    ∷ creates (library 4) stream_type_rtsp
    ∷ destroys 3
    ∷ creates absent stream_type_other
    ∷ destroys 3
    ∷ []

used_all-deleted_example :
    (count 3 (used_all uses (new_modules (library 1) absent)).streams_in_use
        + count 3 (used_all uses (new_modules (library 1) absent)).deleted
      ≡ count 3 (used_all uses (new_modules (library 1) absent)).created)
    × (count 3 (destroy_stream_all (used_all uses (new_modules (library 1) absent))).deleted
        ≡ count 3 (destroy_stream_all (used_all uses (new_modules (library 1) absent))).created)
used_all-deleted_example = used_all-deleted uses (library 1) absent 3

abbrev discovery : Discovery
discovery = record {
  is_running = false;
  id = codes "a";
  callback_handle = 0;
  discovery_map = [];
  callbacks = [];
  calls = [];
}

abbrev link : Link
link = record {
  discovery = discovery;
  connection = made;
  modules = no_modules;
  broker_ip = [];
  broker_port = negsuc 0;
}

connect_client-loops_example :
    IsSettled lib
      (connect_client lib true true stopped (codes "b") 1 [] [] link).0
      (connect_client lib true true stopped (codes "b") 1 [] [] link).1
unfolding loops
connect_client-loops_example = connect_client-loops lib true true (codes "b") 1 [] [] link refl
