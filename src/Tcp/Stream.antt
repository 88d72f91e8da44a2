-- ===== src/Tcp/Stream.antt =====
-- modules/tcp/TCP.cc: `Send` and `Recv`, the loops over `send` and `recv`. The operating system is
-- not part of the repository: its answers, one for each call, are a list. Where the list ends, the
-- call does not return.
pub mod Sending
pub mod Receiving
use aitt.Base.{
  ℕ, zero, suc, ◌+◌, ◌-◌, min, Bool, List, [], ◌∷◌, ◌++◌, if◌then◌else◌, ltb, length, take, drop,
  Text, ℤ, negsuc,
}

-- `send` fails, or takes some of the bytes.
pub data SendAnswer : Type 0 where
  refused : SendAnswer
  wrote : ℕ → SendAnswer

-- The sending side: the answers to come, and all bytes that were taken so far.
pub record Line : Type 0 where
  pub answers : List SendAnswer
  pub out : Text

pub data SendEnd : Type 0 where
  sent : Line → SendEnd
  send_thrown : Line → SendEnd
  send_blocked : Line → SendEnd

-- The loop, with the first n bytes of the data taken.
unfoldable pub send_loop : List SendAnswer → Text → ℕ → Text → SendEnd
send_loop [] bytes n out =
    let line : Line = record { answers = []; out = out } in
    if ltb n (length bytes) then send_blocked line else sent line
send_loop (refused ∷ answers) bytes n out =
    if ltb n (length bytes)
    then send_thrown (record { answers = answers; out = out })
    else sent (record { answers = refused ∷ answers; out = out })
send_loop (wrote k ∷ answers) bytes n out =
    let t = min k (length bytes - n) in
    let rest = send_loop answers bytes (n + t) (out ++ take t (drop n bytes)) in
    if ltb n (length bytes) then rest else sent (record { answers = wrote k ∷ answers; out = out })

unfoldable pub send : Text → Line → SendEnd
unfolding send_loop
send bytes line = send_loop line.answers bytes 0 line.out

-- `recv` fails, tells that the peer has closed the connection, or gives at most k + 1 bytes.
pub data RecvAnswer : Type 0 where
  recv_refused closed : RecvAnswer
  got : ℕ → RecvAnswer

-- The receiving side: the answers to come, and the bytes that have not been read.
pub record Source : Type 0 where
  pub answers : List RecvAnswer
  pub input : Text

-- With an error code comes what was read before.
pub data RecvEnd : Type 0 where
  received : Text → Source → RecvEnd
  recv_failed : ℤ → Text → Source → RecvEnd
  recv_waits : RecvEnd

-- -1 and -ENOTCONN
abbrev pub minus_one : ℤ
minus_one = negsuc 0

abbrev pub enotconn : ℤ
enotconn = negsuc 106

-- The loop, with n bytes still to read. `recv` waits while there is no byte.
unfoldable pub recv_loop : List RecvAnswer → Text → ℕ → Text → RecvEnd
recv_loop [] input n buffer =
    if ltb 0 n then recv_waits else received buffer (record { answers = []; input = input })
recv_loop (recv_refused ∷ answers) input n buffer =
    if ltb 0 n
    then recv_failed minus_one buffer (record { answers = answers; input = input })
    else received buffer (record { answers = recv_refused ∷ answers; input = input })
recv_loop (closed ∷ answers) input n buffer =
    if ltb 0 n
    then recv_failed enotconn buffer (record { answers = answers; input = input })
    else received buffer (record { answers = closed ∷ answers; input = input })
recv_loop (got k ∷ answers) input n buffer =
    let t = min (suc k) (min n (length input)) in
    let rest = recv_loop answers (drop t input) (n - t) (buffer ++ take t input) in
    if ltb 0 n
    then (if ltb 0 (length input) then rest else recv_waits)
    else received buffer (record { answers = got k ∷ answers; input = input })

unfoldable pub recv : ℕ → Source → RecvEnd
unfolding recv_loop
recv n source = recv_loop source.answers source.input n []
