-- ===== src/Mesh/Protocol.antt =====
-- internal/mesh/protocol.go: frames on a connection. A connection is the bytes that were written to it, or
-- those that can still be read from it before its end or its deadline. `json.Marshal` and
-- `json.Unmarshal` are parameters.
pub mod Frames
pub mod Received
use agent_dns.Prelude.{
  ℕ, zero, suc, ◌+◌, ◌*◌, ◌/◌, ◌%◌, ◌^◌, ltb, List, [], ◌∷◌, ◌++◌, Option, none, some, Bytes,
  length, take, drop, if◌then◌else◌,
}

pub record Envelope : Type 0 where
  pub message_type : Bytes
  pub payload : Bytes

abbrev pub max_message_size : ℕ
max_message_size = 2 ^ 20

-- `binary.BigEndian.PutUint32`
unfoldable pub put_uint32 : ℕ → Bytes
put_uint32 n = n / 2 ^ 24 % 256 ∷ n / 2 ^ 16 % 256 ∷ n / 2 ^ 8 % 256 ∷ n % 256 ∷ []

-- `binary.BigEndian.Uint32`
unfoldable pub uint32 : Bytes → ℕ
uint32 (a ∷ b ∷ c ∷ d ∷ s) = a * 2 ^ 24 + b * 2 ^ 16 + c * 2 ^ 8 + d
uint32 s = 0

pub data WriteError : Type 0 where
  marshal_failed : WriteError
  outgoing_too_large : ℕ → WriteError
  write_length : WriteError
  write_payload : WriteError

pub data ReadError : Type 0 where
  read_length : ReadError
  incoming_too_large : ℕ → ReadError
  read_payload : ReadError
  unmarshal_failed : ReadError

-- What a call of `conn.Write` comes to: all bytes are written, or some of them and an error.
abbrev pub Fault : Type 0
Fault = Option ℕ

unfoldable pub write : Fault → Bytes → Bytes → Bytes
write none s conn = conn ++ s
write (some n) s conn = conn ++ take n s

abbrev pub write_rest : Fault → Fault → Bytes → Bytes → Option WriteError × Bytes
unfolding write put_uint32
write_rest (some n) f s conn =
    (some write_length, write (some n) (put_uint32 (length s % 2 ^ 32)) conn)
write_rest none (some n) s conn =
    (some write_payload, write (some n) s (write none (put_uint32 (length s % 2 ^ 32)) conn))
write_rest none none s conn =
    (none, write none s (write none (put_uint32 (length s % 2 ^ 32)) conn))

abbrev pub write_marshalled : Fault → Fault → Option Bytes → Bytes → Option WriteError × Bytes
unfolding write_rest
write_marshalled f g none conn = (some marshal_failed, conn)
write_marshalled f g (some s) conn =
    if ltb max_message_size (length s)
    then (some (outgoing_too_large (length s)), conn)
    else write_rest f g s conn

-- `io.ReadFull` of `n` bytes; too few are read all the same.
unfoldable pub read_full : ℕ → Bytes → Option Bytes × Bytes
read_full n conn = if ltb (length conn) n then (none, []) else (some (take n conn), drop n conn)

pub data Result : Type 0 where
  received : Envelope → Result
  failed : ReadError → Result

module _ (marshal : Envelope → Option Bytes) where
  unfoldable pub write_message : Fault → Fault → Envelope → Bytes → Option WriteError × Bytes
  unfolding write_marshalled
  write_message f g msg conn = write_marshalled f g (marshal msg) conn

  -- `sendTyped`, whose payload is given as what `json.Marshal` makes of it.
  unfoldable pub send_typed :
      Fault → Fault → Bytes → Option Bytes → Bytes → Option WriteError × Bytes
  unfolding write_message
  send_typed f g message_type none conn = (some marshal_failed, conn)
  send_typed f g message_type (some s) conn =
      write_message f g (record { message_type = message_type; payload = s }) conn

module _ (unmarshal : Bytes → Option Envelope) where
  abbrev pub decoded : Option Envelope → Result
  decoded none = failed unmarshal_failed
  decoded (some env) = received env

  abbrev pub read_env : Option Bytes × Bytes → Result × Bytes
  read_env (none, conn) = (failed read_payload, conn)
  read_env (some s, conn) = (decoded (unmarshal s), conn)

  abbrev pub read_rest : Option Bytes × Bytes → Result × Bytes
  unfolding read_full uint32
  read_rest (none, conn) = (failed read_length, conn)
  read_rest (some len_buf, conn) =
      if ltb max_message_size (uint32 len_buf)
      then (failed (incoming_too_large (uint32 len_buf)), conn)
      else read_env (read_full (uint32 len_buf) conn)

  -- The envelope or an error, and the bytes that are left.
  unfoldable pub read_message : Bytes → Result × Bytes
  unfolding read_full read_rest
  read_message conn = read_rest (read_full 4 conn)
