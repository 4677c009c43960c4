-- ===== src/Mesh/Protocol/Frames.antt =====
-- internal/mesh/protocol.go: what is read from a connection is what was written to it.
use agent_dns.Mesh.Protocol.{
  Envelope, max_message_size, put_uint32, uint32, WriteError, write, write_rest, write_marshalled,
  read_full, Result, write_message, read_rest, read_message,
}
use agent_dns.Prelude.{
  ℕ, zero, suc, ◌+◌, ◌%◌, ◌^◌, ◌≤◌, ◌<◌, ltb, ◌≡◌, refl, sym, ap, ◌∙◌, List, [], ◌∷◌, ◌++◌,
  append_assoc, append-nil, Option, none, some, Bytes, length, length-append, take-append,
  drop-append, false, arith, All,
}

uint32-put_uint32 : (n : ℕ) → n < 2 ^ 32 → uint32 (put_uint32 n) ≡ n
unfolding uint32 put_uint32
uint32-put_uint32 n h = omega arith

-- A frame is whole at the front of what can be read.
read_full-append : (s rest : Bytes) → read_full (length s) (s ++ rest) ≡ (some s, rest)
unfolding read_full
read_full-append s rest =
    let long : ltb (length s + length rest) (length s) ≡ false = ground arith in
    rw (length-append s rest, long, take-append s rest, drop-append s rest) refl

unfoldable pub frame : Bytes → Bytes
frame s = put_uint32 (length s) ++ s

read_full-header :
    (n : ℕ) (rest : Bytes) → read_full 4 (put_uint32 n ++ rest) ≡ (some (put_uint32 n), rest)
unfolding put_uint32
read_full-header n rest = read_full-append (put_uint32 n) rest

-- Calls of `writeMessage` on a connection whose writes succeed, up to the first error.
send_after :
    (Bytes → Option WriteError × Bytes) → Option WriteError × Bytes → Option WriteError × Bytes
send_after f (none, conn) = f conn
send_after f (some e, conn) = (some e, conn)

unfoldable pub send_all :
    (Envelope → Option Bytes) → List Envelope → Bytes → Option WriteError × Bytes
unfolding write_message send_after
send_all marshal [] conn = (none, conn)
send_all marshal (env ∷ envs) conn =
    send_after (λ c. send_all marshal envs c) (write_message marshal none none env conn)

-- Calls of `readMessage`, `n` of them.
unfoldable pub receive : (Bytes → Option Envelope) → ℕ → Bytes → List Result × Bytes
unfolding read_message
receive unmarshal zero conn = ([], conn)
receive unmarshal (suc n) conn =
    let (result, left) = read_message unmarshal conn in
    let (results, left') = receive unmarshal n left in (result ∷ results, left')

-- The envelope has a text within the limit, from which it is read back.
abbrev pub IsSendable : (Envelope → Option Bytes) → (Bytes → Option Envelope) → Envelope → Type 0
IsSendable marshal unmarshal env =
    (s : Bytes) × (marshal env ≡ some s) × (length s ≤ max_message_size) × (unmarshal s ≡ some env)

abbrev pub all_received : List Envelope → List Result
all_received [] = []
all_received (env ∷ envs) = Result.received env ∷ all_received envs

module _ (marshal : Envelope → Option Bytes) (unmarshal : Bytes → Option Envelope) where
  read_message-frame :
      (env : Envelope) (s rest : Bytes)
      → marshal env ≡ some s
      → length s ≤ max_message_size
      → unmarshal s ≡ some env
      → read_message unmarshal (frame s ++ rest) ≡ (Result.received env, rest)
  unfolding read_message frame
  read_message-frame env s rest e small back =
      let n = length s in
      let fits : ltb max_message_size n ≡ false = ground arith in
      let size : uint32 (put_uint32 n) ≡ n = uint32-put_uint32 n (omega arith) in
      ap (read_message unmarshal) (append_assoc (put_uint32 n) s rest)
      ∙ ap (read_rest unmarshal) (read_full-header n (s ++ rest))
      ∙ rw (size, fits, read_full-append s rest, back) refl

  write_message-frame :
      (env : Envelope) (s conn : Bytes)
      → marshal env ≡ some s
      → length s ≤ max_message_size
      → write_message marshal none none env conn ≡ (none, conn ++ frame s)
  unfolding write_message write_marshalled write_rest write frame
  write_message-frame env s conn e small =
      let fits : ltb max_message_size (length s) ≡ false = ground arith in
      let size : length s % 2 ^ 32 ≡ length s = omega arith in
      rw (e, fits, size) (λ i. (none, append_assoc conn (put_uint32 (length s)) s i))

  -- Where the text of each envelope that is sent is within the limit, and `json.Unmarshal` gives this
  -- envelope back from it, all envelopes that are sent on a connection are received in order, and what
  -- follows them is left.
  pub receive-send_all :
      (envs : List Envelope) (conn : Bytes)
      → All (IsSendable marshal unmarshal) envs
      → (frames : Bytes) × (send_all marshal envs conn ≡ (none, conn ++ frames))
        × ((rest : Bytes)
            → receive unmarshal (length envs) (frames ++ rest) ≡ (all_received envs, rest))
  unfolding send_all receive send_after
  receive-send_all [] conn h = ([], (λ i. (none, sym (append-nil conn) i)), λ rest. refl)
  receive-send_all (env ∷ envs) conn ((s, e, small, again), h) =
      let (frames, sent, back) = receive-send_all envs (conn ++ frame s) h in
      (
        frame s ++ frames,
        rw (write_message-frame env s conn e small)
            (sent ∙ (λ i. (none, append_assoc conn (frame s) frames i))),
        λ rest.
            rw
              (
                append_assoc (frame s) frames rest,
                read_message-frame env s (frames ++ rest) e small again,
                back rest,
              )
              refl,
      )
