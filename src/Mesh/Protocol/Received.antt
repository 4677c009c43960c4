-- ===== src/Mesh/Protocol/Received.antt =====
-- internal/mesh/protocol.go: what `readMessage` accepts.
use agent_dns.Mesh.Protocol.Frames.{frame}
use agent_dns.Mesh.Protocol.{
  Envelope, max_message_size, put_uint32, uint32, read_full, Result, decoded, read_env, read_rest,
  read_message,
}
use mathlib.Core.Option.{none-ne-some, some-injective}
use agent_dns.Prelude.{
  ℕ, ◌+◌, ◌*◌, ◌/◌, ◌%◌, ◌^◌, ◌≤◌, ◌<◌, ltb, ◌≡◌, refl, sym, ap, ◌∙◌, subst, [], ◌∷◌, ◌++◌,
  append_assoc, Option, none, some, inl, inr, Bool-cases, Bytes, length, take, drop,
  take-append-drop, length-take, true, false, arith, All-split, AreBytes,
}

put_uint32-uint32 :
    (a b c d : ℕ)
    → a < 256
    → b < 256
    → c < 256
    → d < 256
    → put_uint32 (uint32 (a ∷ b ∷ c ∷ d ∷ [])) ≡ a ∷ b ∷ c ∷ d ∷ []
unfolding put_uint32 uint32
put_uint32-uint32 a b c d ha hb hc hd =
    let n = a * 2 ^ 24 + b * 2 ^ 16 + c * 2 ^ 8 + d in
    let pa : n / 2 ^ 24 % 256 ≡ a = omega arith in
    let pb : n / 2 ^ 16 % 256 ≡ b = omega arith in
    let pc : n / 2 ^ 8 % 256 ≡ c = omega arith in
    let pd : n % 256 ≡ d = omega arith in λ i. pa i ∷ pb i ∷ pc i ∷ pd i ∷ []

header_bytes : (s : Bytes) → length s ≡ 4 → AreBytes s → put_uint32 (uint32 s) ≡ s
header_bytes (a ∷ b ∷ c ∷ d ∷ []) h (ha, (hb, (hc, (hd, t)))) =
    put_uint32-uint32 a b c d ha hb hc hd
header_bytes [] h p = absurd (omega arith)
header_bytes (a ∷ []) h p = absurd (omega arith)
header_bytes (a ∷ b ∷ []) h p = absurd (omega arith)
header_bytes (a ∷ b ∷ c ∷ []) h p = absurd (omega arith)
header_bytes (a ∷ b ∷ c ∷ d ∷ e ∷ s) h p = absurd (omega arith)

-- A whole read takes that many bytes from the front.
short : (conn : Bytes) (n : ℕ) → ltb (length conn) n ≡ true → (none, []) ≡ read_full n conn
unfolding read_full
short conn n e = rw e refl

long :
    (conn : Bytes) (n : ℕ)
    → ltb (length conn) n ≡ false
    → (some (take n conn), drop n conn) ≡ read_full n conn
unfolding read_full
long conn n e = rw e refl

read_full-some :
    (n : ℕ) (conn s rest : Bytes)
    → read_full n conn ≡ (some s, rest)
    → (conn ≡ s ++ rest) × (length s ≡ n)
unfolding read_full
read_full-some n conn s rest h = elim (Bool-cases (ltb (length conn) n)) [
  | inl e ↦ absurd (none-ne-some s (ap (λ (x : Option Bytes × Bytes). x.0) (short conn n e ∙ h)))
  | inr e ↦
      let front : take n conn ≡ s =
        some-injective _ _ (ap (λ (x : Option Bytes × Bytes). x.0) (long conn n e ∙ h)) in
      let back : drop n conn ≡ rest = ap (λ (x : Option Bytes × Bytes). x.1) (long conn n e ∙ h) in
      (
        sym (take-append-drop n conn) ∙ (λ i. front i ++ back i),
        sym (ap (λ (t : Bytes). length t) front) ∙ length-take n conn ∙ ground arith,
      )
]

abbrev got : Result × Bytes → Option Envelope
got (Result.received env, conn) = some env
got (Result.failed e, conn) = none

got-decoded :
    (unmarshal : Bytes → Option Envelope) (o : Option Envelope) (conn : Bytes)
    → got (decoded unmarshal o, conn) ≡ o
got-decoded unmarshal none conn = refl
got-decoded unmarshal (some env) conn = refl

-- What leads to an envelope, from its size on.
received_text :
    (unmarshal : Bytes → Option Envelope) (p : Option Bytes × Bytes) (rest : Bytes) (env : Envelope)
    → read_env unmarshal p ≡ (Result.received env, rest)
    → (s : Bytes) × (p ≡ (some s, rest)) × (unmarshal s ≡ some env)
received_text unmarshal (none, conn) rest env h = absurd (none-ne-some env (ap got h))
received_text unmarshal (some s, conn) rest env h =
    (s, (λ i. (some s, (h i).1)), sym (got-decoded unmarshal (unmarshal s) conn) ∙ ap got h)

-- What leads to an envelope, from the start.
received_from :
    (unmarshal : Bytes → Option Envelope) (p : Option Bytes × Bytes) (rest : Bytes) (env : Envelope)
    → read_rest unmarshal p ≡ (Result.received env, rest)
    → (buf : Bytes) × (conn : Bytes) × (s : Bytes) × (p ≡ (some buf, conn))
      × (uint32 buf ≤ max_message_size)
      × (read_full (uint32 buf) conn ≡ (some s, rest))
      × (unmarshal s ≡ some env)
unfolding read_rest
received_from unmarshal (none, conn) rest env h = absurd (none-ne-some env (ap got h))
received_from unmarshal (some buf, conn) rest env h =
    elim (Bool-cases (ltb max_message_size (uint32 buf))) [
      | inl e ↦ absurd (none-ne-some env (ap got (rw e at h)))
      | inr e ↦
          let (s, whole, text) =
            received_text unmarshal (read_full (uint32 buf) conn) rest env (rw e at h) in
          (buf, conn, s, refl, ground arith, whole, text)
    ]

module _ (unmarshal : Bytes → Option Envelope) where
  -- What `readMessage` accepts is a frame of at most the largest size, whose text `json.Unmarshal` accepts:
  -- a stream that ends within a frame, or that announces too much, gives an error.
  pub read_message-frame_only :
      (conn rest : Bytes) (env : Envelope)
      → AreBytes conn
      → read_message unmarshal conn ≡ (Result.received env, rest)
      → (s : Bytes) × (conn ≡ frame s ++ rest)
        × (unmarshal s ≡ some env)
        × (length s ≤ max_message_size)
  unfolding read_message frame
  read_message-frame_only conn rest env b h =
      let (buf, left, s, header, small, whole, text) =
        received_from unmarshal (read_full 4 conn) rest env h in
      let (front, four) = read_full-some 4 conn buf left header in
      let (bytes, others) = All-split (λ x. x < 256) buf left (subst AreBytes front b) in
      let (back, size) = read_full-some (uint32 buf) left s rest whole in
      let same : buf ≡ put_uint32 (length s) =
        sym (header_bytes buf four bytes) ∙ ap put_uint32 (sym size) in
      (
        s,
        front ∙ (λ i. buf ++ back i) ∙ sym (append_assoc buf s rest) ∙ (λ i. (same i ++ s) ++ rest),
        text,
        omega arith,
      )
