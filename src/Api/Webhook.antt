-- ===== src/Api/Webhook.antt =====
-- internal/api/middleware.go: `WebhookAuthMiddleware`. The constant-time comparison is equality.
use agent_dns.Zns.Fqan.{trim_prefix}
use agent_dns.Prelude.{
  ◌≡◌, ◌≢◌, ◌↔◌, ◌⊎◌, inl, inr, refl, sym, ap, ◌∙◌, ◌++◌, take, drop, length, take-append-drop,
  Option, none, some, ite, if_pos, if_neg, Bytes, Bytes-discrete, codes, [], arith,
}

pub data AuthError : Type 0 where
  missing_header : AuthError
  not_bearer : AuthError
  invalid_secret : AuthError

abbrev pub bearer : Bytes
bearer = codes "Bearer "

-- The error that is answered with the status 401, or `none` where the next handler is called.
unfoldable pub webhook_auth : Bytes → Bytes → Option AuthError
unfolding trim_prefix
webhook_auth secret auth_header =
    let token = trim_prefix bearer auth_header in
    ite (Bytes-discrete auth_header []) (some missing_header) (
      ite (Bytes-discrete token auth_header) (some not_bearer)
        (ite (Bytes-discrete token secret) none (some invalid_secret)))

trim_prefix-append : (secret : Bytes) → trim_prefix bearer (bearer ++ secret) ≡ secret
unfolding trim_prefix
trim_prefix-append secret = if_pos (Bytes-discrete bearer bearer) refl secret (bearer ++ secret)

-- A text that the prefix is trimmed from begins with it.
trim_prefix-cases : (s : Bytes) → (trim_prefix bearer s ≡ s) ⊎ (s ≡ bearer ++ trim_prefix bearer s)
unfolding trim_prefix
trim_prefix-cases s = elim (Bytes-discrete (take 7 s) bearer) [
  | yes p ↦ inr (
      sym (take-append-drop 7 s)
      ∙ ap (λ (t : Bytes). t ++ drop 7 s) p
      ∙ ap (λ (t : Bytes). bearer ++ t)
          (sym (if_pos (Bytes-discrete (take 7 s) bearer) p (drop 7 s) s)))
  | no n ↦ inl (if_neg (Bytes-discrete (take 7 s) bearer) n (drop 7 s) s)
]

token_is_secret :
    (secret header : Bytes) → webhook_auth secret header ≡ none → trim_prefix bearer header ≡ secret
unfolding webhook_auth
token_is_secret secret header h = ground arith

token_is_other :
    (secret header : Bytes) → webhook_auth secret header ≡ none → trim_prefix bearer header ≢ header
unfolding webhook_auth
token_is_other secret header h e = absurd (ground arith)

passed : (secret header : Bytes) → webhook_auth secret header ≡ none → header ≡ bearer ++ secret
passed secret header h = elim (trim_prefix-cases header) [
  | inl same ↦ absurd (token_is_other secret header h same)
  | inr cut ↦ cut ∙ ap (λ (t : Bytes). bearer ++ t) (token_is_secret secret header h)
]

longer : (s : Bytes) → s ≢ bearer ++ s
longer s e = absurd (omega (arith, ap (λ (t : Bytes). length t) e))

let_in : (secret : Bytes) → webhook_auth secret (bearer ++ secret) ≡ none
unfolding webhook_auth
let_in secret = let token = trim_prefix-append secret in ground (arith, token, longer secret)

-- The next handler is called exactly when the header is the secret behind the Bearer scheme.
pub webhook_auth_iff :
    (secret header : Bytes) → (webhook_auth secret header ≡ none) ↔ (header ≡ bearer ++ secret)
unfolding webhook_auth
webhook_auth_iff secret header = (λ h. passed secret header h, λ h. rw h (let_in secret))
