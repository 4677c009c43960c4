-- ===== src/Zns/Fqan/Sound.antt =====
-- What the parsers accept.
use agent_dns.Prelude.{
  ◌≡◌, ◌≢◌, refl, ap, ◌∙◌, [], ◌∷◌, Option, none, some, Bytes, arith, Option-cases, inl, inr, subst,
}
use agent_dns.Zns.Fqan.Cuts.{Lacks, cut_first-some}
use agent_dns.Zns.Fqan.{
  Result, ok, failed, ◌>>=◌, slash, build_fqan, cut_first, non_empty, parse_qualified_fqan,
  split_three, checked, validated, three_parts, parse_fqan, FqanError, empty_host,
  bad_developer_handle, bad_agent_name,
}
use agent_dns.Zns.Name.{NameError, validate_handle, validate_agent_name}

bind_ok {ℓ κ} :
    {A : Type ℓ} {B : Type κ} {result : B} (first : Result A) (next : A → Result B)
    → (first >>= next) ≡ ok result
    → (value : A) × (first ≡ ok value) × (next value ≡ ok result)
bind_ok (failed reason) next h = absurd (cc)
bind_ok (ok value) next h = (value, refl, h)

split_three-build :
    (base : Bytes) {host dev agent : Bytes}
    → split_three base ≡ some (host, dev, agent)
    → (base ≡ build_fqan host dev agent) × Lacks slash host × Lacks slash dev
unfolding split_three build_fqan
split_three-build base {host} {dev} {agent} h = elim (Option-cases (cut_first slash base)) [
  | inl miss ↦ absurd (ground arith)
  | inr ((a, rest), hit) ↦ elim (Option-cases (cut_first slash rest)) [
    | inl miss ↦ absurd (ground arith)
    | inr ((b, c), found) ↦
        let (whole, la) = cut_first-some slash base hit in
        let (inner, lb) = cut_first-some slash rest found in
        let ea : a ≡ host = ground arith in
        let eb : b ≡ dev = ground arith in
        let ec : c ≡ agent = ground arith in
        (rw (← ea, ← eb, ← ec, whole, inner) refl, rw (← ea) la, rw (← eb) lb)
  ]
]

three_parts_ok :
    (o : Option (Bytes × Bytes × Bytes)) {p : Bytes × Bytes × Bytes}
    → three_parts o ≡ ok p
    → o ≡ some p
three_parts_ok none h = absurd (cc)
three_parts_ok (some q) h = cc

non_empty_ok : (e : FqanError) (s : Bytes) {t : Bytes} → non_empty e s ≡ ok t → (t ≡ s) × (s ≢ [])
non_empty_ok e [] h = absurd (cc)
non_empty_ok e (c ∷ s) h = (cc, λ f. cc)

checked_ok :
    (wrap : NameError → FqanError) (s : Bytes) (o : Option NameError) {t : Bytes}
    → checked wrap s o ≡ ok t
    → (t ≡ s) × (o ≡ none)
checked_ok wrap s none h = (cc, refl)
checked_ok wrap s (some e) h = absurd (cc)

validated_ok :
    (host dev agent : Bytes) {host' dev' agent' : Bytes}
    → validated host dev agent ≡ ok (host', dev', agent')
    → (host ≡ host')
      × (dev ≡ dev')
      × (agent ≡ agent')
      × (host ≢ [])
      × (validate_handle dev ≡ none)
      × (validate_agent_name agent ≡ none)
unfolding validated
validated_ok host dev agent h =
    let (a, eh, h3) = bind_ok (non_empty empty_host host) _ h in
    let (b, ed, h4) = bind_ok (checked bad_developer_handle dev (validate_handle dev)) _ h3 in
    let (c, ea, h5) = bind_ok (checked bad_agent_name agent (validate_agent_name agent)) _ h4 in
    let (sh, some_host) = non_empty_ok empty_host host eh in
    let (sd, vd) = checked_ok bad_developer_handle dev (validate_handle dev) ed in
    let (sa, va) = checked_ok bad_agent_name agent (validate_agent_name agent) ea in
    (ground arith, ground arith, ground arith, some_host, vd, va)

parse_fqan_bind :
    (fqan : Bytes) {parts : Bytes × Bytes × Bytes}
    → parse_fqan fqan ≡ ok parts
    → (q : Bytes × Bytes × Bytes) × (parse_qualified_fqan fqan ≡ ok q)
      × ((three_parts (split_three q.0) >>= λ p. validated p.0 p.1 p.2) ≡ ok parts)
unfolding parse_fqan
parse_fqan_bind fqan h = bind_ok (parse_qualified_fqan fqan) _ h

-- What `ParseFQAN` accepts: the three components are a non-empty host without a slash, a handle
-- and an agent name that the validators accept, and the base that `ParseQualifiedFQAN` finds in
-- the text is the name built from them.
pub parse_fqan_sound :
    (fqan : Bytes) {host dev agent : Bytes}
    → parse_fqan fqan ≡ ok (host, dev, agent)
    → (version capability : Bytes) × (parse_qualified_fqan fqan
        ≡ ok (build_fqan host dev agent, version, capability))
      × (host ≢ [])
      × Lacks slash host
      × (validate_handle dev ≡ none)
      × (validate_agent_name agent ≡ none)
parse_fqan_sound fqan {host} {dev} {agent} h =
    let ((base, version, capability), q, h1) = parse_fqan_bind fqan h in
    let ((host', dev', agent'), parts, h2) = bind_ok (three_parts (split_three base)) _ h1 in
    let (whole, lh, ld) = split_three-build base (three_parts_ok (split_three base) parts) in
    let (fh, fd, fa, some_host, vd, va) = validated_ok host' dev' agent' h2 in
    let built : base ≡ build_fqan host dev agent =
      whole
      ∙ ap (λ x. build_fqan x dev' agent') fh
      ∙ ap (λ x. build_fqan host x agent') fd
      ∙ ap (build_fqan host dev) fa in
    (
      version,
      capability,
      q ∙ ap (λ b. ok (b, version, capability)) built,
      subst (λ x. x ≢ []) fh some_host,
      subst (Lacks slash) fh lh,
      subst (λ x. validate_handle x ≡ none) fd vd,
      subst (λ x. validate_agent_name x ≡ none) fa va,
    )
