-- ===== src/Zns/Fqan/RoundTrip.antt =====
-- Names that are built are parsed back.
use agent_dns.Zns.Fqan.Schemes.{IsName-Lacks, no_scheme, Scheme}
use agent_dns.Prelude.{
  ℕ, ◌≡◌, ◌≢◌, refl, sym, ap, ◌∙◌, [], ◌∷◌, ◌++◌, none, some, Bytes, Bytes-discrete, codes,
  All-append, if_pos, arith, length, take, append_assoc, append-nil, take-append, drop-append,
}
use agent_dns.Zns.Fqan.Cuts.{Lacks, cut_first-append, cut_last-none, cut_last-append}
use agent_dns.Zns.Fqan.{
  ok, ◌>>=◌, slash, build_fqan, trim_prefix, cut_last, qualifier, non_empty, parse_qualified_fqan,
  split_three, validated, three_parts, parse_fqan, is_empty, FqanError, empty_capability,
  empty_version, empty_base,
}
use agent_dns.Zns.Name.Grammar.{IsName, validate_handle_iff, validate_agent_name_iff}
use agent_dns.Zns.Name.{validate_handle, validate_agent_name}

-- A qualifier behind its mark; the empty text stands for none.
abbrev pub tagged : ℕ → Bytes → Bytes
tagged mark [] = []
tagged mark (c ∷ q) = mark ∷ c ∷ q

trim_other : (prefix s : Bytes) → take (length prefix) s ≢ prefix → trim_prefix prefix s ≡ s
unfolding trim_prefix
trim_other prefix s h = ground arith

trim_self : (prefix s : Bytes) → trim_prefix prefix (prefix ++ s) ≡ s
unfolding trim_prefix
trim_self prefix s =
    rw (if_pos (Bytes-discrete (take (length prefix) (prefix ++ s)) prefix) (take-append prefix s))
      (drop-append prefix s)

trim_bare :
    (h : Bytes) (c : ℕ) (r : Bytes)
    → Lacks slash h
    → c ≢ slash
    → (trim_prefix (codes "zns://") (h ++ (slash ∷ c ∷ r)) ≡ h ++ (slash ∷ c ∷ r))
      × (trim_prefix (codes "agdns://") (h ++ (slash ∷ c ∷ r)) ≡ h ++ (slash ∷ c ∷ r))
trim_bare h c r lh ne = (
  trim_other (codes "zns://") (h ++ (slash ∷ c ∷ r))
      (no_scheme (codes "zns:") h c r (omega arith) lh ne),
  trim_other (codes "agdns://") (h ++ (slash ∷ c ∷ r))
      (no_scheme (codes "agdns:") h c r (omega arith) lh ne),
)

legacy_stays : (s : Bytes) → take 6 (codes "agdns://" ++ s) ≢ codes "zns://"
legacy_stays s e = let d = ap first_char e in omega arith
  where
    first_char : Bytes → ℕ
    first_char [] = 0
    first_char (c ∷ s) = c

trimmed :
    {scheme : Bytes}
    → Scheme scheme
    → (h : Bytes) (c : ℕ) (r : Bytes) → Lacks slash h
    → c ≢ slash
    → trim_prefix
        (codes "agdns://")
        (trim_prefix (codes "zns://") (scheme ++ (h ++ (slash ∷ c ∷ r))))
      ≡ h ++ (slash ∷ c ∷ r)
trimmed Scheme.bare h c r lh ne =
    let (z, g) = trim_bare h c r lh ne in ap (trim_prefix (codes "agdns://")) z ∙ g
trimmed Scheme.zns h c r lh ne =
    let (z, g) = trim_bare h c r lh ne in
    ap (trim_prefix (codes "agdns://")) (trim_self (codes "zns://") (h ++ (slash ∷ c ∷ r))) ∙ g
trimmed Scheme.agdns h c r lh ne =
    ap (trim_prefix (codes "agdns://")) (
      trim_other (codes "zns://") (codes "agdns://" ++ (h ++ (slash ∷ c ∷ r)))
        (legacy_stays (h ++ (slash ∷ c ∷ r))))
    ∙ trim_self (codes "agdns://") (h ++ (slash ∷ c ∷ r))

qualified :
    (mark : ℕ) (e : FqanError) (s q : Bytes)
    → Lacks mark s
    → Lacks mark q
    → qualifier e (s ++ tagged mark q) (cut_last mark (s ++ tagged mark q)) ≡ ok (s, q)
qualified mark e s [] ls lq = rw (append-nil, cut_last-none mark s ls) refl
qualified mark e s (c ∷ q) ls lq = rw (cut_last-append mark s (c ∷ q) lq) refl

non_empty-append :
    (e : FqanError) (h : Bytes) (c : ℕ) (r : Bytes) → non_empty e (h ++ (c ∷ r)) ≡ ok (h ++ (c ∷ r))
non_empty-append e [] c r = refl
non_empty-append e (x ∷ h) c r = refl

non_empty_scheme :
    (e : FqanError) (scheme h : Bytes) (c : ℕ) (r : Bytes)
    → non_empty e (scheme ++ (h ++ (c ∷ r))) ≡ ok (scheme ++ (h ++ (c ∷ r)))
non_empty_scheme e [] h c r = non_empty-append e h c r
non_empty_scheme e (x ∷ scheme) h c r = refl

tagged-Lacks : (c mark : ℕ) (q : Bytes) → mark ≢ c → Lacks c q → Lacks c (tagged mark q)
tagged-Lacks c mark [] ne l = tt
tagged-Lacks c mark (x ∷ q) ne l = (ne, l)

-- The parts of a qualified name: a host without marks, a name for a developer and one for an agent,
-- a version and a capability.
pub record Parts (host dev agent version capability : Bytes) : Type 0 where
  pub host_some : host ≢ []
  pub host_slash : Lacks slash host
  pub host_at : Lacks b'@' host
  pub host_hash : Lacks b'#' host
  pub dev_valid : validate_handle dev ≡ none
  pub agent_valid : validate_agent_name agent ≡ none
  pub version_at : Lacks b'@' version
  pub version_hash : Lacks b'#' version
  pub capability_hash : Lacks b'#' capability

base_of_name :
    (c : ℕ) (host dev agent : Bytes)
    → c ≢ slash
    → Lacks c host
    → Lacks c dev
    → Lacks c agent
    → Lacks c (build_fqan host dev agent)
unfolding build_fqan
base_of_name c host dev agent ne lh ld la =
    All-append (λ x. x ≢ c) host (slash ∷ (dev ++ (slash ∷ agent))) lh
      ((λ e. ne (sym e)), All-append (λ x. x ≢ c) dev (slash ∷ agent) ld ((λ e. ne (sym e)), la))

-- Whatever scheme it has, a text of a base without marks, a version and a capability is taken
-- apart into these.
parse_qualified_lem :
    {scheme : Bytes}
    → Scheme scheme
    → (host : Bytes) (c : ℕ) (rest version capability : Bytes) → Lacks slash host
    → c ≢ slash
    → Lacks b'@' (host ++ (slash ∷ c ∷ rest))
    → Lacks b'#' (host ++ (slash ∷ c ∷ rest))
    → Lacks b'@' version
    → Lacks b'#' version
    → Lacks b'#' capability
    → parse_qualified_fqan (
        scheme ++ (host ++ (slash ∷ c ∷ (rest ++ (tagged b'@' version ++ tagged b'#' capability)))))
      ≡ ok (host ++ (slash ∷ c ∷ rest), version, capability)
unfolding parse_qualified_fqan
parse_qualified_lem {scheme} kind host c rest version capability lh ne at hash vat vhash chash =
    let tags = tagged b'@' version ++ tagged b'#' capability in
    let base = host ++ (slash ∷ c ∷ rest) in
    let whole : host ++ (slash ∷ c ∷ (rest ++ tags))
        ≡ (base ++ tagged b'@' version) ++ tagged b'#' capability =
      sym (append_assoc host (slash ∷ c ∷ rest) tags)
      ∙ sym (append_assoc base (tagged b'@' version) (tagged b'#' capability)) in
    let front_hash : Lacks b'#' (base ++ tagged b'@' version) =
      All-append (λ x. x ≢ b'#') base (tagged b'@' version) hash
        (tagged-Lacks b'#' b'@' version (omega arith) vhash) in
    rw
      (
        non_empty_scheme is_empty scheme host slash (c ∷ (rest ++ tags)),
        trimmed kind host c (rest ++ tags) lh ne,
        whole,
        qualified b'#' empty_capability (base ++ tagged b'@' version) capability front_hash chash,
        qualified b'@' empty_version base version at vat,
        non_empty-append empty_base host slash (c ∷ rest),
      )
      refl

split_three-build_fqan :
    (host dev agent : Bytes)
    → Lacks slash host
    → Lacks slash dev
    → split_three (build_fqan host dev agent) ≡ some (host, dev, agent)
unfolding split_three build_fqan
split_three-build_fqan host dev agent lh ld = ground (
  arith,
  cut_first-append slash host (dev ++ (slash ∷ agent)) lh,
  cut_first-append slash dev agent ld,
)

accepted :
    (host dev agent : Bytes)
    → host ≢ []
    → validate_handle dev ≡ none
    → validate_agent_name agent ≡ none
    → validated host dev agent ≡ ok (host, dev, agent)
unfolding validated
accepted [] dev agent some_host hd ha = absurd (some_host refl)
accepted (x ∷ host) dev agent some_host hd ha = rw (hd, ha) refl

parse_fqan_steps :
    (fqan : Bytes) {base version capability : Bytes}
    → parse_qualified_fqan fqan ≡ ok (base, version, capability)
    → parse_fqan fqan ≡ (three_parts (split_three base) >>= λ p. validated p.0 p.1 p.2)
unfolding parse_fqan
parse_fqan_steps fqan q = rw q refl

parse_fqan_of_base :
    (fqan host dev agent version capability : Bytes)
    → parse_qualified_fqan fqan ≡ ok (build_fqan host dev agent, version, capability)
    → host ≢ []
    → Lacks slash host
    → Lacks slash dev
    → validate_handle dev ≡ none
    → validate_agent_name agent ≡ none
    → parse_fqan fqan ≡ ok (host, dev, agent)
parse_fqan_of_base fqan host dev agent version capability q some_host lh ld hd ha =
    parse_fqan_steps fqan q
    ∙ rw (split_three-build_fqan host dev agent lh ld) (accepted host dev agent some_host hd ha)

-- The text of a qualified name.
abbrev pub qualified_text : Bytes → Bytes → Bytes → Bytes → Bytes → Bytes → Bytes
qualified_text scheme host dev agent version capability =
    scheme ++ (build_fqan host dev agent ++ (tagged b'@' version ++ tagged b'#' capability))

parse_whole :
    {scheme : Bytes}
    → Scheme scheme
    → (host : Bytes) (c : ℕ) (dev agent version capability : Bytes) → Lacks slash host
    → c ≢ slash
    → Lacks b'@' (build_fqan host (c ∷ dev) agent)
    → Lacks b'#' (build_fqan host (c ∷ dev) agent)
    → Lacks b'@' version
    → Lacks b'#' version
    → Lacks b'#' capability
    → parse_qualified_fqan (qualified_text scheme host (c ∷ dev) agent version capability)
      ≡ ok (build_fqan host (c ∷ dev) agent, version, capability)
unfolding build_fqan
parse_whole {scheme} kind host c dev agent version capability lh ne at hash vat vhash chash =
    let tags = tagged b'@' version ++ tagged b'#' capability in
    let inner : (dev ++ (slash ∷ agent)) ++ tags ≡ dev ++ (slash ∷ (agent ++ tags)) =
      append_assoc dev (slash ∷ agent) tags in
    rw (append_assoc host (slash ∷ c ∷ (dev ++ (slash ∷ agent))) tags) (
      parse_qualified_lem kind host c (dev ++ (slash ∷ agent)) version capability lh ne at hash vat
        vhash chash)

-- A name built from a host, a valid handle and a valid agent name, behind either scheme or none
-- and in front of a version and a capability or neither, is parsed back: `ParseQualifiedFQAN`
-- returns the built name and the two qualifiers, `ParseFQAN` the three components.
pub parse-build_fqan :
    {scheme : Bytes}
    → Scheme scheme
    → (host dev agent version capability : Bytes) → Parts host dev agent version capability
    → (parse_qualified_fqan (qualified_text scheme host dev agent version capability)
        ≡ ok (build_fqan host dev agent, version, capability))
      × (parse_fqan (qualified_text scheme host dev agent version capability)
          ≡ ok (host, dev, agent))
parse-build_fqan kind host [] agent version capability p =
    absurd (no_name ((validate_handle_iff []).0 p.dev_valid).0)
  where
    no_name : ¬ IsName []
    no_name n = elim n [ ]
parse-build_fqan {scheme} kind host (c ∷ dev) agent version capability p =
    let d = ((validate_handle_iff (c ∷ dev)).0 p.dev_valid).0 in
    let a = (validate_agent_name_iff agent).0 p.agent_valid in
    let slash_dev : Lacks slash (c ∷ dev) =
      IsName-Lacks slash (omega arith) (λ n. ground arith) d in
    let at =
      base_of_name b'@' host (c ∷ dev) agent (omega arith) p.host_at
        (IsName-Lacks b'@' (omega arith) (λ n. ground arith) d)
        (IsName-Lacks b'@' (omega arith) (λ n. ground arith) a) in
    let hash =
      base_of_name b'#' host (c ∷ dev) agent (omega arith) p.host_hash
        (IsName-Lacks b'#' (omega arith) (λ n. ground arith) d)
        (IsName-Lacks b'#' (omega arith) (λ n. ground arith) a) in
    let whole =
      parse_whole kind host c dev agent version capability p.host_slash slash_dev.0 at hash
        p.version_at p.version_hash p.capability_hash in
    (
      whole,
      parse_fqan_of_base (qualified_text scheme host (c ∷ dev) agent version capability) host
          (c ∷ dev) agent version capability whole p.host_some p.host_slash slash_dev p.dev_valid
          p.agent_valid,
    )
