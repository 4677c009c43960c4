-- ===== src/Tests/Names.antt =====
-- Runs on ZNS names.
use agent_dns.Prelude.{◌≡◌, ◌≢◌, ◌↔◌, refl, [], none, Bytes, Bytes-discrete, codes, All, arith}
use agent_dns.Zns.Fqan.Cuts.{Lacks}
use agent_dns.Zns.Fqan.Schemes.{Scheme}
use agent_dns.Zns.Fqan.RoundTrip.{parse-build_fqan, Parts, qualified_text}
use agent_dns.Zns.Fqan.Sound.{parse_fqan_sound}
use agent_dns.Zns.Fqan.{ok, parse_fqan, parse_qualified_fqan, build_fqan, slash}
use agent_dns.Zns.Name.Grammar.{IsName, validate_agent_name_iff, validate_handle_iff}
use agent_dns.Zns.Name.{validate_handle, validate_agent_name, reserved_handles}

validate_agent_name_iff_example :
    (validate_agent_name (codes "doc-translator") ≡ none) ↔ IsName (codes "doc-translator")
validate_agent_name_iff_example = validate_agent_name_iff (codes "doc-translator")

validate_handle_iff_example :
    (validate_handle (codes "admin") ≡ none)
    ↔ (IsName (codes "admin") × All (λ w. w ≢ codes "admin") reserved_handles)
validate_handle_iff_example = validate_handle_iff (codes "admin")

abbrev host : Bytes
host = codes "dns01.zynd.ai"

valid_dev : validate_handle (codes "acme-corp") ≡ none
unfolding validate_handle Bytes-discrete
valid_dev = refl

valid_agent : validate_agent_name (codes "translator") ≡ none
unfolding validate_agent_name Bytes-discrete
valid_agent = refl

parts : Parts host (codes "acme-corp") (codes "translator") (codes "1.2.0") (codes "nlp")
parts = record {
  host_some = λ e. cc;
  host_slash = ground arith;
  host_at = ground arith;
  host_hash = ground arith;
  dev_valid = valid_dev;
  agent_valid = valid_agent;
  version_at = ground arith;
  version_hash = ground arith;
  capability_hash = ground arith;
}

parse-build_fqan_example :
    (parse_qualified_fqan (
        qualified_text
          (codes "zns://")
          host
          (codes "acme-corp")
          (codes "translator")
          (codes "1.2.0")
          (codes "nlp"))
      ≡ ok (build_fqan host (codes "acme-corp") (codes "translator"), codes "1.2.0", codes "nlp"))
    × (parse_fqan (
          qualified_text
            (codes "zns://")
            host
            (codes "acme-corp")
            (codes "translator")
            (codes "1.2.0")
            (codes "nlp"))
        ≡ ok (host, codes "acme-corp", codes "translator"))
parse-build_fqan_example =
    parse-build_fqan Scheme.zns host (codes "acme-corp") (codes "translator") (codes "1.2.0")
      (codes "nlp") parts

abbrev text : Bytes
text =
    qualified_text (codes "agdns://") host (codes "acme-corp") (codes "translator") (codes "1.2.0")
      (codes "nlp")

text_parsed : parse_fqan text ≡ ok (host, codes "acme-corp", codes "translator")
text_parsed =
    (parse-build_fqan Scheme.agdns host (codes "acme-corp") (codes "translator") (codes "1.2.0")
      (codes "nlp") parts).1

parse_fqan_sound_example :
    (version capability : Bytes) × (parse_qualified_fqan text
      ≡ ok (build_fqan host (codes "acme-corp") (codes "translator"), version, capability))
    × (host ≢ [])
    × Lacks slash host
    × (validate_handle (codes "acme-corp") ≡ none)
    × (validate_agent_name (codes "translator") ≡ none)
parse_fqan_sound_example = parse_fqan_sound text text_parsed
