-- ===== src/Web/Domains.antt =====
-- internal/admin/domain.go and the handlers of internal/web/admin.go that call it: a domain is added to
-- the running server. Key files, SES and certificates are parameters.
use bdsmail.Base.{
  Assoc, Bool, List, Option, String, [], concat, contains, if◌then◌else◌, map, none, not, refl,
  some, split, to_lower, trim_space, ◌&&◌, ◌++◌, ◌==◌, ◌||◌, ◌∷◌, ◌≡◌,
}
use bdsmail.Config.{add_domain, is_domain_served}
use bdsmail.Smtp.Relay.{add_dkim_key}
use bdsmail.Web.Sessions.{Answer, Request, failed, json, page}
use bdsmail.Web.Admin.{handle_admin_auth}

pub record DnsRecord : Type 0 where
  pub type : String
  pub name : String
  pub value : String
  pub priority : String

pub record DomainConfig : Type 0 where
  pub domains : List String
  pub dkim_selector : String
  pub relay_host : String
  pub amplify_url : String

-- The public key that is generated for a domain and the private key that is read again, none for an
-- error; a client of SES for a region, with the DKIM tokens of a domain, and its two states.
pub record DomainEnv (Key : Type 0) : Type 0 where
  pub generate_dkim_key : String → Option String
  pub load_key : String → Option Key
  pub ses_client : String → Option (String → Option (List String))
  pub ses_status : String → String → String × String
  pub api_key : String

pub record DomainResult : Type 0 where
  pub domain : String
  pub dns_records : List DnsRecord
  pub ses_status : String
  pub domain_api_key : String
  pub webmail_cname : String

unfoldable pub build_dns_records : String → String → String → List DnsRecord
build_dns_records domain selector dkim_pub_key =
    record { type = "A"; name = "mail"; value = "YOUR_VM_STATIC_IP"; priority = "" }
    ∷ record { type = "MX"; name = "@"; value = concat ("mail." ∷ domain ∷ []); priority = "10" }
    ∷ record { type = "TXT"; name = "@"; value = "v=spf1 a mx ~all"; priority = "" }
    ∷ record {
      type = "TXT";
      name = concat (selector ∷ "._domainkey" ∷ []);
      value = concat ("v=DKIM1; k=rsa; p=" ∷ dkim_pub_key ∷ []);
      priority = "";
    }
    ∷ record {
      type = "TXT";
      name = "_dmarc";
      value = concat ("v=DMARC1; p=none; rua=mailto:postmaster@" ∷ domain ∷ []);
      priority = "";
    }
    ∷ []

-- the second label of a host with at least three
unfoldable pub extract_ses_region : String → String
extract_ses_region relay_host = elim (split b'.' relay_host) [
  | a ∷ (b ∷ (c ∷ rest)) ↦ b
  | _ ↦ "us-east-1"
]

unfoldable pub is_ses : DomainConfig → Bool
is_ses cfg = not (cfg.relay_host == "") && contains cfg.relay_host "amazonaws.com"

unfoldable pub ses_record : String → DnsRecord
ses_record token = record {
  type = "CNAME";
  name = concat (token ∷ "._domainkey" ∷ []);
  value = concat (token ∷ ".dkim.amazonses.com" ∷ []);
  priority = "";
}

module _ {Key : Type 0} (env : DomainEnv Key) where
  -- the state and the records
  unfoldable pub verify_in_ses : DomainConfig → String → String × List DnsRecord
  verify_in_ses cfg domain =
      if not (is_ses cfg)
      then ("", [])
      else elim (env.ses_client (extract_ses_region cfg.relay_host)) [
        | none ↦ ("", [])
        | some verify ↦ elim (verify domain) [
          | none ↦ ("Failed", [])
          | some tokens ↦ ("Pending", map ses_record tokens)
        ]
      ]

  -- from the point where the key was generated
  unfoldable pub registered :
      DomainConfig → Assoc Key → String → String → DomainResult × DomainConfig × Assoc Key
  registered cfg keys domain dkim_pub_key =
      let (ses, ses_records) = verify_in_ses cfg domain in
      let webmail : List DnsRecord =
        if cfg.amplify_url == ""
        then []
        else record { type = "CNAME"; name = "webmail"; value = cfg.amplify_url; priority = "" }
          ∷ [] in
      (
        record {
          domain = domain;
          dns_records =
              build_dns_records domain cfg.dkim_selector dkim_pub_key ++ (ses_records ++ webmail);
          ses_status = ses;
          domain_api_key = env.api_key;
          webmail_cname = cfg.amplify_url;
        },
        record cfg { domains = add_domain cfg.domains domain },
        elim (env.load_key domain) [ none ↦ keys | some key ↦ add_dkim_key keys domain key ],
      )

  -- the result, none for an error, with the configuration and the relay's keys; the domain is written
  -- to no database
  unfoldable pub register_domain :
      DomainConfig → Assoc Key → String → Option DomainResult × DomainConfig × Assoc Key
  register_domain cfg keys name =
      let domain = trim_space (to_lower name) in
      if domain == "" || not (contains domain ".") || is_domain_served cfg.domains domain
      then (none, cfg, keys)
      else elim (env.generate_dkim_key domain) [
        | none ↦ (none, cfg, keys)
        | some dkim_pub_key ↦
            (let (result, cfg', keys') = registered cfg keys domain dkim_pub_key in
              (some result, cfg', keys'))
      ]

  unfoldable pub check_domain_status : DomainConfig → String → Option (String × String)
  check_domain_status cfg domain =
      let region = extract_ses_region cfg.relay_host in
      if not (is_ses cfg) then some ("N/A", "N/A") else elim (env.ses_client region) [
        | none ↦ none
        | some verify ↦ some (env.ses_status region domain)
      ]

  unfoldable pub handle_admin_domains :
      String
      → DomainConfig
      → Assoc Key
      → Request
      → (Answer × Option DomainResult) × DomainConfig × Assoc Key
  handle_admin_domains secret cfg keys r =
      let (result, cfg', keys') = register_domain cfg keys (trim_space (r.value "domain")) in
      elim (handle_admin_auth secret r "/admin/domains") [
        | some refusal ↦ ((refusal, none), cfg, keys)
        | none ↦
            (if r.method == "POST" && r.value "admin_action" == "add_domain"
              then elim result [
                | none ↦ ((page "Domain not registered" "", none), cfg', keys')
                | some done ↦ ((page "" "", some done), cfg', keys')
              ]
              else ((page "" "", none), cfg, keys))
      ]

  unfoldable pub handle_admin_api :
      String
      → DomainConfig
      → Assoc Key
      → Request
      → (Answer × Option DomainResult) × DomainConfig × Assoc Key
  handle_admin_api secret cfg keys r =
      let (result, cfg', keys') = register_domain cfg keys (r.value "domain") in
      if not (r.method == "POST")
      then ((failed 405, none), cfg, keys)
      else if secret == "" || not (r.authorization == concat ("Bearer " ∷ secret ∷ []))
      then ((failed 401, none), cfg, keys)
      else if not r.decodes
      then ((failed 400, none), cfg, keys)
      else elim result [
        | none ↦ ((failed 400, none), cfg', keys')
        | some done ↦ ((json [], some done), cfg', keys')
      ]

region_test : extract_ses_region "email-smtp.eu-west-1.amazonaws.com" ≡ "eu-west-1"
unfolding extract_ses_region split
region_test = refl
