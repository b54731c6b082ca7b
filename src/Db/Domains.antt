-- ===== src/Db/Domains.antt =====
-- The domain, DNS record and sign-up operations of database.go. Rows that are listed by name stand in
-- the table's order: the collation is the database's.
use bdsmail.Base.{
  Bool, List, Option, String, [], any, first, if◌then◌else◌, keep, none, not, some, update, ◌&&◌,
  ◌++◌, ◌==◌, ◌||◌, ◌∷◌,
}
use bdsmail.Model.{Domain, DomainDnsRecord, DomainSignup}
use bdsmail.Db.Tables.{Db, sort_text}

unfoldable pub create_domain : Db → Domain → Option Db
create_domain db d =
    if db.down || any (λ x. x.name == d.name) db.domain
    then none
    else some (record db { domain = db.domain ++ d ∷ [] })

unfoldable pub get_domain : Db → String → Option Domain
unfolding first
get_domain db name = if db.down then none else first (λ x. x.name == name) db.domain

unfoldable pub list_domains : Db → Option (List Domain)
list_domains db = if db.down then none else some (sort_text (λ d. d.name) db.domain)

unfoldable pub update_domain_status : Db → String → String → String → Option Db
unfolding update
update_domain_status db name ses_status dkim_status =
    if db.down
    then none
    else some (record db {
      domain =
          update (λ x. x.name == name)
            (λ x. record x { ses_status = ses_status; dkim_status = dkim_status }) db.domain;
    })

unfoldable pub delete_domain : Db → String → Option Db
unfolding keep
delete_domain db name =
    if db.down
    then none
    else some (record db { domain = keep (λ x. not (x.name == name)) db.domain })

-- PRIMARY KEY (domain, record_type, name)
abbrev pub same_dns_key : DomainDnsRecord → DomainDnsRecord → Bool
same_dns_key r x = x.domain == r.domain && x.record_type == r.record_type && x.name == r.name

-- ON CONFLICT (domain, record_type, name) DO UPDATE
unfoldable pub save_dns_record : Db → DomainDnsRecord → Option Db
unfolding update
save_dns_record db r =
    if db.down
    then none
    else if any (same_dns_key r) db.domain_dns
    then some (record db {
      domain_dns =
          update (same_dns_key r) (λ x. record x { value = r.value; priority = r.priority })
            db.domain_dns;
    })
    else some (record db { domain_dns = db.domain_dns ++ r ∷ [] })

unfoldable pub list_dns_records : Db → String → Option (List DomainDnsRecord)
unfolding keep
list_dns_records db domain =
    if db.down
    then none
    else some (
        sort_text (λ r. r.record_type)
          (sort_text (λ r. r.name) (keep (λ r. r.domain == domain) db.domain_dns)))

unfoldable pub delete_dns_records : Db → String → Option Db
unfolding keep
delete_dns_records db domain =
    if db.down
    then none
    else some (record db { domain_dns = keep (λ r. not (r.domain == domain)) db.domain_dns })

-- The domain is UNIQUE too.
unfoldable pub create_signup : Db → DomainSignup → Option Db
create_signup db signup =
    if db.down || any (λ s. s.id == signup.id || s.domain == signup.domain) db.domain_signup
    then none
    else some (record db { domain_signup = db.domain_signup ++ signup ∷ [] })

unfoldable pub get_signup : Db → String → Option DomainSignup
unfolding first
get_signup db id = if db.down then none else first (λ s. s.id == id) db.domain_signup

unfoldable pub delete_signup : Db → String → Option Db
unfolding keep
delete_signup db id =
    if db.down
    then none
    else some (record db { domain_signup = keep (λ s. not (s.id == id)) db.domain_signup })
