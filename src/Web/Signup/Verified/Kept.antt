-- ===== src/Web/Signup/Verified/Kept.antt =====
-- What the operations of the database keep of its domains.
use bdsmail.Base.{
  Bool-cases, List, String, [], any, arith, eq_iff, first-append_one, inl, inr, none, refl, some, ℕ,
  ◌==◌, ◌||◌, ◌∙◌, ◌∷◌, ◌≡◌,
}
use bdsmail.Model.{Domain, DomainDnsRecord}
use bdsmail.Db.{
  Db, clashes, create_domain, create_user, delete_signup, get_domain, grant_permission, or_same,
  same_dns_key, save_dns_record,
}
use bdsmail.Web.Roles.{grant_role}
use bdsmail.Web.Signup.{save_all}

abbrev pub SameDomains : Db → Db → Type 0
SameDomains db db' = (name : String) → get_domain db' name ≡ get_domain db name

-- every domain in the second database is one of the first or has the given name
abbrev pub Adds : String → Db → Db → Type 0
Adds added db db' =
    (name : String) (d : Domain)
    → get_domain db name ≡ none
    → get_domain db' name ≡ some d
    → added ≡ name

module _ (db : Db) where
  pub create_user-SameDomains :
      (username domain display_name hash : String)
      → SameDomains db (or_same db (create_user db username domain display_name hash))
  unfolding create_user get_domain
  create_user-SameDomains username domain display_name hash name =
      elim (Bool-cases (db.down || any (clashes username domain) db.user_account)) [
        | inl e ↦ rw e refl
        | inr e ↦ rw e refl
      ]

  pub grant_role-SameDomains :
      (user_email role domain by id : String) (now : ℕ)
      → SameDomains db (grant_role db user_email role domain by id now)
  unfolding grant_role grant_permission get_domain
  grant_role-SameDomains user_email role domain by id now name =
      elim (Bool-cases (db.down || any (λ p. p.id == id) db.user_permission)) [
        | inl e ↦ rw e refl
        | inr e ↦ rw e refl
      ]

  save_dns_record-SameDomains :
      (r : DomainDnsRecord) → SameDomains db (or_same db (save_dns_record db r))
  unfolding save_dns_record get_domain
  save_dns_record-SameDomains r name = elim (Bool-cases db.down) [
    | inl e ↦ rw e refl
    | inr e ↦ elim (Bool-cases (any (same_dns_key r) db.domain_dns)) [
      | inl k ↦ rw (e, k) refl
      | inr k ↦ rw (e, k) refl
    ]
  ]

  pub delete_signup-SameDomains : (id : String) → SameDomains db (or_same db (delete_signup db id))
  unfolding delete_signup get_domain
  delete_signup-SameDomains id name = elim (Bool-cases db.down) [
    | inl e ↦ rw e refl
    | inr e ↦ rw e refl
  ]

pub save_all-SameDomains :
    (records : List DomainDnsRecord) (db : Db) → SameDomains db (save_all db records)
unfolding save_all
save_all-SameDomains [] db name = refl
save_all-SameDomains (r ∷ rest) db name =
    save_all-SameDomains rest (or_same db (save_dns_record db r)) name
    ∙ save_dns_record-SameDomains db r name

pub create_domain-Adds :
    (db db' : Db) (d : Domain) → create_domain db d ≡ some db' → Adds d.name db db'
unfolding create_domain get_domain
create_domain-Adds db db' d made name found before after = ground (
  arith,
  made,
  before,
  after,
  eq_iff d.name name,
  first-append_one (λ (x : Domain). x.name == name) d found db.domain,
)

pub none≢found :
    (db : Db) (name : String) (d : Domain)
    → get_domain db name ≡ none
    → get_domain db name ≡ some d
    → ⊥
none≢found db name d before after = cc
