-- ===== src/Security/Dane.antt =====
-- internal/security/dane.go: TLSA records and the check of a peer's certificates. The query and the
-- hash functions are parameters. Bytes are a text. The library gives the data of a record as a text in
-- hexadecimal, whose characters the code prints in hexadecimal once more before it compares.
use mathlib.Core.List.{Memᴰ}
use bdsmail.Base.{
  Bool, Bool-cases, List, Option, String, [], any, any_complete, any_sound, ap, arith, concat,
  false, false≢true, if◌then◌else◌, inl, inr, is_nil, nat_beq, none, not, refl, show_nat, some, sym,
  true, ℕ, ◌&&◌, ◌==◌, ◌||◌, ◌↔◌, ◌⊎◌, ◌∙◌, ◌∷◌, ◌≡◌,
}

pub record TlsaRecord : Type 0 where
  pub usage : ℕ
  pub selector : ℕ
  pub matching_type : ℕ
  pub cert_data : String

pub record TlsaResult : Type 0 where
  pub has_tlsa : Bool
  pub records : List TlsaRecord
  pub dnssec_valid : Bool

pub record Certificate : Type 0 where
  pub raw : String
  pub raw_subject_public_key_info : String

-- the print of bytes in hexadecimal, of the bytes and of their two hashes
pub record Hashes : Type 0 where
  pub hex : String → String
  pub sha256 : String → String
  pub sha512 : String → String

-- an answer of the resolver: the AD bit, and for each record of the answer its content if it is a
-- TLSA record
pub record DnsResponse : Type 0 where
  pub authenticated_data : Bool
  pub answer : List (Option TlsaRecord)

only_tlsa : List (Option TlsaRecord) → List TlsaRecord
only_tlsa [] = []
only_tlsa (none ∷ rest) = only_tlsa rest
only_tlsa (some r ∷ rest) = r ∷ only_tlsa rest

-- `none` for an error of the query
unfoldable pub lookup_tlsa : (String → Option DnsResponse) → ℕ → String → Option TlsaResult
unfolding only_tlsa
lookup_tlsa query port host =
    elim (query (concat ("_" ∷ show_nat port ∷ "._tcp." ∷ host ∷ "." ∷ []))) [
      | none ↦ none
      | some resp ↦ some (record {
        has_tlsa = not (is_nil (only_tlsa resp.answer));
        records = only_tlsa resp.answer;
        dnssec_valid = resp.authenticated_data;
      })
    ]

module _ (hashes : Hashes) where
  selected : TlsaRecord → Certificate → Option String
  selected r cert =
      if nat_beq r.selector 0
      then some cert.raw
      else if nat_beq r.selector 1
      then some cert.raw_subject_public_key_info
      else none

  digest : TlsaRecord → String → Option String
  digest r bytes =
      if nat_beq r.matching_type 0
      then some (hashes.hex bytes)
      else if nat_beq r.matching_type 1
      then some (hashes.sha256 bytes)
      else if nat_beq r.matching_type 2
      then some (hashes.sha512 bytes)
      else none

  unfoldable pub match_tlsa : TlsaRecord → Certificate → Bool
  unfolding selected digest
  match_tlsa r cert =
      if not (nat_beq r.usage 2) && not (nat_beq r.usage 3) then false else elim (selected r cert) [
        | none ↦ false
        | some bytes ↦ elim (digest r bytes) [
          | none ↦ false
          | some hash ↦ hash == hashes.hex r.cert_data
        ]
      ]

  match_any : List TlsaRecord → List Certificate → Bool
  unfolding any
  match_any [] certs = false
  match_any (r ∷ rest) certs = any (match_tlsa r) certs || match_any rest certs

  unfoldable pub verify_cert : Option TlsaResult → List Certificate → Bool
  unfolding match_any
  verify_cert none peer_certs = true
  verify_cert (some result) peer_certs =
      if not result.has_tlsa
      then true
      else if not result.dnssec_valid
      then true
      else if is_nil peer_certs
      then false
      else match_any result.records peer_certs

  -- RFC 6698 as the code reads it: usage 2 or 3, the certificate or its public key, and the bytes or
  -- one of their hashes, in hexadecimal, against the print of the record's data
  abbrev fits_data : TlsaRecord → String → Bool
  fits_data r bytes =
      (nat_beq r.matching_type 0 && hashes.hex bytes == hashes.hex r.cert_data)
      || ((nat_beq r.matching_type 1 && hashes.sha256 bytes == hashes.hex r.cert_data)
          || (nat_beq r.matching_type 2 && hashes.sha512 bytes == hashes.hex r.cert_data))

  abbrev pub fits : TlsaRecord → Certificate → Bool
  fits r cert =
      (nat_beq r.usage 2 || nat_beq r.usage 3)
      && ((nat_beq r.selector 0 && fits_data r cert.raw)
          || (nat_beq r.selector 1 && fits_data r cert.raw_subject_public_key_info))

  digest-fits :
      (r : TlsaRecord) (bytes : String)
      → (elim (digest r bytes) as (λ _. Bool) [
        | none ↦ false
        | some hash ↦ hash == hashes.hex r.cert_data
      ])
        ≡ fits_data r bytes
  unfolding digest
  digest-fits r bytes = ground arith

  match_tlsa-fits : (r : TlsaRecord) (cert : Certificate) → match_tlsa r cert ≡ fits r cert
  unfolding match_tlsa selected digest
  match_tlsa-fits r cert = ground arith

  -- there is a record and a certificate of the two lists that fit
  abbrev pub Matching : List TlsaRecord → List Certificate → Type 0
  Matching records certs =
      (r : TlsaRecord) × (cert : Certificate) × Memᴰ r records
      × Memᴰ cert certs
      × (fits r cert ≡ true)

  match_any_sound :
      (records : List TlsaRecord) (certs : List Certificate)
      → match_any records certs ≡ true
      → Matching records certs
  unfolding match_any
  match_any_sound [] certs h = absurd (false≢true h)
  match_any_sound (r ∷ rest) certs h = elim (Bool-cases (any (match_tlsa r) certs)) [
    | inl e ↦
        let (cert, m, q) = any_sound (match_tlsa r) certs e in
        (r, cert, Memᴰ.head refl, m, sym (match_tlsa-fits r cert) ∙ q)
    | inr e ↦
        let (r', cert, n, m, q) = match_any_sound rest certs (ground (arith, h, e)) in
        (r', cert, Memᴰ.tail n, m, q)
  ]

  match_any_complete :
      (r : TlsaRecord) (records : List TlsaRecord) (cert : Certificate) (certs : List Certificate)
      → Memᴰ r records
      → Memᴰ cert certs
      → match_tlsa r cert ≡ true
      → match_any records certs ≡ true
  unfolding match_any
  match_any_complete r [] cert certs n m q = elim n [ ]
  match_any_complete r (r' ∷ rest) cert certs (Memᴰ.head e) m q =
      ground
        (arith, any_complete (match_tlsa r') cert certs m (ap (λ x. match_tlsa x cert) (sym e) ∙ q))
  match_any_complete r (r' ∷ rest) cert certs (Memᴰ.tail n) m q =
      ground (arith, match_any_complete r rest cert certs n m q)

  -- A certificate chain passes exactly if there are no TLSA records, or they are not validated by
  -- DNSSEC, or one of them fits one of the certificates: its usage is 2 or 3, and the certificate or
  -- its public key, as the selector says, or a hash of it, as the matching type says, prints in
  -- hexadecimal as the record's data does.
  pub verify_cert_iff :
      (result : TlsaResult) (certs : List Certificate)
      → (verify_cert (some result) certs ≡ true)
        ↔ (((result.has_tlsa && result.dnssec_valid) ≡ false) ⊎ Matching result.records certs)
  unfolding verify_cert
  verify_cert_iff result certs = (
    λ h. elim (Bool-cases (result.has_tlsa && result.dnssec_valid)) [
      | inl valid ↦ inr (match_any_sound result.records certs (ground (arith, valid, h)))
      | inr off ↦ inl off
    ],
    λ why. elim why [
      | inl off ↦ ground (arith, off)
      | inr (r, cert, n, m, q) ↦
          matched certs m
            (match_any_complete r result.records cert certs n m (match_tlsa-fits r cert ∙ q))
    ],
  )
    where
      matched :
          {cert : Certificate} (cs : List Certificate)
          → Memᴰ cert cs
          → match_any result.records cs ≡ true
          → verify_cert (some result) cs ≡ true
      matched [] m h = elim m [ ]
      matched (c ∷ cs) m h = ground arith
