-- ===== src/Sdk/Accepts.antt =====
-- The client (sdk/go) at the other end of the server (internal/server): what `handleAttest` serves,
-- `parseSVIDResponse` reads.
use svidmint.Base.{
  String, ◌==◌, ◌≡◌, ◌≢◌, refl, ap, ◌∙◌, false, some, [], ◌∷◌, map, ok, eq_iff, arith,
}
use svidmint.Attestor.{AttestRequest}
use svidmint.Ca.{SpiffeId, PrivateKey, Der, Certificate, Crypto, ReadsBack}
use svidmint.Server.{AttestResponse, Server, EntryStore, Codec, write_json, attest_body}
use svidmint.Server.Attest.{Outside, encode_private_key, key_pem, handle_attest}
use svidmint.Server.Attest.Sound.{IsIssued}
use svidmint.Server.Attest.Served.{IsServed, handle_attest-IsServed}
use svidmint.Sdk.Types.{Formats, SdkError, Svid, X509SvidResponse}
use svidmint.Sdk.Source.{parse_certs, parse_svid_response}
use svidmint.Server
use svidmint.Entry.{RegistrationEntry}

-- What the client's packages read of what the server's write: a PEM block, which is not the empty
-- text, and an EC private key.
pub record Interop {TlsCertificate : Type 0} (enc : Codec) (fmt : Formats TlsCertificate)
    : Type 0 where
  pub pem : (label : String) (der : Der) → fmt.pem_decode (enc.pem_encode label der) ≡ some der
  pub pem_text : (label : String) (der : Der) → enc.pem_encode label der ≢ ""
  pub key_der : PrivateKey → Der
  pub marshals : (key : PrivateKey) → enc.marshal_ec_private_key key ≡ some (key_der key)
  pub parses : (key : PrivateKey) → fmt.parse_ec_private_key (key_der key) ≡ some key

-- The members of the answer that encoding/json reads into an `X509SVIDResponse`.
unfoldable pub read_answer : AttestResponse → Server.X509SvidData → X509SvidResponse
read_answer resp data_ = record {
  spiffe_id = resp.spiffe_id;
  svid = record {
    cert_chain = data_.cert_chain;
    private_key = data_.private_key;
    expires_at = data_.expires_at;
  };
}

module _ {TlsCertificate : Type 0} (c : Crypto) (enc : Codec) (fmt : Formats TlsCertificate)
    (laws : ReadsBack c) (interop : Interop enc fmt) where
  -- The client has the SVID of the entry: its ID, a leaf for it under the authority's intermediate,
  -- and the private key of the leaf.
  pub record IsAccepted (s : Server) (e : RegistrationEntry) (resp : X509SvidResponse)
      : Type 0 where
    pub svid : Svid
    pub accepted : parse_svid_response c fmt resp ≡ ok svid
    pub id : c.from_string e.spiffe_id ≡ some svid.id
    pub leaf : Certificate
    pub chain : svid.certificates ≡ leaf ∷ s.ca.intermediate_cert ∷ []
    pub uri : leaf.template.uris ≡ e.spiffe_id ∷ []
    pub key : leaf.public_key ≡ c.public_of svid.private_key

  abbrev pem_cert : Certificate → String
  pem_cert cert = enc.pem_encode "CERTIFICATE" cert.raw

  chain-parse_certs :
      (no_block no_cert : SdkError) (leaf intermediate : Certificate)
      → c.parse_certificate leaf.raw ≡ some leaf
      → c.parse_certificate intermediate.raw ≡ some intermediate
      → parse_certs c fmt no_block no_cert (pem_cert leaf ∷ pem_cert intermediate ∷ [])
        ≡ ok (leaf ∷ intermediate ∷ [])
  unfolding parse_certs
  chain-parse_certs no_block no_cert leaf intermediate reads₁ reads₂ = rw (
    interop.pem "CERTIFICATE" leaf.raw,
    reads₁,
    interop.pem "CERTIFICATE" intermediate.raw,
    reads₂,
  )

  abbrev key_text : PrivateKey → String
  key_text key = enc.pem_encode "EC PRIVATE KEY" (interop.key_der key)

  key_text-not_empty : (key : PrivateKey) → (key_text key == "") ≡ false
  key_text-not_empty key =
      let some_text = interop.pem_text "EC PRIVATE KEY" (interop.key_der key) in
      ground (arith, eq_iff (key_text key) "")

  encode_private_key_text : (key : PrivateKey) → encode_private_key c enc key ≡ key_text key
  unfolding encode_private_key
  encode_private_key_text key = rw (interop.marshals key)

  parse_served :
      (s : Server) (e : RegistrationEntry) (leaf : Certificate) (key : PrivateKey)
      (expires_at : String)
      → (issuable : (id : SpiffeId) × (c.from_string e.spiffe_id ≡ some id))
      → c.parse_certificate leaf.raw ≡ some leaf
      → c.parse_certificate s.ca.intermediate_cert.raw ≡ some s.ca.intermediate_cert
      → parse_svid_response c fmt (record {
        spiffe_id = e.spiffe_id;
        svid = record {
          cert_chain = pem_cert leaf ∷ pem_cert s.ca.intermediate_cert ∷ [];
          private_key = key_text key;
          expires_at = expires_at;
        };
      })
        ≡ ok (record {
          id = issuable.0;
          certificates = leaf ∷ s.ca.intermediate_cert ∷ [];
          private_key = key;
        })
  unfolding parse_svid_response
  parse_served s e leaf key expires_at issuable reads₁ reads₂ = rw (
    chain-parse_certs _ _ leaf s.ca.intermediate_cert reads₁ reads₂,
    key_text-not_empty key,
    interop.pem "EC PRIVATE KEY" (interop.key_der key),
    interop.parses key,
    issuable.1,
  )

  -- the answer's SVID, when it is an X.509 SVID
  x509_answer :
      (s : Server) (out : Outside) (req : AttestRequest) (e : RegistrationEntry)
      (resp : AttestResponse) (data_ : Server.X509SvidData)
      → c.parse_certificate s.ca.intermediate_cert.raw ≡ some s.ca.intermediate_cert
      → resp.svid ≡ some data_
      → IsIssued c enc s.ca out req e resp
      → IsAccepted s e (read_answer resp data_)
  unfolding read_answer
  x509_answer s out req e resp data_ reads has (IsIssued.jwt_issued svid _ _ same) =
      absurd (ground arith)
  x509_answer s out req e resp data_ reads has (IsIssued.x509_issued svid _ issue same) =
      let (key, given, fits) = issue.key in
      let has_id : resp.spiffe_id ≡ e.spiffe_id = ground arith in
      let written : data_.private_key ≡ key_pem c enc svid.private_key = ground arith in
      let text : data_.private_key ≡ key_text key =
        written ∙ (ap (key_pem c enc) given ∙ encode_private_key_text key) in
      let certs : data_.cert_chain ≡ map pem_cert svid.cert_chain = ground arith in
      let chain : data_.cert_chain ≡ pem_cert issue.leaf ∷ pem_cert s.ca.intermediate_cert ∷ [] =
        certs ∙ ap (map pem_cert) issue.chain in
      record {
        svid = record {
          id = issue.issuable.id;
          certificates = issue.leaf ∷ s.ca.intermediate_cert ∷ [];
          private_key = key;
        };
        accepted =
            rw (has_id, text, chain)
              (parse_served s e issue.leaf key data_.expires_at
                (issue.issuable.id, issue.issuable.parses) issue.reads reads);
        id = issue.issuable.parses;
        leaf = issue.leaf;
        chain = refl;
        uri = issue.uri;
        key = fits;
      }

  -- When `handleAttest` answers with an X.509 SVID, `parseSVIDResponse` accepts the answer, and the
  -- client has the SVID of the entry that matched: its SPIFFE ID, a chain of a leaf for that ID and
  -- the authority's intermediate, and the private key of that leaf. (The client's packages read
  -- what the server's write, `Interop`; certificates keep their fields, `ReadsBack`; the
  -- authority's intermediate can be read from its DER.)
  pub handle_attest-IsAccepted :
      (store : EntryStore) (out : Outside) (s s' : Server) (resp : AttestResponse) (body : String)
      (data_ : Server.X509SvidData)
      → c.parse_certificate s.ca.intermediate_cert.raw ≡ some s.ca.intermediate_cert
      → handle_attest c enc store out s body ≡ (write_json 200 (attest_body resp), s')
      → resp.svid ≡ some data_
      → (served : IsServed c enc store out s s' body resp) × IsAccepted s served.entry
          (read_answer resp data_)
  handle_attest-IsAccepted store out s s' resp body data_ reads h has =
      let served = handle_attest-IsServed c enc store out s' resp s body laws h in
      (served, x509_answer s out served.req served.entry resp data_ reads has served.issued)
