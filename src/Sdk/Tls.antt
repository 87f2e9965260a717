-- ===== src/Sdk/Tls.antt =====
-- sdk/go/tls.go
use svidmint.Base.{
  Bool, true, false, not, [], ◌∷◌, Result, ok, ◌>>=◌, ◌>>◌, guard, or_err, is_empty, List,
}
use svidmint.Base.Text.{join}
use svidmint.Sdk.Types.{X509SvidResponse, Formats, SdkError, empty_chain, parsing_tls_certificate}

-- The fields of `tls.Config` that are set; `ClientAuth` is `RequireAnyClientCert` or the default.
pub record TlsConfig (TlsCertificate : Type 0) : Type 0 where
  pub certificates : List TlsCertificate
  pub require_any_client_cert : Bool

module _ {TlsCertificate : Type 0} (fmt : Formats TlsCertificate) where
  -- `parseTLSCertificate`
  unfoldable pub parse_tls_certificate : X509SvidResponse → Result SdkError TlsCertificate
  parse_tls_certificate r = do
    guard (not (is_empty r.svid.cert_chain)) empty_chain
    or_err (fmt.x509_key_pair (join "\n" r.svid.cert_chain) r.svid.private_key)
        parsing_tls_certificate

  -- `TLSClientConfig`
  unfoldable pub tls_client_config : X509SvidResponse → Result SdkError (TlsConfig TlsCertificate)
  unfolding parse_tls_certificate
  tls_client_config r = do
    cert ← parse_tls_certificate r
    ok (record { certificates = cert ∷ []; require_any_client_cert = false })

  -- `TLSServerConfig`
  unfoldable pub tls_server_config : X509SvidResponse → Result SdkError (TlsConfig TlsCertificate)
  unfolding parse_tls_certificate
  tls_server_config r = do
    cert ← parse_tls_certificate r
    ok (record { certificates = cert ∷ []; require_any_client_cert = true })
