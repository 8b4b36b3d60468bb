-- ===== src/Tests/Values.antt =====
-- The functions on texts and numbers: tests, and the theorems at concrete inputs.
use xoa_proxy.Prelude.{
  ◌-◌, ◌^◌, ◌≡◌, refl, ◌↔◌, ◌⊎◌, true, Option, none, some, if◌then◌else◌, arith,
}
use xoa_proxy.Rust.Text.{Text, codes, text_eq, contains}
use xoa_proxy.Rust.Number.{parse_uint}
use xoa_proxy.Rust.Number.Print.{print_uint}
use xoa_proxy.Format.{gzip, raw}
use xoa_proxy.Error.{ProxyError, bad_request, import_in_progress, probe_failed, into_response}
use xoa_proxy.Error.Laws.{IsUpstreamFault, into_response_status}
use xoa_proxy.Config.{Config, load}
use xoa_proxy.Config.Laws.{Selects, load-Selects}
use xoa_proxy.Config.RoundTrip.{load-print_uint}
use xoa_proxy.Handler.{format_of_path, validate_src, handle_not_found}
use xoa_proxy.Handler.Detection.{HasExtension, format_of_path_iff}
use xoa_proxy.Handler.Source.{SrcCheck, validate_src-SrcCheck}

unknown_path_message :
    (into_response (handle_not_found (codes "/x"))).1
    ≡ codes "Unknown path '/x'. Expected /image.xva"
unfolding into_response handle_not_found
unknown_path_message = refl

abbrev environment : Text → Option Text
environment name =
    if text_eq name (codes "XOA_PROXY_PORT")
    then some (codes "8080")
    else if text_eq name (codes "XOA_PROXY_IDLE_SECONDS")
    then some (codes "0")
    else none

loaded : load environment ≡ record { port = 8080; bind = codes "127.0.0.1"; idle_timeout = 60 }
unfolding load parse_uint text_eq
loaded = refl

-- A delay that is far beyond what a clock can represent is accepted.
long_delay_accepted : (load (λ name. some (codes "18446744073709551615"))).idle_timeout ≡ 2 ^ 64 - 1
unfolding load parse_uint
long_delay_accepted = refl

into_response_status_example :
    (((into_response (probe_failed (codes "timeout"))).0 ≡ 502)
      ↔ IsUpstreamFault (probe_failed (codes "timeout")))
    × (((into_response (probe_failed (codes "timeout"))).0 ≡ 409)
        ↔ (probe_failed (codes "timeout") ≡ import_in_progress))
    × (((into_response (probe_failed (codes "timeout"))).0 ≡ 400)
        ↔ ((m : Text) × (probe_failed (codes "timeout") ≡ bad_request m)))
    × (((into_response (probe_failed (codes "timeout"))).0 ≡ 404)
        ↔ ((m : Text) × (probe_failed (codes "timeout") ≡ ProxyError.not_found m)))
    × (contains (into_response (probe_failed (codes "timeout"))).1 (codes "timeout") ≡ true)
into_response_status_example = into_response_status (probe_failed (codes "timeout"))

load-Selects_example :
    Selects (environment (codes "XOA_PROXY_PORT")) (2 ^ 16) 0 9001 (load environment).port
    × Selects
        (environment (codes "XOA_PROXY_IDLE_SECONDS"))
        (2 ^ 64)
        1
        60
        (load environment).idle_timeout
load-Selects_example = load-Selects environment

abbrev wanted : Config
wanted = record { port = 8080; bind = codes "0.0.0.0"; idle_timeout = 300 }

abbrev written : Text → Option Text
written name =
    if text_eq name (codes "XOA_PROXY_PORT")
    then some (print_uint 8080)
    else if text_eq name (codes "XOA_PROXY_BIND")
    then some (codes "0.0.0.0")
    else some (print_uint 300)

load-print_uint_example : load written ≡ wanted
unfolding text_eq
load-print_uint_example =
    load-print_uint written wanted refl refl refl (omega arith) (omega arith) (omega arith)

format_of_path_iff_example :
    ((format_of_path (codes "/a.XVA") ≡ some gzip) ↔ (
      HasExtension (codes "/a.XVA") (codes ".xva.gz")
      ⊎ HasExtension (codes "/a.XVA") (codes ".xva.gzip")))
    × ((format_of_path (codes "/a.XVA") ≡ some raw) ↔ HasExtension (codes "/a.XVA") (codes ".xva"))
format_of_path_iff_example = format_of_path_iff (codes "/a.XVA")

validate_src-SrcCheck_example :
    SrcCheck (some (codes "ftp://h/a.xva")) (validate_src (some (codes "ftp://h/a.xva")))
validate_src-SrcCheck_example = validate_src-SrcCheck (some (codes "ftp://h/a.xva"))
