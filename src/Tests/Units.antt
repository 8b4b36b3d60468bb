-- ===== src/Tests/Units.antt =====
-- The unit tests of src/handler.rs, src/stream.rs and src/error.rs, as tables.
use xoa_proxy.Prelude.{◌≡◌, refl, true, ◌&&◌, Option, none, some, [], ◌∷◌, map}
use xoa_proxy.Rust.Text.{
  Text, codes, text_eq, starts_with, ends_with, contains, to_lowercase, lower,
}
use xoa_proxy.Rust.Result.{Result, ok, err}
use xoa_proxy.Rust.Float.{round_f64}
use xoa_proxy.Format.{ImageFormat, gzip, raw, from_str, to_string}
use xoa_proxy.Error.{
  bad_request, not_found, import_in_progress, upstream_failed, probe_failed, into_response,
}
use xoa_proxy.Gib.{bytes_to_gib}
use xoa_proxy.Handler.{format_of_path, detect_format_from_extension}
use xoa_proxy.Tests.Example.{example_crates}

-- `xva_gz_is_gzip` and the tests after it, in the order of the source.
extensions :
    map (detect_format_from_extension example_crates) (
      codes "http://host/image.xva.gz"
      ∷ codes "http://host/image.xva.gzip"
      ∷ codes "http://host/IMAGE.XVA.GZ"
      ∷ codes "http://host/image.XvA.GzIp"
      ∷ codes "http://host/image.xva"
      ∷ codes "http://host/image.XVA"
      ∷ codes "http://host/image.xva?token=abc&foo=bar"
      ∷ codes "http://host/image.xva.gz?v=1"
      ∷ codes "http://host/image.xva#section"
      ∷ codes "http://host/image"
      ∷ codes "http://host/image.gz"
      ∷ codes "http://host/image.tar"
      ∷ codes "http://host/image.tar.gz"
      ∷ codes ""
      ∷ codes "http://host/archive.xva/image.tar"
      ∷ [])
    ≡ some gzip
      ∷ some gzip
      ∷ some gzip
      ∷ some gzip
      ∷ some raw
      ∷ some raw
      ∷ some raw
      ∷ some gzip
      ∷ some raw
      ∷ none
      ∷ none
      ∷ none
      ∷ none
      ∷ none
      ∷ none
      ∷ []
unfolding detect_format_from_extension format_of_path ends_with text_eq to_lowercase lower
extensions = refl

abbrev parsed : Result Text ImageFormat → Option ImageFormat
parsed (ok format) = some format
parsed (err e) = none

-- `parse_gzip_str` to `parse_is_case_sensitive`
parses :
    map
      (λ s. parsed (from_str s))
      (codes "gzip" ∷ codes "raw" ∷ codes "zstd" ∷ codes "" ∷ codes "Gzip" ∷ [])
    ≡ some gzip ∷ some raw ∷ none ∷ none ∷ none ∷ []
unfolding from_str
parses = refl

displays : map to_string (gzip ∷ raw ∷ []) ≡ codes "gzip" ∷ codes "raw" ∷ []
unfolding to_string
displays = refl

-- `zero_bytes_is_zero_gib` to `truncation_not_rounding`: 0, 1 GiB, half of it, and 1.999 of it.
gibs :
    map bytes_to_gib (0 ∷ 1_073_741_824 ∷ 536_870_912 ∷ 2_146_409_906 ∷ [])
    ≡ 0 ∷ 100 ∷ 50 ∷ 199 ∷ []
unfolding bytes_to_gib round_f64
gibs = refl

-- `bad_request_is_400` to `probe_failed_is_502`
statuses :
    map
      (λ e. (into_response e).0)
      (bad_request (codes "oops")
        ∷ not_found (codes "nope")
        ∷ import_in_progress
        ∷ upstream_failed (codes "net err")
        ∷ probe_failed (codes "timeout")
        ∷ [])
    ≡ 400 ∷ 404 ∷ 409 ∷ 502 ∷ 502 ∷ []
unfolding into_response
statuses = refl

-- `import_in_progress_body_is_informative` and `probe_failed_body_contains_reason`
bodies :
    (contains (to_lowercase (into_response import_in_progress).1) (codes "import")
      && contains (into_response (probe_failed (codes "DNS timeout"))).1 (codes "DNS timeout"))
    ≡ true
unfolding into_response contains starts_with to_lowercase lower
bodies = refl
