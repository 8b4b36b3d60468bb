-- ===== src/Stream/Report.antt =====
-- src/stream.rs: the line that a `GuardedStream` logs when it is dropped.
pub mod Laws
use xoa_proxy.Crates.{Crates}
use xoa_proxy.Format.{to_string}
use xoa_proxy.Gib.{bytes_to_gib}
use xoa_proxy.Log.{Finished}
use xoa_proxy.Stream.{GuardedStream}

module _ (c : Crates) where
  -- `drop`. The fields are dropped after it, the guard of the import lock among them.
  unfoldable pub drop : GuardedStream c → Finished
  drop s = record {
    src = s.src_url;
    format = to_string s.format;
    bytes_sent = s.bytes_sent;
    gib = bytes_to_gib s.bytes_sent;
  }
