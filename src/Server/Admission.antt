-- ===== src/Server/Admission.antt =====
-- The admission of an import: 409 while another is running, and the download otherwise.
use xoa_proxy.Prelude.{
  ℕ, get_elem?, ◌≡◌, refl, sym, ◌∙◌, ◌⊎◌, inl, inr, true, false, some, Bool-cases, [], ◌∷◌, ◌++◌,
}
use xoa_proxy.Rust.Text.{Text}
use xoa_proxy.Rust.Result.{err}
use xoa_proxy.Crates.{Crates}
use xoa_proxy.Crates.Laws.{MutexLaws, WatchLaws}
use xoa_proxy.Error.{import_in_progress}
use xoa_proxy.Format.{ImageFormat}
use xoa_proxy.Async.{Method}
use xoa_proxy.Stream.{fetch_xva_stream}
use xoa_proxy.Handler.{
  ImageParams, transfer, detect_format, detect_format_from_extension, select_client,
}
use xoa_proxy.Handler.Source.{HasScheme, handle_image_xva-transfer}
use xoa_proxy.Server.{
  image, Task, awaiting, responding, rejected, gone, Server, serve, advance, arrive, step, drops,
}
use xoa_proxy.Server.Invariant.{guards, Inv}
use xoa_proxy.Server.Imports.{drop_frees_lock}

module _ (c : Crates) (mutex : MutexLaws c) where
  -- The task holds the import lock and awaits the download of `src`.
  abbrev pub Downloads : Text → Task c → Type 0
  Downloads src (awaiting held q k) = (held ≡ true) × (q.method ≡ Method.get) × (q.url ≡ src)
  Downloads src (responding reply) = ⊥
  Downloads src (rejected status) = ⊥
  Downloads src gone = ⊥

  -- What the arrival of an import comes to.
  pub data Admission (s : Server c) (src : Text) (t : Server c) : Type 0 where
    refused :
        mutex.locked s.app.import_lock ≡ true
        → t.tasks ≡ s.tasks ++ responding (err import_in_progress) ∷ []
        → t.app.import_lock ≡ s.app.import_lock
        → Admission s src t
    admitted :
        (task : Task c)
        → mutex.locked s.app.import_lock ≡ false
        → Downloads src task
        → t.tasks ≡ s.tasks ++ task ∷ []
        → mutex.locked t.app.import_lock ≡ true
        → Admission s src t

  -- The handler's first run, to its end or to the await of the download.
  advance-transfer :
      (m : c.Mutex) (client : c.Client) (src : Text) (format : ImageFormat)
      → detect_format_from_extension c src ≡ some format
      → ((mutex.locked m ≡ true)
          × (advance c m false (transfer c client src) ≡ (m, responding (err import_in_progress))))
        ⊎ ((mutex.locked m ≡ false)
            × (mutex.locked (advance c m false (transfer c client src)).0 ≡ true)
            × Downloads src (advance c m false (transfer c client src)).1)
  unfolding transfer detect_format advance fetch_xva_stream
  advance-transfer m client src format known = elim (Bool-cases (mutex.locked m)) [
    | inl busy ↦
        inl (busy, rw (known, transfer, detect_format) (rw (mutex.try_held m busy, advance)))
    | inr idle ↦
        let (held, got, taken) = mutex.try_free m idle in
        inr (
          idle,
          rw (known, transfer, detect_format) (rw (got, advance) taken),
          rw (known, transfer, detect_format) (rw (got, advance) (refl, refl, refl)),
        )
  ]

  -- An import of a URL whose extension tells its format is answered by 409 at once if the import
  -- lock is held, with the lock and the other tasks untouched; and if the lock is free, then the
  -- import takes it and awaits the download.
  pub arrive-Admission :
      (s : Server c) (params : ImageParams) (src : Text) (format : ImageFormat)
      → params.src ≡ some src
      → HasScheme src
      → detect_format_from_extension c src ≡ some format
      → Admission s src (arrive c s (image params))
  unfolding arrive serve advance
  arrive-Admission s params src format named scheme known =
      rw (handle_image_xva-transfer c s.app params src named scheme)
        (elim (advance-transfer s.app.import_lock (select_client c s.app params.verify_ssl) src
          format known) [
            | inl (busy, out) ↦ refused busy (rw out) (rw out)
            | inr (idle, taken, downloads) ↦ admitted _ idle downloads refl taken
          ])

  -- In a valid state, once the request that imports is dropped, whether it has downloaded, streamed or
  -- been cut off, the next import of a URL whose extension tells its format is not refused: it takes
  -- the lock and awaits its download.
  next_import_admitted :
      (watch : WatchLaws c) (s : Server c) (i : ℕ) (t : Task c) (params : ImageParams) (src : Text)
      (format : ImageFormat)
      → Inv c mutex s
      → get_elem? s.tasks i ≡ some t
      → guards c t ≡ 1
      → params.src ≡ some src
      → HasScheme src
      → detect_format_from_extension c src ≡ some format
      → (task : Task c) × Downloads src task
        × ((arrive c (step c s (drops i)) (image params)).tasks
            ≡ (step c s (drops i)).tasks ++ task ∷ [])
        × (mutex.locked (arrive c (step c s (drops i)) (image params)).app.import_lock ≡ true)
  next_import_admitted watch s i t params src format v here owner named scheme known =
      elim (arrive-Admission (step c s (drops i)) params src format named scheme known) [
        | refused busy _ _ ↦
            absurd (cc (sym busy ∙ drop_frees_lock c mutex watch s i t v here owner))
        | admitted task _ downloads tasks locked ↦ (task, downloads, tasks, locked)
      ]
