-- ===== src/Server/Lines/Advance.antt =====
-- What the handler's code logs up to its next await, or to its end.
use xoa_proxy.Prelude.{
  ◌≡◌, refl, sym, ap, ◌∙◌, inl, inr, Bool, true, false, Bool-cases, some, [], arith,
}
use xoa_proxy.Crates.{Crates}
use xoa_proxy.Crates.Laws.{MutexLaws}
use xoa_proxy.Log.{Line, http_error}
use xoa_proxy.Error.{ProxyError, import_in_progress, error_line}
use xoa_proxy.Async.{Async, done, fail, send, try_lock, drop_guard, log}
use xoa_proxy.Handler.{ImageResponse}
use xoa_proxy.Handler.Course.{
  acquired, plain, mark, IsRefusal, Finishes, Connects, Acquires, Locks, Starts,
}
use xoa_proxy.Server.{advance}
use xoa_proxy.Server.Lines.{says, acquired_lines, error_of_line, error_lines, takes, error_of_task}

error_of_line-plain : (l : Line) → mark l ≡ plain → error_of_line l ≡ []
error_of_line-plain (http_error status detail) h = absurd (cc)
error_of_line-plain _ h = refl

error_of_line-acquired : (l : Line) → mark l ≡ acquired → error_of_line l ≡ []
error_of_line-acquired (http_error status detail) h = absurd (cc)
error_of_line-acquired _ h = refl

pub takes-same : (b : Bool) → takes b b ≡ 0
takes-same true = refl
takes-same false = refl

pub takes-free : (b : Bool) → takes b false ≡ 0
takes-free true = refl
takes-free false = refl

module _ (c : Crates) (mutex : MutexLaws c) where
  -- The lines tell whether the lock was taken on the way, and the error at the end.
  abbrev pub Tells : Bool → c.Mutex → Async c ProxyError (ImageResponse c) → Type 0
  Tells held m p =
      (acquired_lines (says c m p) ≡ takes (mutex.locked m) (mutex.locked (advance c m held p).0))
      × (error_lines (says c m p) ≡ error_of_task (some (advance c m held p).1))

  log-Tells :
      (held : Bool) (m : c.Mutex) (l : Line) (p : Async c ProxyError (ImageResponse c))
      → mark l ≡ plain
      → Tells held m p
      → Tells held m (log l p)
  unfolding says advance
  log-Tells held m l p ordinary (takes, errors) =
      (rw ordinary takes, rw (error_of_line-plain l ordinary) errors)

  fail-Tells : (held : Bool) (m : c.Mutex) (e : ProxyError) → Tells held m (fail e)
  unfolding says advance error_line
  fail-Tells held m e = (sym (takes-same (mutex.locked m)), refl)

  -- A refusal leaves the lock as it is.
  IsRefusal-lem :
      (held : Bool) (m : c.Mutex) (p : Async c ProxyError (ImageResponse c))
      → IsRefusal p
      → (acquired_lines (says c m p) ≡ 0)
        × (error_lines (says c m p) ≡ error_of_task (some (advance c m held p).1))
        × ((advance c m held p).0 ≡ m)
  unfolding says advance error_line
  IsRefusal-lem held m (fail e) h = (refl, refl, refl)
  IsRefusal-lem held m (log l p) (ordinary, h) =
      let (none_yet, errors, same) = IsRefusal-lem held m p h in
      (rw ordinary none_yet, rw (error_of_line-plain l ordinary) errors, same)
  IsRefusal-lem held m (done a) h = elim h [ ]
  IsRefusal-lem held m (send q k) h = elim h [ ]
  IsRefusal-lem held m (try_lock k) h = elim h [ ]
  IsRefusal-lem held m (drop_guard p) h = elim h [ ]

  pub Finishes-Tells :
      (m : c.Mutex) (p : Async c ProxyError (ImageResponse c)) → Finishes p → Tells true m p
  unfolding says advance
  Finishes-Tells m (done a) h = (sym (takes-same (mutex.locked m)), refl)
  Finishes-Tells m (drop_guard p) h =
      let (none_yet, errors, same) = IsRefusal-lem false (c.drop_guard m) p h in
      (
        none_yet
            ∙ sym (takes-free (mutex.locked m))
            ∙ ap (takes (mutex.locked m)) (sym (ap mutex.locked same ∙ mutex.drop_frees m)),
        errors,
      )
  Finishes-Tells m (log l p) (ordinary, h) = log-Tells true m l p ordinary (Finishes-Tells m p h)
  Finishes-Tells m (fail e) h = elim h [ ]
  Finishes-Tells m (send q k) h = elim h [ ]
  Finishes-Tells m (try_lock k) h = elim h [ ]

  Connects-lem :
      (m : c.Mutex) (p : Async c ProxyError (ImageResponse c))
      → Connects p
      → (acquired_lines (says c m p) ≡ 0)
        × (error_lines (says c m p) ≡ error_of_task (some (advance c m true p).1))
        × ((advance c m true p).0 ≡ m)
  unfolding says advance
  Connects-lem m (send q k) h = (refl, refl, refl)
  Connects-lem m (log l p) (ordinary, h) =
      let (none_yet, errors, same) = Connects-lem m p h in
      (rw ordinary none_yet, rw (error_of_line-plain l ordinary) errors, same)
  Connects-lem m (done a) h = elim h [ ]
  Connects-lem m (fail e) h = elim h [ ]
  Connects-lem m (try_lock k) h = elim h [ ]
  Connects-lem m (drop_guard p) h = elim h [ ]

  Acquires-lem :
      (m : c.Mutex) (p : Async c ProxyError (ImageResponse c))
      → Acquires p
      → (acquired_lines (says c m p) ≡ 1)
        × (error_lines (says c m p) ≡ error_of_task (some (advance c m true p).1))
        × ((advance c m true p).0 ≡ m)
  unfolding says advance
  Acquires-lem m (log l p) (told, h) =
      let (none_yet, errors, same) = Connects-lem m p h in
      (rw told (omega (arith, none_yet)), rw (error_of_line-acquired l told) errors, same)
  Acquires-lem m (done a) h = elim h [ ]
  Acquires-lem m (fail e) h = elim h [ ]
  Acquires-lem m (send q k) h = elim h [ ]
  Acquires-lem m (try_lock k) h = elim h [ ]
  Acquires-lem m (drop_guard p) h = elim h [ ]

  pub Locks-Tells :
      (m : c.Mutex) (p : Async c ProxyError (ImageResponse c)) → Locks p → Tells false m p
  unfolding says advance
  Locks-Tells m (fail e) h = fail-Tells false m e
  Locks-Tells m (log l p) (ordinary, h) = log-Tells false m l p ordinary (Locks-Tells m p h)
  Locks-Tells m (try_lock k) (won, lost) = elim (Bool-cases (mutex.locked m)) [
    | inl busy ↦
        rw (mutex.try_held m busy, says, advance) (rw lost (fail-Tells false m import_in_progress))
    | inr idle ↦
        let (held, got, taken) = mutex.try_free m idle in
        let (once, errors, same) = Acquires-lem held (k true) won in
        rw (got, says, advance) (once ∙ (rw (idle, same, taken) refl), errors)
  ]
  Locks-Tells m (done a) h = elim h [ ]
  Locks-Tells m (send q k) h = elim h [ ]
  Locks-Tells m (drop_guard p) h = elim h [ ]

  pub Starts-Tells :
      (m : c.Mutex) (p : Async c ProxyError (ImageResponse c)) → Starts p → Tells false m p
  unfolding says advance
  Starts-Tells m (send q k) h = (sym (takes-same (mutex.locked m)), refl)
  Starts-Tells m (fail e) h = fail-Tells false m e
  Starts-Tells m (log l p) (ordinary, h) = log-Tells false m l p ordinary (Starts-Tells m p h)
  Starts-Tells m (try_lock k) h = Locks-Tells m (try_lock k) h
  Starts-Tells m (done a) h = elim h [ ]
  Starts-Tells m (drop_guard p) h = elim h [ ]
