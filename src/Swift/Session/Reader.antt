-- ===== src/Swift/Session/Reader.antt =====
-- The request runner of RuntimeSession.swift: the loop that start puts on the request queue.
use coakka_runtime_swift.Prelude.{ℕ, none, some, ◌==◌, if◌then◌else◌, int_eq, is_null}
use coakka_runtime_swift.Status.{Status, would_block as status_would_block, closed as status_closed}
use coakka_runtime_swift.Core.Records.{Ptr}
use coakka_runtime_swift.Machine.Heap.{Host}
use coakka_runtime_swift.Machine.Effects.{M, pure, ◌>>=◌, ◌>>◌}
use coakka_runtime_swift.Loader.Library.{is_ok}
use coakka_runtime_swift.Bridge.Client
use coakka_runtime_swift.Swift.Errors.{RuntimeError, contract_violation, native_status}
use coakka_runtime_swift.Swift.Session.{Session, out_at, release_frame}

-- The phases of the request runner: it may read; it holds a frame while it dispatches it; it has
-- left its loop; it has destroyed the reader; it has run the rest of its defer block.
pub data Runner : Type 0 where
  reading : Runner
  dispatching : ℕ → Runner
  leaving : Runner
  joining : Runner
  done : Runner

unfoldable pub fail_read : Session → RuntimeError → Session
fail_read s e = record s { read_failure = some e }

module _ (host : Host) where
  -- The round ends without a frame to dispatch.
  unfoldable pub drop_frame : Session → Ptr → Runner → M (Session × Runner)
  unfolding release_frame
  drop_frame s frame next = do release_frame host s frame; pure (s, next)

  unfoldable pub take_bytes : Session → Ptr → M (Session × Runner)
  unfolding drop_frame fail_read
  take_bytes s none = pure (
    fail_read s (contract_violation "Core returned success without readable frame bytes"),
    leaving,
  )
  take_bytes s (some f) = do
    bytes ← Client.owned_frame_data host s.handle (some f)
    if is_null bytes
        then drop_frame
            (fail_read s (contract_violation "Core returned success without readable frame bytes"))
            (some f) leaving
        else (do
          size ← Client.owned_frame_size host s.handle (some f)
          if size == 0
              then drop_frame
                  (fail_read s (contract_violation "Core returned an empty delivered frame"))
                  (some f) leaving
              else pure (s, dispatching f))

  -- The rest of a round, for what coakka_swift_request_reader_read returned.
  unfoldable pub judge : Session → Status → Ptr → M (Session × Runner)
  unfolding take_bytes
  judge s status frame =
      if int_eq status status_would_block
      then drop_frame s frame reading
      else if int_eq status status_closed
      then drop_frame s frame leaving
      else if is_ok status
      then take_bytes s frame
      else drop_frame (fail_read s (native_status status "read delivered request")) frame leaving

  -- One round of `while !isClosing`, up to the dispatch of a frame.
  unfoldable pub read_request : Session → M (Session × Runner)
  unfolding judge
  read_request s = if s.closing then pure (s, leaving) else do
    r ← Client.reader_read host s.handle (some s.reader) 100 (some none)
    judge s r.0 (out_at r.1)
