-- ===== src/Loader/Platform.antt =====
-- The platform functions of coakka_runtime_bridge.c.
use coakka_runtime_swift.Prelude.{ℕ, String, List, none, some, codes, leb, if◌then◌else◌}
use coakka_runtime_swift.Core.Records.{Ptr}
use coakka_runtime_swift.Machine.Heap.{World, Host, wide_path}
use coakka_runtime_swift.Machine.Effects.{M, pure, ◌>>=◌, ◌>>◌, calloc, free, load_module, unload}

module _ (host : Host) where
  -- The Windows branch: the path is copied to wide characters, and the copy is freed.
  unfoldable pub load_wide : String → Ptr → M Ptr
  unfolding load_module free
  load_wide path none = pure none
  load_wide path (some wide) =
      if host.widen path
      then (do handle ← load_module host path; free wide; pure handle)
      else (do free wide; pure none)

  unfoldable pub platform_library_open : String → M Ptr
  unfolding load_wide calloc
  platform_library_open path =
      if host.is_windows
      then (if leb (host.wide_length path) 0
          then pure none
          else (do wide ← calloc host (wide_path (host.wide_length path)); load_wide path wide))
      else load_module host path

  unfoldable pub platform_library_symbol : Ptr → String → Ptr
  platform_library_symbol handle name = host.find_symbol handle name

  unfoldable pub platform_library_error : World → List ℕ
  platform_library_error w =
      if host.is_windows
      then codes "Windows loader rejected the runtime library or symbol"
      else elim (host.loader_error w) [ none ↦ codes "unknown loader error" | some error ↦ error ]

unfoldable pub platform_library_close : Ptr → M (Unit {0})
unfolding unload
platform_library_close none = pure tt
platform_library_close (some handle) = unload handle
