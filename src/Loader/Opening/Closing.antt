-- ===== src/Loader/Opening/Closing.antt =====
-- The close of a library that an open published.
use coakka_runtime_swift.Prelude.{ℕ, Option, none, some, ◌≡◌, refl, ap, ◌∙◌}
use coakka_runtime_swift.Machine.Heap.{World, Host, Block, library, update}
use coakka_runtime_swift.Machine.Effects.{returns, fault, load}
use coakka_runtime_swift.Machine.Reasoning.{
  load-ok, free-ok, unload-ok, update-update, update_self, update_at,
}
use coakka_runtime_swift.Loader.Platform.{platform_library_close}
use coakka_runtime_swift.Loader.Library.{Opened, library_close}
use coakka_runtime_swift.Loader.Symbols.{bound}
use coakka_runtime_swift.Loader.Opening.Contract.{Success}

module _ (host : Host) (w : World) (r : Opened) (w' : World) (s : Success host w r w') where
  holds : w'.heap s.at ≡ some (library (bound host (some s.handle)))
  holds = rw s.heap_after (update_at w.heap s.at (some (library (bound host (some s.handle)))))

  restored : update w'.heap s.at none ≡ w.heap
  restored =
      ap (λ (heap : ℕ → Option Block). update heap s.at none) s.heap_after
      ∙ (update-update w.heap s.at (some (library (bound host (some s.handle)))) none
          ∙ update_self w.heap s.at none s.was_free)

  abbrev closed_world : World
  closed_world = record w' { heap = w.heap; modules = w.modules }

  close_lem : library_close (some s.at) w' ≡ returns tt closed_world
  unfolding library_close platform_library_close
  close_lem = rw (load-ok s.at (bound host (some s.handle)) w' holds) (
      rw (unload-ok s.handle w.modules w' s.modules_after) (
        rw
          (free-ok s.at (library (bound host (some s.handle))) (record w' { modules = w.modules })
            holds)
          (λ i. returns tt (record w' { heap = restored i; modules = w.modules }))))

  closed_again : library_close (some s.at) closed_world ≡ fault
  unfolding library_close load
  closed_again = rw (s.was_free, load)

  -- The close of a library that an open published gives back its block and its handle: heap and
  -- handles are as before the open, and no call was made. A second close of it is a fault.
  pub library_close-open :
      (w'' : World) × (library_close (some s.at) w' ≡ returns tt w'')
      × (w''.heap ≡ w.heap)
      × (w''.modules ≡ w.modules)
      × (w''.log ≡ w.log)
      × (library_close (some s.at) w'' ≡ fault)
  library_close-open = (closed_world, close_lem, refl, refl, s.log_kept, closed_again)
