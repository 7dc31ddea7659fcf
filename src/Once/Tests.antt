-- ===== src/Once/Tests.antt =====
-- Histories of the shared resources, and the theorem about them at one.
use wineberry_discord.Prelude.{◌≡◌, refl, true, false, List, [], ◌∷◌}
use wineberry_discord.Once.{
  Returns, Step, inits, cleans, shuts_down, at_start, run, curl_init, curl_cleanup, pool_create,
  pool_destroy, pipe_open, pipe_close,
}
use wineberry_discord.Once.Counter.{IsHeld, run-IsHeld}

abbrev well : Returns
well = record { curl_ok = true; pool_ok = true; pipe_ok = true; ioctl_ok = true }

-- A first call that fails at the pipe's ends, two that succeed, and one release.
abbrev steps : List Step
steps =
    inits (record well { ioctl_ok = false }) ∷ inits well ∷ inits well ∷ shuts_down ∷ cleans ∷ []

-- libcurl fails.
abbrev no_curl : List Step
no_curl = inits (record well { curl_ok = false }) ∷ []

run-steps : run at_start steps ≡ record {
  init_counter = 1;
  once = true;
  fds = true;
  written = true;
  effects =
      curl_init true
      ∷ pool_create true
      ∷ pipe_open
      ∷ pipe_close
      ∷ pool_destroy
      ∷ curl_cleanup
      ∷ curl_init true
      ∷ pool_create true
      ∷ pipe_open
      ∷ [];
}
unfolding run
run-steps = refl

run-no_curl : (run at_start no_curl).effects ≡ curl_init false ∷ curl_cleanup ∷ []
unfolding run
run-no_curl = refl

run-IsHeld_example : IsHeld (run at_start steps)
run-IsHeld_example = run-IsHeld steps
