-- ===== src/Once/Counter.antt =====
-- winecord-once.c: what is held of the shared resources, by the counter.
use wineberry_discord.Prelude.{
  ℕ, ◌+◌, ◌≡◌, ◌==◌, not, Bool, true, false, List, [], ◌∷◌, ◌++◌, arith, refl, Bool-cases,
  append_assoc, inl, inr,
}
use wineberry_discord.Once.{
  Effect, curl_init, curl_cleanup, pool_create, pool_destroy, pipe_open, pipe_close, Globals,
  at_start, global_init, global_cleanup, Step, inits, cleans, shuts_down, step, run,
}
use wineberry_discord.Once.Effects.{
  count, is_curl_init, is_curl_cleanup, is_pool_create, is_pool_destroy, is_pipe_open,
  is_pipe_close, count-append, one_if,
}

-- The calls that begin and end the use of the three resources: one more has begun than ended while the
-- counter is not 0, and as many while it is.
pub record IsHeld (g : Globals) : Type 0 where
  pub once_held : g.once ≡ not (g.init_counter == 0)
  pub fds_held : g.fds ≡ not (g.init_counter == 0)
  pub curl_held :
      count is_curl_init g.effects
      ≡ count is_curl_cleanup g.effects + one_if (not (g.init_counter == 0))
  pub pool_held :
      count is_pool_create g.effects
      ≡ count is_pool_destroy g.effects + one_if (not (g.init_counter == 0))
  pub pipe_held :
      count is_pipe_open g.effects
      ≡ count is_pipe_close g.effects + one_if (not (g.init_counter == 0))

-- The counts of some effects after others.
count-after :
    (f : Effect → ℕ) (es ds : List Effect) (d : Effect)
    → count f ((es ++ ds) ++ d ∷ []) ≡ count f es + count f (ds ++ d ∷ [])
count-after f [] ds d = omega arith
count-after f (e ∷ es) ds d = omega (arith, count-after f es ds d)

-- What the counts of some effects do to what is held.
abbrev Adds : List Effect → Bool → Type 0
Adds ds held =
    (count is_curl_init ds ≡ count is_curl_cleanup ds + one_if held)
    × (count is_pool_create ds ≡ count is_pool_destroy ds + one_if held)
    × (count is_pipe_open ds ≡ count is_pipe_close ds + one_if held)

-- At the counter 0 some effects lead to a state in which everything is held, or nothing is.
IsHeld-after :
    (g g' : Globals) (ds : List Effect) (held : Bool)
    → IsHeld g
    → (g.init_counter == 0) ≡ true
    → g'.effects ≡ g.effects ++ ds
    → Adds ds held
    → g'.once ≡ held
    → g'.fds ≡ held
    → not (g'.init_counter == 0) ≡ held
    → IsHeld g'
IsHeld-after g g' ds held h z e (a, b, c) o p q = record {
  once_held = ground (arith, o, q);
  fds_held = ground (arith, p, q);
  curl_held = ground (
    arith,
    h.curl_held,
    z,
    e,
    a,
    q,
    count-append is_curl_init g.effects ds,
    count-append is_curl_cleanup g.effects ds,
  );
  pool_held = ground (
    arith,
    h.pool_held,
    z,
    e,
    b,
    q,
    count-append is_pool_create g.effects ds,
    count-append is_pool_destroy g.effects ds,
  );
  pipe_held = ground (
    arith,
    h.pipe_held,
    z,
    e,
    c,
    q,
    count-append is_pipe_open g.effects ds,
    count-append is_pipe_close g.effects ds,
  );
}

first_init-IsHeld :
    (g : Globals) (curl_ok pool_ok pipe_ok ioctl_ok : Bool)
    → IsHeld g
    → (g.init_counter == 0) ≡ true
    → IsHeld
        (global_init g (record {
          curl_ok = curl_ok;
          pool_ok = pool_ok;
          pipe_ok = pipe_ok;
          ioctl_ok = ioctl_ok;
        })).0
unfolding global_init
first_init-IsHeld g false b pipe_ok ioctl_ok h z =
    IsHeld-after g _ (curl_init false ∷ curl_cleanup ∷ []) false h z
      (ground (
        arith,
        z,
        h.once_held,
        h.fds_held,
        append_assoc g.effects (curl_init false ∷ []) (curl_cleanup ∷ []),
      ))
      (refl, refl, refl) (ground (arith, z, h.once_held))
      (ground (arith, z, h.fds_held, h.once_held)) (ground (arith, z, h.once_held))
first_init-IsHeld g true b false ioctl_ok h z =
    IsHeld-after g _ (curl_init true ∷ pool_create b ∷ pool_destroy ∷ curl_cleanup ∷ []) false h z
      (ground (
        arith,
        z,
        h.once_held,
        h.fds_held,
        append_assoc g.effects (curl_init true ∷ []) (pool_create b ∷ []),
        append_assoc g.effects (curl_init true ∷ pool_create b ∷ []) (pool_destroy ∷ []),
        append_assoc g.effects (curl_init true ∷ pool_create b ∷ pool_destroy ∷ [])
            (curl_cleanup ∷ []),
      ))
      (refl, refl, refl) (ground (arith, z, h.once_held))
      (ground (arith, z, h.fds_held, h.once_held)) (ground (arith, z, h.once_held))
first_init-IsHeld g true b true false h z =
    IsHeld-after g _
      (curl_init true ∷ pool_create b ∷ pipe_open ∷ pipe_close ∷ pool_destroy ∷ curl_cleanup ∷ [])
      false h z
      (ground (
        arith,
        z,
        h.once_held,
        h.fds_held,
        append_assoc g.effects (curl_init true ∷ []) (pool_create b ∷ []),
        append_assoc g.effects (curl_init true ∷ pool_create b ∷ []) (pipe_open ∷ []),
        append_assoc g.effects (curl_init true ∷ pool_create b ∷ pipe_open ∷ []) (pipe_close ∷ []),
        append_assoc g.effects (curl_init true ∷ pool_create b ∷ pipe_open ∷ pipe_close ∷ [])
            (pool_destroy ∷ []),
        append_assoc g.effects
            (curl_init true ∷ pool_create b ∷ pipe_open ∷ pipe_close ∷ pool_destroy ∷ [])
            (curl_cleanup ∷ []),
      ))
      (refl, refl, refl) (ground (arith, z, h.once_held))
      (ground (arith, z, h.fds_held, h.once_held)) (ground (arith, z, h.once_held))
first_init-IsHeld g true b true true h z =
    IsHeld-after g _ (curl_init true ∷ pool_create b ∷ pipe_open ∷ []) true h z
      (ground (
        arith,
        z,
        h.once_held,
        h.fds_held,
        append_assoc g.effects (curl_init true ∷ []) (pool_create b ∷ []),
        append_assoc g.effects (curl_init true ∷ pool_create b ∷ []) (pipe_open ∷ []),
      ))
      (refl, refl, refl) (ground (arith, z, h.once_held))
      (ground (arith, z, h.fds_held, h.once_held)) (ground (arith, z, h.once_held))

last_cleanup-IsHeld :
    (g : Globals) → IsHeld g → (g.init_counter == 1) ≡ true → IsHeld (global_cleanup g)
unfolding global_cleanup
last_cleanup-IsHeld g h l =
    let released : (global_cleanup g).effects
        ≡ g.effects ++ curl_cleanup ∷ pool_destroy ∷ pipe_close ∷ [] =
      ground (
        arith,
        l,
        append_assoc g.effects (curl_cleanup ∷ []) (pool_destroy ∷ []),
        append_assoc g.effects (curl_cleanup ∷ pool_destroy ∷ []) (pipe_close ∷ []),
      ) in
    record {
      once_held = ground (arith, l);
      fds_held = ground (arith, l);
      curl_held = ground (
        arith,
        l,
        h.curl_held,
        released,
        count-append is_curl_init g.effects (curl_cleanup ∷ pool_destroy ∷ pipe_close ∷ []),
        count-append is_curl_cleanup g.effects (curl_cleanup ∷ pool_destroy ∷ pipe_close ∷ []),
      );
      pool_held = ground (
        arith,
        l,
        h.pool_held,
        released,
        count-append is_pool_create g.effects (curl_cleanup ∷ pool_destroy ∷ pipe_close ∷ []),
        count-append is_pool_destroy g.effects (curl_cleanup ∷ pool_destroy ∷ pipe_close ∷ []),
      );
      pipe_held = ground (
        arith,
        l,
        h.pipe_held,
        released,
        count-append is_pipe_open g.effects (curl_cleanup ∷ pool_destroy ∷ pipe_close ∷ []),
        count-append is_pipe_close g.effects (curl_cleanup ∷ pool_destroy ∷ pipe_close ∷ []),
      );
    }

global_cleanup-IsHeld : (g : Globals) → IsHeld g → IsHeld (global_cleanup g)
unfolding global_cleanup
global_cleanup-IsHeld g h = elim (Bool-cases (g.init_counter == 0)) [
  | inl z ↦ rw z h
  | inr n ↦ elim (Bool-cases (g.init_counter == 1)) [
    | inl l ↦ last_cleanup-IsHeld g h l
    | inr m ↦ record {
      once_held = ground (arith, n, m, h.once_held);
      fds_held = ground (arith, n, m, h.fds_held);
      curl_held = ground (arith, n, m, h.curl_held);
      pool_held = ground (arith, n, m, h.pool_held);
      pipe_held = ground (arith, n, m, h.pipe_held);
    }
  ]
]

step-IsHeld : (g : Globals) (s : Step) → IsHeld g → IsHeld (step g s)
unfolding step
step-IsHeld g (inits r) h = elim (Bool-cases (g.init_counter == 0)) [
  | inl z ↦ first_init-IsHeld g r.curl_ok r.pool_ok r.pipe_ok r.ioctl_ok h z
  | inr n ↦ record {
    once_held = ground (arith, n, h.once_held);
    fds_held = ground (arith, n, h.fds_held);
    curl_held = ground (arith, n, h.curl_held);
    pool_held = ground (arith, n, h.pool_held);
    pipe_held = ground (arith, n, h.pipe_held);
  }
]
step-IsHeld g cleans h = global_cleanup-IsHeld g h
step-IsHeld g shuts_down h = record {
  once_held = h.once_held;
  fds_held = h.fds_held;
  curl_held = h.curl_held;
  pool_held = h.pool_held;
  pipe_held = h.pipe_held;
}

run-IsHeld_from : (g : Globals) (ss : List Step) → IsHeld g → IsHeld (run g ss)
unfolding run
run-IsHeld_from g [] h = h
run-IsHeld_from g (s ∷ ss) h = run-IsHeld_from (step g s) ss (step-IsHeld g s h)

-- In every history of calls from the start of the process, whatever fails: curl_global_cleanup has been
-- called once for each call of curl_global_init, a failed one included, threadpool_destroy for each of
-- threadpool_create, with the null pointer too, and each pipe has been closed, but for the last of each
-- while the counter is not 0; the pool and the pipe are marked as there exactly then.
pub run-IsHeld : (ss : List Step) → IsHeld (run at_start ss)
run-IsHeld ss = run-IsHeld_from at_start ss (record {
  once_held = refl;
  fds_held = refl;
  curl_held = refl;
  pool_held = refl;
  pipe_held = refl;
})
