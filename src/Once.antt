-- ===== src/Once.antt =====
-- source/wineberry/discord/winecord-once.c, winecord-worker.c: what all clients of a process share,
-- the libcurl globals, the pool of workers and the shutdown pipe. A call holds the lock throughout.
-- What curl_global_init, threadpool_create, pipe and the ioctl calls on its ends return is an argument;
-- `true` is success. An effect is a call; those of curl_global_init and threadpool_create say whether
-- they succeeded. After a failed curl_global_init the code calls curl_global_cleanup all the same; it
-- does not look at a null pointer of threadpool_create, and hands it to threadpool_destroy later. A call
-- of pipe that fails leaves the descriptors at -1, and is no effect.
pub mod Effects
pub mod Counter
mod Tests
use wineberry_discord.Prelude.{
  ℕ, ◌+◌, ◌-◌, ◌==◌, Bool, true, false, List, [], ◌∷◌, ◌++◌, if◌then◌else◌,
}

pub data Effect : Type 0 where
  curl_init pool_create : Bool → Effect
  curl_cleanup pool_destroy pipe_open pipe_close : Effect

-- The static variables: `init_counter`, the workers' `once`, and whether `shutdown_fds` are open and
-- have been written to.
pub record Globals : Type 0 where
  pub init_counter : ℕ
  pub once : Bool
  pub fds : Bool
  pub written : Bool
  pub effects : List Effect

abbrev pub at_start : Globals
at_start = record { init_counter = 0; once = false; fds = false; written = false; effects = [] }

abbrev emit : Globals → Effect → Globals
emit g e = record g { effects = g.effects ++ e ∷ [] }

-- `winecord_worker_global_cleanup`
unfoldable pub worker_global_cleanup : Globals → Globals
worker_global_cleanup g = record (emit g pool_destroy) { once = false }

-- `winecord_worker_global_init`: whether it returns 0.
unfoldable pub worker_global_init : Globals → Bool → Globals × Bool
worker_global_init g pool_ok =
    if g.once then (g, false) else (record (emit g (pool_create pool_ok)) { once = true }, true)

abbrev close_fds : Globals → Globals
close_fds g = if g.fds then record (emit g pipe_close) { fds = false; written = false } else g

-- The labels of `wineberry_global_init`.
abbrev fail_curl_init : Globals → Globals × Bool
fail_curl_init g = (record (emit g curl_cleanup) { init_counter = 0 }, false)

unfoldable pub fail_worker_init : Globals → Globals × Bool
unfolding worker_global_cleanup
fail_worker_init g = fail_curl_init (worker_global_cleanup g)

unfoldable pub fail_pipe_init : Globals → Globals × Bool
unfolding fail_worker_init
fail_pipe_init g = fail_worker_init (close_fds g)

unfoldable pub pipe_init : Globals → Bool → Bool → Globals × Bool
unfolding fail_pipe_init
pipe_init g false ioctl_ok = fail_pipe_init g
pipe_init g true false = fail_pipe_init (record (emit g pipe_open) { fds = true; written = false })
pipe_init g true true = (record (emit g pipe_open) { fds = true; written = false }, true)

-- What the calls return: curl_global_init, threadpool_create, pipe, and ioctl.
pub record Returns : Type 0 where
  pub curl_ok : Bool
  pub pool_ok : Bool
  pub pipe_ok : Bool
  pub ioctl_ok : Bool

abbrev pub curl_init_by : Bool → Globals → Returns → Globals × Bool
curl_init_by false g r = fail_curl_init g
curl_init_by true g r =
    let (g', fresh) = worker_global_init g r.pool_ok in
    if fresh then pipe_init g' r.pipe_ok r.ioctl_ok else fail_worker_init g'

unfoldable pub first_init : Globals → Returns → Globals × Bool
unfolding pipe_init worker_global_init
first_init g r = curl_init_by r.curl_ok (emit g (curl_init r.curl_ok)) r

-- `wineberry_global_init`, and whether it returns WINEBERRY_OK.
unfoldable pub global_init : Globals → Returns → Globals × Bool
unfolding first_init
global_init g r =
    let g' = record g { init_counter = g.init_counter + 1 } in
    if g.init_counter == 0 then first_init g' r else (g', true)

-- `wineberry_global_cleanup`
unfoldable pub global_cleanup : Globals → Globals
unfolding worker_global_cleanup
global_cleanup g =
    if g.init_counter == 0
    then g
    else (let g' = record g { init_counter = g.init_counter - 1 } in
        if g.init_counter == 1
        then record (emit (worker_global_cleanup (emit g' curl_cleanup)) pipe_close) {
          fds = false;
          written = false;
        }
        else g')

-- `wineberry_shutdown_async` and `wineberry_shutting_down`
abbrev pub shutdown_async : Globals → Globals
shutdown_async g = record g { written = g.fds }

abbrev pub shutting_down : Globals → Bool
shutting_down g = if g.fds then g.written else false

pub data Step : Type 0 where
  inits : Returns → Step
  cleans shuts_down : Step

unfoldable pub step : Globals → Step → Globals
unfolding global_init global_cleanup
step g (inits r) = (global_init g r).0
step g cleans = global_cleanup g
step g shuts_down = shutdown_async g

unfoldable pub run : Globals → List Step → Globals
unfolding step
run g [] = g
run g (s ∷ ss) = run (step g s) ss
