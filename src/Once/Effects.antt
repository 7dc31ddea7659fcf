-- ===== src/Once/Effects.antt =====
-- winecord-once.c: how often each shared resource was taken and given back.
use wineberry_discord.Prelude.{ℕ, ◌+◌, ◌≡◌, Bool, true, false, List, [], ◌∷◌, ◌++◌, arith}
use wineberry_discord.Once.{
  Effect, curl_init, curl_cleanup, pool_create, pool_destroy, pipe_open, pipe_close,
}

-- The sum of `f` over some effects.
abbrev pub count : (Effect → ℕ) → List Effect → ℕ
count f [] = 0
count f (e ∷ es) = f e + count f es

abbrev pub is_curl_init : Effect → ℕ
is_curl_init (curl_init curl_ok) = 1
is_curl_init _ = 0

abbrev pub is_curl_cleanup : Effect → ℕ
is_curl_cleanup curl_cleanup = 1
is_curl_cleanup _ = 0

abbrev pub is_pool_create : Effect → ℕ
is_pool_create (pool_create pool_ok) = 1
is_pool_create _ = 0

abbrev pub is_pool_destroy : Effect → ℕ
is_pool_destroy pool_destroy = 1
is_pool_destroy _ = 0

abbrev pub is_pipe_open : Effect → ℕ
is_pipe_open pipe_open = 1
is_pipe_open _ = 0

abbrev pub is_pipe_close : Effect → ℕ
is_pipe_close pipe_close = 1
is_pipe_close _ = 0

pub count-append :
    (f : Effect → ℕ) (es ds : List Effect) → count f (es ++ ds) ≡ count f es + count f ds
count-append f [] ds = omega arith
count-append f (e ∷ es) ds = omega (arith, count-append f es ds)

abbrev pub one_if : Bool → ℕ
one_if true = 1
one_if false = 0
