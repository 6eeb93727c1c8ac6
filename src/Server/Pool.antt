-- ===== src/Server/Pool.antt =====
-- The address pool of src/server.c, by its network and prefix length from the configuration.
use camex.Base.{
  ℕ, ◌+◌, ◌-◌, ◌*◌, ◌%◌, ◌^◌, Bool, not, ◌&&◌, ltb, leb, ◌==◌, if◌then◌else◌, u32, ◌<<◌, ◌>>>◌,
}

abbrev pub max_clients_default : ℕ
max_clients_default = 256

abbrev pub max_clients_limit : ℕ
max_clients_limit = 65534

-- `pool_net` and `pool_prefix` of `server_db.globals`.
pub record Pool : Type 0 where
  pub net : ℕ
  pub prefix : ℕ

-- A w-bit subtraction.
abbrev pub sub32 : ℕ → ℕ → ℕ
sub32 a b = u32 (a + 2 ^ 32 - b)

-- `1U << (32U - prefix)`, for a prefix of 1 to 32.
unfoldable pub pool_size : Pool → ℕ
pool_size p = u32 (1 << (32 - p.prefix))

unfoldable pub pool_gateway : Pool → ℕ
pool_gateway p = u32 (p.net + 1)

unfoldable pub pool_first : Pool → ℕ
pool_first p = u32 (p.net + 2)

unfoldable pub pool_last : Pool → ℕ
pool_last p = sub32 (u32 (p.net + pool_size p)) 2

-- `htonl` and `ntohl` of a little-endian machine.
unfoldable pub swap : ℕ → ℕ
swap a = a % 256 * 16777216 + (a >>> 8) % 256 * 65536 + (a >>> 16) % 256 * 256 + (a >>> 24) % 256

-- Is `ip_be` (network order) a client address of the pool?
unfoldable pub pool_has : Pool → ℕ → Bool
pool_has p ip_be =
    let host = swap ip_be in not (ip_be == 0) && leb (pool_first p) host && leb host (pool_last p)

unfoldable pub default_max_clients : Pool → ℕ
default_max_clients p =
    let hosts = u32 (sub32 (pool_last p) (pool_first p) + 1) in
    let most = if ltb max_clients_limit hosts then max_clients_limit else hosts in
    if ltb max_clients_default most then most else max_clients_default
