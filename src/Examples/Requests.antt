-- ===== src/Examples/Requests.antt =====
-- The theorems on browser sessions, rate limits and proxies, at small inputs.
use zorkd.Base.{
  ℕ, ◌+◌, ◌*◌, ◌-◌, ◌≤◌, ◌≡◌, refl, true, Option, none, some, List, [], ◌∷◌, arith, length, All,
  Text, codes, lookup, str_eq, str_eq_iff, replicate,
}
use zorkd.Errors.{ok}
use zorkd.Game.SaveName.{is_empty}
use zorkd.Go.Decimal.{format_int}
use zorkd.Login.{Manager, Cookie, start, user_id, end_session, sweep, look_up}
use zorkd.Login.Rows.{Table, Row, session_by_token}
use zorkd.Login.Lifetime.{start-user_id}
use zorkd.Limiter.{Limiter, Float, allow}
use zorkd.Limiter.Size.{allow-bounded}
use zorkd.Limiter.Steady.{IsSteady, allow-IsSteady}
use zorkd.Limiter.Rate.{passed, Rounds, passed-bound}
use zorkd.Proxy.{Netip, Request, client_ip, source_key, has, parse_trusted_proxies}
use zorkd.Proxy.Edge.{client_ip-edge, parse_trusted_proxies-loopback, passes_over}

abbrev manager : Manager
manager = record { ttl = 10; secure = true }

-- A hash of 32 bytes, and an encoding that is not empty.
abbrev hash : Text → Text
hash token = replicate 32 1

abbrev encode : List ℕ → Text
encode bytes = b'a' ∷ bytes

abbrev users : Table
users = record { sessions = []; users = 7 ∷ [] }

abbrev row : Row
row = record { user_id = 7; expires_at = 15 }

abbrev signed_in : Table
signed_in = record { sessions = (hash [], row) ∷ []; users = 7 ∷ [] }

abbrev cookie : Cookie
cookie = record { value = codes "a"; expires = 15; max_age = some 0; secure = true }

start-user_id_example :
    user_id hash encode manager 14 (some (codes "a")) signed_in ≡ (ok (format_int 7), signed_in)
unfolding start format_int zorkd.Login.Rows.create_session zorkd.Go.Decimal.parse_positive lookup
    zorkd.Login.Rows.is_user
start-user_id_example =
    start-user_id hash encode manager (ok []) 5 7 14 users signed_in cookie
      (unfold is_empty in refl) (omega arith) (omega arith) refl (omega arith)

-- Tokens in tenths, for a token each ten nanoseconds: nothing is rounded.
abbrev tenths : Float
tenths = record { one = 10; gain = λ t e r. t + e; until_one = λ t r. 10 - t }

-- Two keys at most, of which one is tracked with nothing left.
abbrev limiter : Limiter
limiter = record {
  float = tenths;
  burst = 2;
  refill = 10;
  max_keys = 2;
  buckets = (codes "a", record { tokens = 0; seen = 5 }) ∷ [];
  last_sweep = 0;
}

allow-bounded_example : length (allow (codes "b") 6 limiter).1.buckets ≤ 2
allow-bounded_example = allow-bounded (codes "b") 6 limiter (omega arith) (omega arith)

steady : IsSteady 5 limiter
unfolding IsSteady
steady = ((omega arith, omega arith), tt)

allow-IsSteady_example : IsSteady 6 (allow (codes "b") 6 limiter).1
allow-IsSteady_example = allow-IsSteady (codes "b") 5 6 limiter steady (omega arith)

rounds : Rounds 0 limiter
rounds t e = omega arith

passed-bound_example :
    passed (codes "a") (5 ∷ 15 ∷ 16 ∷ []) limiter * (10 * 10)
    ≤ 2 * 10 * 10 + ((16 - 5) * 10 + length {A = ℕ} (15 ∷ 16 ∷ []) * (0 * 10))
passed-bound_example =
    passed-bound 0 (codes "a") 5 (15 ∷ 16 ∷ []) limiter rounds steady
      (omega arith, (omega arith, tt))

-- An address is a text: "p" is the proxy, of this machine, and every other text but the empty one is
-- a client's.
abbrev read : Text → Option Text
read [] = none
read (b ∷ s) = some (b ∷ s)

abbrev net : Netip
net = record {
  Addr = Text;
  Prefix = Text;
  same = str_eq;
  same_iff = str_eq_iff;
  parse_addr = read;
  parse_prefix = λ s. none;
  is_single_ip = λ s. true;
  prefix_addr = λ s. s;
  unmap = λ s. s;
  is_loopback = str_eq (codes "p");
  to_string = λ s. s;
  split_host = some;
}

abbrev honest : Request
honest = record { remote_addr = codes "p"; forwarded = codes "c" ∷ [] }

abbrev forged : Request
forged = record { remote_addr = codes "p"; forwarded = codes "x,c" ∷ [] }

client_ip-edge_example :
    client_ip ⦃net = net⦄ (codes "p" ∷ []) honest ≡ client_ip ⦃net = net⦄ (codes "p" ∷ []) forged
unfolding zorkd.Proxy.forwarded_for zorkd.Go.Split.split passes_over zorkd.Go.Space.trim_space
    is_empty zorkd.Proxy.has str_eq
client_ip-edge_example =
    client_ip-edge ⦃net = net⦄ (codes "p" ∷ []) honest forged (codes "c") [] (codes "x" ∷ []) []
      refl refl refl refl

parse_trusted_proxies-loopback_example :
    All (λ (a : Text). str_eq (codes "p") a ≡ true) (codes "p" ∷ [])
unfolding parse_trusted_proxies zorkd.Proxy.parse_fields zorkd.Proxy.parse_trusted_proxy
    zorkd.Go.Split.split zorkd.Go.Space.trim_space is_empty str_eq
parse_trusted_proxies-loopback_example =
    parse_trusted_proxies-loopback ⦃net = net⦄ (codes " p,") (codes "p" ∷ []) refl
