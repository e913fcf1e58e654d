-- ===== src/Limiter/Trillium.antt =====
-- What src/limiter.rs uses of trillium's `Conn`, which is not part of the repository: the operations
-- as an interface, and what its documentation says of them as laws.
use trillium_ratelimit.Common.{◌≡◌, ◌≢◌, Bool, true, Option, some, List, [], ◌∷◌, ◌++◌, Text}
use trillium_ratelimit.Limiter.Network.{IpAddr}

pub record ConnApi : Type 1 where
  pub Conn : Type 0
  pub Status : Type 0
  pub too_many_requests : Status
  pub peer_ip : Conn → Option IpAddr
  -- `conn.response_headers_mut().append(name, value)`, and `insert`
  pub append : Conn → Text → Text → Conn
  pub insert : Conn → Text → Text → Conn
  pub with_status : Conn → Status → Conn
  pub halt : Conn → Conn
  -- what a response shows: the values of a header, the status and whether the handlers stop
  pub values : Conn → Text → List Text
  pub status : Conn → Option Status
  pub is_halted : Conn → Bool

module _ (api : ConnApi) where
  open api use {Conn, Status, append, insert, with_status, halt, values, status, is_halted}

  pub record IsConn : Type 0 where
    pub append_same :
        (c : Conn) (name value : Text)
        → values (append c name value) name ≡ values c name ++ (value ∷ [])
    pub append_other :
        (c : Conn) (name value other : Text)
        → name ≢ other
        → values (append c name value) other ≡ values c other
    pub insert_same :
        (c : Conn) (name value : Text) → values (insert c name value) name ≡ value ∷ []
    pub insert_other :
        (c : Conn) (name value other : Text)
        → name ≢ other
        → values (insert c name value) other ≡ values c other
    pub values-with_status :
        (c : Conn) (s : Status) (name : Text) → values (with_status c s) name ≡ values c name
    pub values-halt : (c : Conn) (name : Text) → values (halt c) name ≡ values c name
    pub status-with_status : (c : Conn) (s : Status) → status (with_status c s) ≡ some s
    pub status-halt : (c : Conn) → status (halt c) ≡ status c
    pub is_halted-append :
        (c : Conn) (name value : Text) → is_halted (append c name value) ≡ is_halted c
    pub is_halted-halt : (c : Conn) → is_halted (halt c) ≡ true
