-- ===== src/Tests/Samples.antt =====
-- Concrete instances of what the repository takes from elsewhere: a cache that drops nothing, a
-- parser that follows a script for each text, and a connection that keeps its response as a function.
use mathlib.Core.Logic.{ite, if_pos, if_neg}
use trillium_ratelimit.Common.{
  ℕ, ◌<◌, ◌≤◌, ◌≡◌, ◌≢◌, refl, inl, inr, Bool, true, false, Bool-cases, Option, none, some, List,
  [], ◌∷◌, ◌++◌, map, length, arith, Text, text_eq, text_eq_refl, text_eq_sound, if◌then◌else◌,
}
use trillium_ratelimit.Headers.Fields.{HeaderMap}
use trillium_ratelimit.Headers.Parser.{SfParser, IsConsuming, Value}
use trillium_ratelimit.Limiter.Network.{IpAddr}
use trillium_ratelimit.Limiter.Trillium.{ConnApi, IsConn}
use trillium_ratelimit.Store.Moka.{Cache, IsKeeping}

module _ {K V : Type 0} (same : Discrete K) where
  abbrev pub kept : Cache K V
  kept = record {
    State = K → Option V;
    build = λ n d k. none;
    find = λ s k. s k;
    put = λ s j v k. ite (same j k) (some v) (s k);
  }

  pub kept-IsKeeping : IsKeeping kept
  kept-IsKeeping = record {
    build_empty = λ n d k. refl;
    put_self = λ s k v. if_pos (same k k) refl (some v) (s k);
    put_other = λ s j k v h. if_neg (same j k) h (some v) (s k);
  }

pub data Reply : Type 0 where
  item : Value → Reply
  param : Text × Value → Reply
  stop : Reply

abbrev pub script_list : List Reply → Option (Option Value × List Reply)
script_list (item v ∷ s) = some (some v, s)
script_list (stop ∷ s) = some (none, s)
script_list s = none

abbrev pub script_param : List Reply → Option (Option (Text × Value) × List Reply)
script_param (param p ∷ s) = some (some p, s)
script_param (stop ∷ s) = some (none, s)
script_param s = none

-- It hands back one reply after another of those that it has for a text.
abbrev pub replying : (Text → List Reply) → SfParser
replying replies = record {
  State = List Reply;
  new = replies;
  parse_list = script_list;
  parse_param = script_param;
  parse_inner_list = λ s. none;
  size = λ s. length s;
}

list_reads : (s t : List Reply) (v : Value) → script_list s ≡ some (some v, t) → length t < length s
list_reads [] t v h = cc
list_reads (item w ∷ s) t v h = let e : s ≡ t = cc h in rw e (omega arith)
list_reads (param p ∷ s) t v h = cc
list_reads (stop ∷ s) t v h = cc

param_reads :
    (s t : List Reply) (v : Text × Value) → script_param s ≡ some (some v, t) → length t < length s
param_reads [] t v h = cc
param_reads (item w ∷ s) t v h = cc
param_reads (param p ∷ s) t v h = let e : s ≡ t = cc h in rw e (omega arith)
param_reads (stop ∷ s) t v h = cc

params_end : (s t : List Reply) → script_param s ≡ some (none, t) → length t ≤ length s
params_end [] t h = cc
params_end (item w ∷ s) t h = cc
params_end (param p ∷ s) t h = cc
params_end (stop ∷ s) t h = let e : s ≡ t = cc h in rw e (omega arith)

pub replying-IsConsuming : (replies : Text → List Reply) → IsConsuming (replying replies)
replying-IsConsuming replies = record {
  list_reads = list_reads;
  param_reads = param_reads;
  inner_reads = λ s t v h. cc;
  params_end = params_end;
  inner_end = λ s t h. cc;
}

pub record Exchange : Type 0 where
  pub peer : Option IpAddr
  pub fields : Text → List Text
  pub code : Option ℕ
  pub body : Option Text
  pub stopped : Bool
  -- what `conn.state::<UserId>()` finds
  pub user : Option ℕ

abbrev pub exchange_api : ConnApi
exchange_api = record {
  Conn = Exchange;
  Status = ℕ;
  too_many_requests = 429;
  peer_ip = λ c. c.peer;
  append = λ c name value. record c {
    fields = λ other. if text_eq name other then c.fields other ++ (value ∷ []) else c.fields other;
  };
  insert = λ c name value. record c {
    fields = λ other. if text_eq name other then value ∷ [] else c.fields other;
  };
  with_status = λ c s. record c { code = some s };
  halt = λ c. record c { stopped = true };
  values = λ c name. c.fields name;
  status = λ c. c.code;
  is_halted = λ c. c.stopped;
}

text_neq-false : (a b : Text) → a ≢ b → text_eq a b ≡ false
text_neq-false a b h = elim (Bool-cases (text_eq a b)) [
  | inl e ↦ absurd (h (text_eq_sound a b e))
  | inr e ↦ e
]

pub exchange_api-IsConn : IsConn exchange_api
exchange_api-IsConn = record {
  append_same = λ c name value. rw (text_eq_refl name) refl;
  append_other = λ c name value other h. rw (text_neq-false name other h) refl;
  insert_same = λ c name value. rw (text_eq_refl name) refl;
  insert_other = λ c name value other h. rw (text_neq-false name other h) refl;
  values-with_status = λ c s name. refl;
  values-halt = λ c name. refl;
  status-with_status = λ c s. refl;
  status-halt = λ c. refl;
  is_halted-append = λ c name value. refl;
  is_halted-halt = λ c. refl;
}

abbrev pub first_request : Exchange
first_request = record {
  peer = none;
  fields = λ name. [];
  code = none;
  body = none;
  stopped = false;
  user = none;
}

abbrev pub head : List Text → Option Text
head [] = none
head (x ∷ xs) = some x

-- A network that delivers the fields as they were written.
abbrev pub delivered : HeaderMap
delivered = record {
  Headers = Exchange;
  get_values = λ headers name. some (map some (headers.fields name));
  get_str = λ headers name. head (headers.fields name);
}
