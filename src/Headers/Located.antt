-- ===== src/Headers/Located.antt =====
-- What `sfparse` promises of the ranges in its values.
use trillium_ratelimit.Common.{◌≤◌, ◌≡◌, none, some, Text, length}
use trillium_ratelimit.Headers.Parser.{
  SfParser, Range, Value, integer, string, byte_seq, inner_list, bare,
}

abbrev pub Inside : Text → Range → Type 0
Inside text r = (r.start ≤ r.stop) × (r.stop ≤ length text)

-- The value's range lies in the text.
abbrev pub InText : Text → Value → Type 0
InText text (integer n) = Unit
InText text (string r escape) = Inside text r
InText text (byte_seq r) = Inside text r
InText text inner_list = Unit
InText text bare = Unit

module _ (p : SfParser) where
  open p use {State, new, parse_list, parse_param, parse_inner_list}

  -- `On text s`: `s` is a state of reading `text`. What is read in it lies in the text.
  pub record IsLocated : Type 1 where
    pub On : Text → State → Type 0
    pub on_new : (text : Text) → On text (new text)
    pub list_on :
        (text : Text) (s t : State) (v : Value)
        → On text s
        → parse_list s ≡ some (some v, t)
        → On text t × InText text v
    pub param_on :
        (text : Text) (s t : State) (v : Text × Value)
        → On text s
        → parse_param s ≡ some (some v, t)
        → On text t × InText text v.1
    pub params_end_on :
        (text : Text) (s t : State) → On text s → parse_param s ≡ some (none, t) → On text t
    pub inner_on :
        (text : Text) (s t : State) (v : Value)
        → On text s
        → parse_inner_list s ≡ some (some v, t)
        → On text t
    pub inner_end_on :
        (text : Text) (s t : State) → On text s → parse_inner_list s ≡ some (none, t) → On text t
