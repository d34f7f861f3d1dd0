-- ===== src/Messaging/State.antt =====
-- The folded state of an envelope and its sort key, of src/messaging/state.ts, and the identifiers
-- of src/shared/ids.ts that the bus checks.
pub mod Order
use Prim.Native.Char.{code}
use deputy_agent.Prelude.{
  ℕ, zero, suc, leb, String, ℤ, pos, negsuc, sub_ℕ, is_positive, text_lt, Bool, true, false, not,
  ◌||◌, ◌&&◌, List, [], ◌∷◌, Option, none, some, str_eq, if◌then◌else◌,
}
use deputy_agent.Messaging.Kinds.{Channel}

pub record EnvelopeState : Type 0 where
  pub env_id : String
  pub channel : Channel
  pub kind : String  -- read from the log without a check against the kinds
  pub from : String
  pub created_at : String
  pub state_seq : ℕ
  pub read : Bool
  pub read_by : Option String
  pub responded : Bool
  pub responded_by : Option String
  pub failed : Bool

abbrev pub OrderKey : Type 0
OrderKey = String × ℕ

abbrev pub envelope_order_key : EnvelopeState → OrderKey
envelope_order_key s = (s.created_at, s.state_seq)

unfoldable pub compare_order_key : OrderKey → OrderKey → ℤ
compare_order_key a b =
    if text_lt a.0 b.0 then negsuc 0 else if text_lt b.0 a.0 then pos 1 else sub_ℕ a.1 b.1

unfoldable pub is_hex_digit : ℕ → Bool
is_hex_digit c = (leb b'a' c && leb c b'f') || (leb b'0' c && leb c b'9')

-- `n` characters of the class [a-f0-9] and no more
unfoldable pub is_hex : ℕ → String → Bool
unfolding is_hex_digit
is_hex zero String.[] = true
is_hex zero (String.◌∷◌ c s) = false
is_hex (suc n) String.[] = false
is_hex (suc n) (String.◌∷◌ c s) = is_hex_digit (code c) && is_hex n s

-- `HEX8_PATTERN`, /^[a-f0-9]{8}$/
unfoldable pub is_valid_envelope_id : String → Bool
unfolding is_hex
is_valid_envelope_id s = is_hex 8 s
